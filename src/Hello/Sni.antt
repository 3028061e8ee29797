-- ===== src/Hello/Sni.antt =====
-- get_sni_domain_info of c-original/net/net-tcp-rpc-ext-server.c reads no byte outside of the request.
use mtproxy.Prelude.{
  ℕ, zero, suc, ◌+◌, ◌-◌, ◌%◌, ◌&&◌, ◌<◌, ◌≤◌, ◌≡◌, refl, true, not, Option, none, [], ◌∷◌, ltb,
  leb, ◌==◌, length, take, drop, arith, inl, inr, ◌⊎◌,
}
use mtproxy.Prelude.Bytes.{Bytes}
use mtproxy.Prelude.Run.{Run, ok, Returns, returns, Returns-bind, Returns-if, Returns-map}
use mtproxy.Hello.{
  DomainInfo, Server, get_domain_info, byte_at, read_length, has_zero, sni_domain, sni_loop,
  get_sni_domain_info, skip_grease,
}
use mtproxy.Hello.Handshake.{cipher_suite}

-- A run that ends with any value.
abbrev pub Ended : {A : Type 0} → Run A → Type 0
Ended {A} r = Returns (λ (v : A). Unit {0}) r

-- Nothing, or what the table has for some name.
abbrev pub IsKnown : Server → Option DomainInfo → Type 0
IsKnown server o = (o ≡ none) ⊎ ((name : Bytes) × (o ≡ get_domain_info server name))

pub byte_at-Ended : (request : Bytes) (pos : ℕ) → pos < length request → Ended (byte_at request pos)
byte_at-Ended [] pos p = absurd (omega (arith, p))
byte_at-Ended (b ∷ bs) zero p = returns tt
byte_at-Ended (b ∷ bs) (suc pos) p = byte_at-Ended bs pos (omega (arith, p))

pub read_length-Ended :
    (request : Bytes) (pos : ℕ) → pos + 2 ≤ length request → Ended (read_length request pos)
unfolding read_length
read_length-Ended request pos p =
    Returns-bind (byte_at-Ended request pos (omega (arith, p)))
      (λ a u. Returns-bind (byte_at-Ended request (pos + 1) (omega (arith, p))) (λ b v. returns tt))

has_zero-Ended :
    (n : ℕ) (request : Bytes) (pos : ℕ) → pos + n ≤ length request → Ended (has_zero n request pos)
unfolding has_zero
has_zero-Ended zero request pos p = returns tt
has_zero-Ended (suc n) request pos p =
    Returns-bind (byte_at-Ended request pos (omega (arith, p))) (λ b u.
      Returns-if (b == 0) (ok true) (has_zero n request (pos + 1)) (λ y. returns tt)
        (λ no. has_zero-Ended n request (pos + 1) (omega (arith, p))))

module _ (server : Server) (request : Bytes) where
  sni_domain-IsKnown :
      (pos n : ℕ)
      → pos + n ≤ length request
      → Returns (IsKnown server) (sni_domain server request pos n)
  unfolding sni_domain
  sni_domain-IsKnown pos n p =
      Returns-if (ltb (length request) (pos + 5)) _ _ (λ y. returns (inl refl))
        (λ a. Returns-bind (read_length-Ended request pos (ground (arith, a))) (λ inner u.
          Returns-if (not (inner + 2 == n)) _ _ (λ y. returns (inl refl))
            (λ b. Returns-bind (byte_at-Ended request (pos + 2) (ground (arith, a))) (λ kind v.
              Returns-if (not (kind == 0)) _ _ (λ y. returns (inl refl))
                (λ c.
                  Returns-bind (read_length-Ended request (pos + 3) (ground (arith, a))) (λ name w.
                    Returns-if (not (name + 5 == n)) _ _ (λ y. returns (inl refl))
                      (λ d.
                        Returns-bind (has_zero-Ended name request (pos + 5) (ground (arith, d, p)))
                          (λ zeros x.
                            Returns-if zeros _ _ (λ y. returns (inl refl))
                              (λ e.
                                returns (inr (take name (drop (pos + 5) request), refl)))))))))))

  sni_loop-IsKnown :
      (fuel pos : ℕ)
      → length request < fuel + pos
      → pos ≤ length request
      → Returns (IsKnown server) (sni_loop fuel server request pos)
  unfolding sni_loop
  sni_loop-IsKnown zero pos p q = absurd (omega (arith, p, q))
  sni_loop-IsKnown (suc fuel) pos p q =
      Returns-if (ltb (length request) (pos + 4)) _ _ (λ y. returns (inl refl))
        (λ a. Returns-bind (read_length-Ended request pos (ground (arith, a))) (λ id u.
          Returns-bind (read_length-Ended request (pos + 2) (ground (arith, a))) (λ n v.
            Returns-if (ltb (length request) (pos + 4 + n)) _ _ (λ y. returns (inl refl))
              (λ b.
                Returns-if (id == 0) _ _ (λ y. sni_domain-IsKnown (pos + 4) n (ground (arith, b)))
                  (λ c.
                    sni_loop-IsKnown fuel (pos + 4 + n) (omega (arith, p)) (ground (arith, b)))))))

  -- A domain is found in a request that goes beyond the length of its cipher suites.
  pub get_sni_domain_info-IsKnown :
      Returns
        (λ o. (o ≡ none) ⊎ (IsKnown server o × (78 ≤ length request)))
        (get_sni_domain_info server request)
  unfolding get_sni_domain_info
  get_sni_domain_info-IsKnown =
      Returns-if (ltb (length request) 78) _ _ (λ y. returns (inl refl))
        (λ a. Returns-bind (read_length-Ended request 76 (ground (arith, a))) (λ n u.
          Returns-if (ltb (length request) (78 + n + 4)) _ _ (λ y. returns (inl refl))
            (λ b.
              Returns-map
                (sni_loop-IsKnown (length request) (78 + n + 4) (omega arith) (ground (arith, b)))
                (λ o k. inr (k, ground (arith, a))))))

skip_grease-Ended :
    (rounds : ℕ) (hello : Bytes) (pos len : ℕ)
    → pos + len ≤ length hello
    → Returns (λ r. r.0 + r.1 ≤ length hello) (skip_grease rounds hello pos len)
unfolding skip_grease
skip_grease-Ended zero hello pos len p = returns p
skip_grease-Ended (suc rounds) hello pos len p =
    Returns-if (ltb len 2) _ _ (λ y. returns p)
      (λ a. Returns-bind (byte_at-Ended hello pos (ground (arith, a, p))) (λ first u.
        Returns-bind (byte_at-Ended hello (pos + 1) (ground (arith, a, p))) (λ second v.
          Returns-if (first % 16 == 10 && second % 16 == 10) _ _
            (λ y. skip_grease-Ended rounds hello (pos + 2) (len - 2) (ground (arith, a, p)))
            (λ n. returns p))))

pub cipher_suite-Ended : (hello : Bytes) → 78 ≤ length hello → Ended (cipher_suite hello)
unfolding cipher_suite
cipher_suite-Ended hello p = Returns-bind (read_length-Ended hello 76 (omega (arith, p))) (λ n u.
    Returns-if (ltb (length hello) (78 + n)) _ _ (λ y. returns tt)
      (λ a. Returns-bind (skip_grease-Ended n hello 78 n (ground (arith, a))) (λ r b.
        Returns-if (leb r.1 1) _ _ (λ y. returns tt)
          (λ c. Returns-bind (byte_at-Ended hello r.0 (ground (arith, b, c))) (λ first v.
            Returns-bind (byte_at-Ended hello (r.0 + 1) (ground (arith, b, c)))
              (λ second w. returns tt))))))
