-- ===== src/Hello/Signed.antt =====
-- The hmac of a hello and that of its answer in tcp_rpcs_compact_parse_execute of
-- c-original/net/net-tcp-rpc-ext-server.c.
use mtproxy.Prelude.{
  ◌/◌, ◌%◌, ℕ, suc, ◌+◌, ◌<◌, ◌≡◌, refl, sym, ap, ◌∙◌, some, List, [], ◌∷◌, ◌++◌, length, take,
  drop, replicate, get_or, arith, Bool-cases, inl, inr, some-eq, subst,
}
use mathlib.Core.List.{append_assoc}
use mtproxy.Prelude.Bytes.{Bytes, same_bytes, same_bytes_sound}
use mtproxy.Hello.{DomainInfo, find_secret}
use mtproxy.Hello.Handshake.{Draw, response, extensions, get_domain_server_hello_encrypted_size}

module _ (hmac : Bytes → Bytes → Bytes) where
  -- The secret that fits a hello: 28 bytes of its hmac of the hello are those of the random.
  pub record Fits (secrets : List Bytes) (id : ℕ) (hello random expected : Bytes) : Type 0 where
    pub known : id < length secrets
    pub hashed : expected ≡ hmac (get_or secrets id []) hello
    pub equal : take 28 (hmac (get_or secrets id []) hello) ≡ take 28 random

  find_from :
      (secrets : List Bytes) (start : ℕ) (hello random : Bytes) (id : ℕ) (expected : Bytes)
      → find_secret hmac secrets start hello random ≡ some (id, expected)
      → (n : ℕ) × (id ≡ n + start) × Fits secrets n hello random expected
  unfolding find_secret
  find_from [] start hello random id expected e = cc
  find_from (secret ∷ rest) start hello random id expected e =
      elim (Bool-cases (same_bytes (take 28 (hmac secret hello)) (take 28 random))) [
        | inl fits ↦
            let both : ◌≡◌ {A = ℕ × Bytes} (start, hmac secret hello) (id, expected) =
              some-eq (ground (arith, fits, e)) in
            let start_eq : start ≡ id = ap (λ z. z.0) both in
            (
              0,
              omega (arith, start_eq),
              record {
                known = omega arith;
                hashed = sym (ap (λ z. z.1) both);
                equal = same_bytes_sound _ _ fits;
              },
            )
        | inr other ↦
            let (n, at, f) =
              find_from rest (start + 1) hello random id expected (ground (arith, other, e)) in
            let inside = f.known in
            (suc n, omega arith, record { known = omega arith; hashed = f.hashed; equal = f.equal })
      ]

  pub find_secret-Fits :
      (secrets : List Bytes) (hello random : Bytes) (id : ℕ) (expected : Bytes)
      → find_secret hmac secrets 0 hello random ≡ some (id, expected)
      → Fits secrets id hello random expected
  find_secret-Fits secrets hello random id expected e =
      let (n, at, f) = find_from secrets 0 hello random id expected e in
      subst (λ z. Fits secrets z hello random expected) (omega arith) f

  -- An answer that carries, behind its first 11 bytes, the hmac of the random and of the answer itself with zeros in that
  -- place, and behind that the session's id with its length.
  abbrev pub IsSigned : Bytes → Bytes → Bytes → Bytes → Type 0
  IsSigned secret random session answer =
      (before : Bytes) × (after : Bytes) × (length before ≡ 11)
      × (answer
          ≡ before
            ++ hmac secret (random ++ (before ++ replicate 32 0 ++ (0x20 ∷ session ++ after)))
            ++ (0x20 ∷ session ++ after))

  abbrev first : Bytes
  first = 0x16 ∷ 0x03 ∷ 0x03 ∷ 0x00 ∷ 0x7a ∷ 0x02 ∷ 0x00 ∷ 0x00 ∷ 0x76 ∷ 0x03 ∷ 0x03 ∷ []

  -- What follows the session's id
  abbrev behind : DomainInfo → Draw → ℕ → Bytes
  behind info draw suite =
      let encrypted_size = get_domain_server_hello_encrypted_size info draw.rand in
      (0x13 ∷ suite ∷ 0x00 ∷ 0x00 ∷ 0x2e ∷ extensions info draw)
      ++ ((0x14
            ∷ 0x03
            ∷ 0x03
            ∷ 0x00
            ∷ 0x01
            ∷ 0x01
            ∷ 0x17
            ∷ 0x03
            ∷ 0x03
            ∷ encrypted_size / 256
            ∷ encrypted_size % 256
            ∷ [])
          ++ draw.encrypted encrypted_size)

  parts_assoc : (x a b c d : Bytes) → x ++ a ++ b ++ c ++ d ≡ x ++ (a ++ (b ++ (c ++ d)))
  parts_assoc x a b c d =
      append_assoc (x ++ a ++ b) c d
      ∙ append_assoc (x ++ a) b (c ++ d)
      ∙ append_assoc x a (b ++ (c ++ d))

  response-parts :
      (info : DomainInfo) (draw : Draw) (hello : Bytes) (suite : ℕ) (random : Bytes)
      → response info draw hello suite random
        ≡ first ++ random ++ (0x20 ∷ take 32 (drop 44 hello) ++ behind info draw suite)
  unfolding response
  response-parts info draw hello suite random = parts_assoc (first ++ random) _ _ _ _

  pub response-IsSigned :
      (info : DomainInfo) (draw : Draw) (hello : Bytes) (suite : ℕ) (secret random : Bytes)
      → IsSigned secret random (take 32 (drop 44 hello)) (
          response info draw hello suite
            (hmac secret (random ++ response info draw hello suite (replicate 32 0))))
  response-IsSigned info draw hello suite secret random =
      let session = take 32 (drop 44 hello) in
      let split = response-parts info draw hello suite in
      (
        first,
        behind info draw suite,
        refl,
        split _
            ∙ ap
                (λ z.
                  first ++ hmac secret (random ++ z) ++ (0x20 ∷ session ++ behind info draw suite))
                (split (replicate 32 0)),
      )
