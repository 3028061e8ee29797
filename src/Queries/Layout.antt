-- ===== src/Queries/Layout.antt =====
-- The bytes of a query of forward_tcp_query (c-original/mtproto/mtproto-proxy.c), as a server reads them.
use mtproxy.Prelude.{
  ℕ, ◌≡◌, refl, sym, ap, ◌∙◌, Option, none, some, [], ◌++◌, length, take, drop, subst, some-eq,
  ◌||◌, if◌then◌else◌,
}
use mathlib.Core.List.{append_assoc}
use mtproxy.Prelude.Bytes.{Bytes, le_bytes, take-append}
use mtproxy.Queries.{
  Address, Settings, Client, rpc_proxy_req, address_bytes, extra_bytes, query_bytes, has_bit,
}

-- The words at the places 0, 4 and 8 are RPC_PROXY_REQ, the flags and the id; an address of 20 bytes that was given stands
-- at place 16; and the packet is what the bytes end with.
pub record IsReadAs (flags id : ℕ) (remote : Option Bytes) (packet bytes : Bytes) : Type 0 where
  pub kind : take 4 bytes ≡ le_bytes 4 rpc_proxy_req
  pub flag_word : take 4 (drop 4 bytes) ≡ le_bytes 4 flags
  pub id_word : take 8 (drop 8 bytes) ≡ le_bytes 8 id
  pub client : (ip : Bytes) → remote ≡ some ip → length ip ≡ 20 → take 20 (drop 16 bytes) ≡ ip
  pub ends : (before : Bytes) × (bytes ≡ before ++ packet)

assoc_six :
    (a b c d e f p : Bytes)
    → (a ++ (b ++ (c ++ (d ++ (e ++ f))))) ++ p ≡ a ++ (b ++ (c ++ (d ++ (e ++ (f ++ p)))))
assoc_six a b c d e f p =
    append_assoc a (b ++ (c ++ (d ++ (e ++ f)))) p
    ∙ ap (λ z. a ++ z)
        (append_assoc b (c ++ (d ++ (e ++ f))) p
          ∙ ap (λ z. b ++ z)
              (append_assoc c (d ++ (e ++ f)) p
                ∙ ap (λ z. c ++ z)
                    (append_assoc d (e ++ f) p ∙ ap (λ z. d ++ z) (append_assoc e f p))))

taken : (given ip rest : Bytes) → given ≡ ip → length ip ≡ 20 → take 20 (given ++ rest) ≡ ip
taken given ip rest e n =
    subst (λ g. take 20 (g ++ rest) ≡ ip) (sym e)
      (subst (λ k. take k (ip ++ rest) ≡ ip) n (take-append ip rest))

abbrev address_of : Option Bytes → Address → Bytes
address_of given own = elim given [ none ↦ address_bytes own | some ip ↦ ip ]

module _ (st : Settings) (c : Client) (flags id : ℕ) where
  abbrev extra_part : Bytes
  extra_part =
      if has_bit flags 2 || has_bit flags 3
      then le_bytes 4 (length (extra_bytes st flags)) ++ extra_bytes st flags
      else []

  given_lem :
      (remote our : Option Bytes) (packet ip : Bytes)
      → remote ≡ some ip
      → length ip ≡ 20
      → take 20 (drop 16 (query_bytes st c flags id remote our packet)) ≡ ip
  unfolding query_bytes le_bytes
  given_lem none our packet ip e n = cc
  given_lem (some given) our packet ip e n = taken given ip _ (some-eq e) n

  pub query_bytes-IsReadAs :
      (remote our : Option Bytes) (packet : Bytes)
      → IsReadAs flags id remote packet (query_bytes st c flags id remote our packet)
  unfolding query_bytes le_bytes
  query_bytes-IsReadAs remote our packet = record {
    kind = refl;
    flag_word = refl;
    id_word = refl;
    client = λ ip e n. given_lem remote our packet ip e n;
    ends = (
      le_bytes 4 rpc_proxy_req
          ++ (le_bytes 4 flags
              ++ (le_bytes 8 id
                  ++ (address_of remote c.remote ++ (address_of our c.our ++ extra_part)))),
      sym (
          assoc_six (le_bytes 4 rpc_proxy_req) (le_bytes 4 flags) (le_bytes 8 id)
            (address_of remote c.remote) (address_of our c.our) extra_part packet),
    );
  }

  -- All ids are written in the same number of bytes.
  pub length-query_bytes :
      (remote our : Option Bytes)
      → length (query_bytes st c flags id remote our [])
        ≡ length (query_bytes st c flags 0 remote our [])
  unfolding query_bytes le_bytes
  length-query_bytes remote our = refl
