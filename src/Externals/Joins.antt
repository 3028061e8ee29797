-- ===== src/Externals/Joins.antt =====
-- How a new entry of c-original/mtproto/mtproto-proxy.c joins the ring of its client.
use mtproxy.Prelude.{ℕ, ◌<◌, ◌≡◌, ◌≢◌, refl, ◌∙◌, ◌⊎◌, ◌==◌, if◌then◌else◌, arith, by_test}
use mtproxy.Prelude.Run.{Returns, returns, Returns-map, Returns-assert, Returns-if}
use mtproxy.Externals.Rings.{Ring, put_at, max_connections, ext_connection_head, conn_lru}
use mtproxy.Externals.RingLaws.{IsRing, append_node-IsAppended}
use mtproxy.Externals.Entries.{join_in_ring}

-- What the ring of the client in_fd becomes: the new entry alone, and it is in no ring if in_fd is 0.
pub record IsJoined (r : Ring) (in_fd cur : ℕ) (s : Ring) : Type 0 where
  pub ring : IsRing s
  pub outside : in_fd ≡ 0 → s.next cur ≡ 0
  pub inside :
      in_fd ≢ 0
      → (s.next cur ≡ ext_connection_head in_fd) × (s.next (ext_connection_head in_fd) ≡ cur)
  pub others :
      (a : ℕ) → a ≢ cur → (in_fd ≡ 0) ⊎ (a ≢ ext_connection_head in_fd) → s.next a ≡ r.next a

-- The ring with its head linked to itself.
abbrev headed : Ring → ℕ → Ring
headed r head =
    if r.next head == 0
    then record { next = put_at r.next head head; prev = put_at r.prev head head }
    else r

record IsHeaded (r : Ring) (head : ℕ) (s : Ring) : Type 0 where
  ring : IsRing s
  alone : s.next head ≡ head
  others : (a : ℕ) → a ≢ head → s.next a ≡ r.next a

headed-IsHeaded :
    (r : Ring) (head : ℕ)
    → IsRing r
    → head ≢ 0
    → (r.next head ≡ 0) ⊎ (r.next head ≡ head)
    → IsHeaded r head (headed r head)
headed-IsHeaded r head h real empty =
    by_test (IsHeaded r head) (r.next head == 0)
      (λ z. record {
        ring = record {
          forth = λ a n. ground (arith, z, n, real, h.forth a, h.both head, h.null);
          back = λ a n. ground (arith, z, n, real, h.back a, h.both head, h.both 0, h.null);
          both = λ a. ground (arith, real, h.both a);
          null = ground (arith, real, h.null);
        };
        alone = ground arith;
        others = λ a n. ground (arith, n);
      })
      (λ n. record { ring = h; alone = ground (arith, n, empty); others = λ a o. refl })

pub join_in_ring-IsJoined :
    (r : Ring) (in_fd cur : ℕ)
    → IsRing r
    → conn_lru < cur
    → in_fd < max_connections
    → r.next cur ≡ 0
    → (r.next (ext_connection_head in_fd) ≡ 0)
      ⊎ (r.next (ext_connection_head in_fd) ≡ ext_connection_head in_fd)
    → Returns (IsJoined r in_fd cur) (join_in_ring r in_fd cur)
unfolding join_in_ring
join_in_ring-IsJoined r in_fd cur h above low loose empty =
    let head = ext_connection_head in_fd in
    let s = headed r head in
    let k = headed-IsHeaded r head h (omega arith) empty in
    let q : cur ≢ 0 = omega (arith, above) in
    let apart : cur ≢ head = omega (arith, above, low) in
    Returns-if (in_fd == 0) _ _
      (λ z. returns (record {
        ring = h;
        outside = λ e. loose;
        inside = λ n. ground (arith, z, n);
        others = λ a n o. refl;
      }))
      (λ n. Returns-assert _ (ground (arith, k.alone)) (
        Returns-map
          (append_node-IsAppended s head cur k.ring (omega arith) q (k.others cur apart ∙ loose)
            (ground (arith, k.alone)))
          (λ v w. record {
            ring = w.ring;
            outside = λ z. ground (arith, n, z);
            inside = λ i. (w.inside, w.next_before head (ground (arith, apart)) k.alone);
            others = λ a o f.
                let far : a ≢ head = ground (arith, n, f) in
                w.next_other a o
                  (λ e. ground (arith, far, e, k.alone, k.ring.forth a, k.ring.forth head))
                ∙ k.others a far;
          })))
