-- ===== src/Externals/RingLaws.antt =====
-- The rings of c-original/mtproto/mtproto-proxy.c stay rings: next and prev lead back and forth.
use mtproxy.Prelude.{ℕ, ◌==◌, ◌≡◌, ◌≢◌, ◌↔◌, refl, arith}
use mtproxy.Prelude.Run.{Returns, returns, Returns-if, Returns-assert, Returns-bind}
use mtproxy.Externals.Rings.{
  Ring, put_at, conn_lru, unlink_node, append_node, lru_delete_ext_conn, lru_insert_ext_conn,
}

pub record IsRing (r : Ring) : Type 0 where
  pub forth : (a : ℕ) → r.next a ≢ 0 → r.prev (r.next a) ≡ a
  pub back : (a : ℕ) → r.prev a ≢ 0 → r.next (r.prev a) ≡ a
  pub both : (a : ℕ) → (r.next a ≡ 0) ↔ (r.prev a ≡ 0)
  pub null : r.next 0 ≡ 0

-- The ring without a.
pub record IsUnlinked (r : Ring) (a : ℕ) (s : Ring) : Type 0 where
  pub ring : IsRing s
  pub out : s.next a ≡ 0
  pub next_before : (b : ℕ) → b ≢ a → r.next b ≡ a → s.next b ≡ r.next a
  pub next_other : (b : ℕ) → b ≢ a → r.next b ≢ a → s.next b ≡ r.next b
  pub stays : (b : ℕ) → b ≢ a → r.next b ≢ 0 → s.next b ≢ 0

abbrev dropped : Ring → ℕ → Ring
dropped r a =
    let prev = put_at r.prev (r.next a) (r.prev a) in
    record { next = put_at (put_at r.next (prev a) (r.next a)) a 0; prev = put_at prev a 0 }

module _ (r : Ring) (h : IsRing r) (a : ℕ) (linked : r.next a ≢ 0) where
  before : r.prev a ≢ 0
  before = ground (arith, linked, h.both a)

  dropped-IsRing : IsRing (dropped r a)
  dropped-IsRing = record {
    forth = λ x n.
        ground
          (arith, n, linked, before, h.forth x, h.forth a, h.back x, h.back a, h.both x, h.both a);
    back = λ x n.
        ground
          (arith, n, linked, before, h.forth x, h.forth a, h.back x, h.back a, h.both x, h.both a);
    both = λ x.
        ground
          (arith, linked, before, h.forth x, h.forth a, h.back x, h.back a, h.both x, h.both a);
    null = ground (arith, linked, before, h.null, h.back a, h.both 0, h.both a);
  }

  dropped-IsUnlinked : IsUnlinked r a (dropped r a)
  dropped-IsUnlinked = record {
    ring = dropped-IsRing;
    out = ground arith;
    next_before = λ b n e. ground (arith, n, e, before, linked, h.forth b, h.forth a);
    next_other = λ b n e. ground (arith, n, e, before, linked, h.forth b, h.back a);
    stays = λ b n e. ground (arith, n, e, linked, before);
  }

pub unlink_node-IsUnlinked :
    (r : Ring) (a : ℕ) → IsRing r → a ≢ 0 → Returns (IsUnlinked r a) (unlink_node r a)
unfolding unlink_node
unlink_node-IsUnlinked r a h real =
    Returns-if (r.next a == 0) _ _
      (λ e. returns (record {
        ring = h;
        out = ground (arith, e);
        next_before = λ b n q. ground (arith, e, q, n, h.forth b, h.both a, h.null);
        next_other = λ b n q. refl;
        stays = λ b n q. q;
      }))
      (λ n.
        let linked : r.next a ≢ 0 = ground (arith, n) in
        Returns-assert _ (ground (arith, before r h a linked, h.back a, h.forth a))
          (returns (dropped-IsUnlinked r h a linked)))

-- An entry behind the last one of a ring.
pub record IsAppended (r : Ring) (head a : ℕ) (s : Ring) : Type 0 where
  pub ring : IsRing s
  pub inside : s.next a ≡ head
  pub next_before : (b : ℕ) → b ≢ a → r.next b ≡ head → s.next b ≡ a
  pub next_other : (b : ℕ) → b ≢ a → r.next b ≢ head → s.next b ≡ r.next b
  pub stays : (b : ℕ) → r.next b ≢ 0 → s.next b ≢ 0

pub append_node-IsAppended :
    (r : Ring) (head a : ℕ)
    → IsRing r
    → head ≢ 0
    → a ≢ 0
    → r.next a ≡ 0
    → r.next head ≢ 0
    → Returns (IsAppended r head a) (append_node r head a)
unfolding append_node
append_node-IsAppended r head a h p q free linked =
    let apart : a ≢ head = ground (arith, free, linked) in
    let last : r.prev head ≢ 0 = ground (arith, h.both head, linked) in
    let not_last : r.prev head ≢ a = ground (arith, h.back head, last, free, p) in
    Returns-assert _ (ground (arith, apart, last)) (
      returns (record {
        ring = record {
          forth = λ x n. ground (
            arith,
            n,
            apart,
            last,
            not_last,
            free,
            q,
            h.forth x,
            h.forth a,
            h.back x,
            h.back head,
            h.both x,
            h.both a,
          );
          back = λ x n. ground (
            arith,
            n,
            apart,
            last,
            not_last,
            free,
            q,
            h.forth x,
            h.forth a,
            h.back x,
            h.back head,
            h.both x,
            h.both a,
          );
          both = λ x. ground (
            arith,
            apart,
            last,
            not_last,
            free,
            p,
            q,
            h.forth x,
            h.forth a,
            h.back x,
            h.back head,
            h.both x,
            h.both a,
          );
          null = ground (arith, apart, last, not_last, free, p, q, h.null, h.back head, h.both 0);
        };
        inside = ground (arith, not_last);
        next_before = λ b n e. ground (arith, n, e, apart, last, h.forth b, p);
        next_other = λ b n e. ground (arith, n, e, apart, last, h.back head);
        stays = λ b e. ground (arith, e, p, q, apart, last);
      }))

pub lru_delete_ext_conn-IsUnlinked :
    (r : Ring) (a : ℕ) → IsRing r → a ≢ 0 → Returns (IsUnlinked r a) (lru_delete_ext_conn r a)
unfolding lru_delete_ext_conn
lru_delete_ext_conn-IsUnlinked r a h real = Returns-bind (unlink_node-IsUnlinked r a h real) (λ s u.
    returns (record {
      ring = record {
        forth = λ x n. ground (arith, n, u.ring.forth x, u.out, u.ring.both a, u.ring.both x);
        back = λ x n. ground (arith, n, u.ring.back x, u.out, u.ring.both a, u.ring.both x);
        both = λ x. ground (arith, u.out, u.ring.both a, u.ring.both x);
        null = ground (arith, u.ring.null);
      };
      out = ground arith;
      next_before = λ b n e. ground (arith, n, u.next_before b n e);
      next_other = λ b n e. ground (arith, n, u.next_other b n e);
      stays = λ b n e. ground (arith, n, u.stays b n e);
    }))

-- An entry is put_at behind the last one of the list of connections, whether it stood there or not: the list stays a
-- ring, in which the entry is the last one, and all others keep their order.
pub lru_insert_ext_conn-IsAppended :
    (r : Ring) (a : ℕ)
    → IsRing r
    → a ≢ 0
    → a ≢ conn_lru
    → r.next conn_lru ≢ 0
    → Returns
        (λ s. (q : Ring) × (IsUnlinked r a q) × (IsAppended q conn_lru a s))
        (lru_insert_ext_conn r a)
unfolding lru_insert_ext_conn
lru_insert_ext_conn-IsAppended r a h z apart linked =
    Returns-bind (lru_delete_ext_conn-IsUnlinked r a h z) (λ q u.
      let stays : q.next conn_lru ≢ 0 = ground (
        arith,
        apart,
        linked,
        u.next_before conn_lru,
        u.next_other conn_lru,
        h.forth conn_lru,
        h.both a,
        h.back a,
        h.forth a,
      ) in
      let last : q.prev conn_lru ≢ 0 = ground (arith, u.ring.both conn_lru, stays) in
      let not_last : q.prev conn_lru ≢ a = ground (arith, u.ring.back conn_lru, last, u.out) in
      let w = u.ring in
      Returns-assert _ (ground (arith, apart, last)) (
        returns (
          q,
          u,
          record {
            ring = record {
              forth = λ x n. ground (
                arith,
                n,
                apart,
                last,
                not_last,
                u.out,
                z,
                w.forth x,
                w.forth a,
                w.back x,
                w.back conn_lru,
                w.both x,
                w.both a,
              );
              back = λ x n. ground (
                arith,
                n,
                apart,
                last,
                not_last,
                u.out,
                z,
                w.forth x,
                w.forth a,
                w.back x,
                w.back conn_lru,
                w.both x,
                w.both a,
              );
              both = λ x. ground (
                arith,
                apart,
                last,
                not_last,
                u.out,
                z,
                w.forth x,
                w.forth a,
                w.back x,
                w.back conn_lru,
                w.both x,
                w.both a,
              );
              null =
                  ground
                    (arith, apart, last, not_last, u.out, z, w.null, w.back conn_lru, w.both 0);
            };
            inside = ground (arith, apart, not_last);
            next_before = λ b n e. ground (arith, n, e, apart, last, w.forth b);
            next_other = λ b n e. ground (arith, n, e, apart, last, w.back conn_lru);
            stays = λ b e. ground (arith, e, z, apart, last);
          },
        )))
