-- ===== src/Externals/Delete.antt =====
-- The removal of an entry from the table of external connections of c-original/mtproto/mtproto-proxy.c.
use mtproxy.Prelude.{
  ℕ, ◌-◌, ◌%◌, ◌≤◌, ◌≡◌, ◌≢◌, refl, ◌∙◌, sym, ap, subst, some, ◌⊎◌, inl, inr, ◌==◌, arith,
  Bool-cases, by_test,
}
use mtproxy.Prelude.Run.{Returns, returns, Returns-bind, Returns-assert}
use mtproxy.Secrets.Pool.{Pool}
use mtproxy.Secrets.Sums.{total_update}
use mtproxy.Externals.Rings.{Ring, put_at, ext_connection_head}
use mtproxy.Externals.RingLaws.{IsUnlinked, unlink_node-IsUnlinked, lru_delete_ext_conn-IsUnlinked}
use mtproxy.Externals.Entries.{
  is_connection, Entries, ext_conn_table_size, find_connection, unlink_connection, zero_connection,
  zero_ext, delete_connection,
}
use mtproxy.Externals.ChainLaws.{
  none≢some, other_key, find_connection-Member, Member, IsChain, find_connection-agree,
  IsChain-agree, find-unlink_same, find-unlink_other, unlink_connection-Member,
  unlink_connection-IsChain,
}
use mtproxy.Externals.Shape.{Live, Free, bucket, taken, IsEntries, IsIndexed, IsSlotted, IsRinged}
use mtproxy.Externals.Lookup.{same_key}
use mtproxy.Externals.Untrack.{untrack-IsUntracked}

-- The table without the entry cur, with the rings and the counters of secrets that are left.
abbrev without : Entries → ℕ → Pool → Ring → Ring → Ring → Entries
without t cur pool i o l =
    let c = t.conns cur in
    let h = bucket c in
    record t {
      pool = record pool { exts = put_at pool.exts cur zero_ext };
      in_ring = i;
      out_ring = o;
      lru = l;
      chains = put_at t.chains h (unlink_connection t.conns (t.chains h) c.in_fd c.in_conn_id);
      out_refs = put_at t.out_refs (c.out_conn_id % ext_conn_table_size) 0;
      conns = put_at t.conns cur zero_connection;
      ext_connections = t.ext_connections - 1;
    }

module _ (space : ℕ) (t : Entries) (h : IsEntries space t) (cur : ℕ) (live : Live t cur)
    (pool : Pool) (i o l : Ring) where
  kept : (a : ℕ) → a ≢ cur → (without t cur pool i o l).conns a ≡ t.conns a
  kept a o = ground (arith, o)

  survivor : (a : ℕ) → Live (without t cur pool i o l) a → (a ≢ cur) × Live t a
  survivor a l = ground (arith, l)

  slots : IsSlotted (without t cur pool i o l)
  slots =
      let id = (t.conns cur).out_conn_id in
      let s = id % ext_conn_table_size in
      record {
        slot = λ a l.
            let (o, live_a) = survivor a l in
            ground (arith, o, h.slotted.slot a live_a, h.slotted.slot cur live, kept a o);
        owner = λ x n.
            let far : x ≢ s = ground (arith, n) in
            let o = h.slotted.owner x (ground (arith, n, far)) in
            let ne : t.out_refs x ≢ cur =
              λ e. ground (arith, far, o, ap (λ z. (t.conns z).out_conn_id) e) in
            ground (arith, far, ne, o);
        count =
            let moved =
              total_update ext_conn_table_size s (taken t.out_refs) (taken (put_at t.out_refs s 0))
                (omega arith) (λ i p o. ground (arith, o)) in
            let full : taken t.out_refs s ≡ 1 =
              ground (arith, h.slotted.slot cur live, h.heap cur live) in
            let empty : taken (put_at t.out_refs s 0) s ≡ 0 = ground arith in
            omega (arith, moved, full, empty, h.slotted.count);
      }

  -- What a chain still holds.
  left :
      (b a : ℕ) → Member a ((without t cur pool i o l).chains b) → (a ≢ cur) × Member a (t.chains b)
  left b a =
      let c = t.conns cur in
      let x = bucket c in
      by_test (λ ys. Member a ys → (a ≢ cur) × Member a (t.chains b)) (b == x)
        (λ e m.
          let here : b ≡ x = ground (arith, e) in
          let shorter = unlink_connection t.conns (t.chains x) c.in_fd c.in_conn_id in
          let gone =
            find-unlink_same t.conns (t.chains x) c.in_fd c.in_conn_id (h.indexed.chain x) in
          let ring =
            unlink_connection-IsChain t.conns (t.chains x) c.in_fd c.in_conn_id
              (h.indexed.chain x) in
          (
            (λ same. none≢some (
                sym gone
                ∙ find_connection-Member t.conns shorter cur ring
                    (subst (λ z. Member z shorter) same m))),
            subst (λ z. Member a (t.chains z)) (sym here)
                (unlink_connection-Member t.conns (t.chains x) c.in_fd c.in_conn_id a m),
          ))
        (λ n m. ((λ same. ground (arith, n, same, h.indexed.member b a m)), m))

  key_differs :
      (a : ℕ)
      → Live t a
      → a ≢ cur
      → ((t.conns a).in_fd ≢ (t.conns cur).in_fd)
        ⊎ ((t.conns a).in_conn_id ≢ (t.conns cur).in_conn_id)
  key_differs a live_a o =
      let c = t.conns cur in
      elim (Bool-cases (is_connection (t.conns a) c.in_fd c.in_conn_id)) [
        | inr miss ↦ other_key (t.conns a) c.in_fd c.in_conn_id miss
        | inl hit ↦
            absurd
              (o (same_key space t h a cur live_a live (ground (arith, hit)) (ground (arith, hit))))
      ]

  index : IsIndexed (without t cur pool i o l)
  index =
      let c = t.conns cur in
      let x = bucket c in
      record {
        chain = λ b.
            IsChain-agree t.conns _ _ (λ a m. kept a (left b a m).0)
              (by_test (IsChain t.conns) (b == x)
                (λ e.
                  unlink_connection-IsChain t.conns (t.chains x) c.in_fd c.in_conn_id
                    (h.indexed.chain x))
                (λ n. h.indexed.chain b));
        member = λ b a m.
            let (o, m2) = left b a m in
            let (l, k) = h.indexed.member b a m2 in
            let same = kept a o in
            (subst (λ d. d.out_conn_id ≢ 0) (sym same) l, ap bucket same ∙ k);
        found = λ a m.
            let (ne, live_a) = survivor a m in
            let d = t.conns a in
            let chains = (without t cur pool i o l).chains in
            let still : find_connection t.conns (chains (bucket d)) d.in_fd d.in_conn_id ≡ some a =
              by_test (λ ys. find_connection t.conns ys d.in_fd d.in_conn_id ≡ some a)
                (bucket d == x)
                (λ e.
                  let here : bucket d ≡ x = ground (arith, e) in
                  find-unlink_other t.conns (t.chains x) c.in_fd c.in_conn_id d.in_fd d.in_conn_id
                    (key_differs a live_a ne)
                  ∙ subst (λ z. find_connection t.conns (t.chains z) d.in_fd d.in_conn_id ≡ some a)
                      here (h.indexed.found a live_a))
                (λ n. h.indexed.found a live_a) in
            subst
              (λ k.
                find_connection (without t cur pool i o l).conns (chains (bucket k)) k.in_fd
                  k.in_conn_id
                ≡ some a)
              (sym (kept a ne))
              (find_connection-agree t.conns (without t cur pool i o l).conns (chains (bucket d))
                  d.in_fd d.in_conn_id (λ b m. kept b (left (bucket d) b m).0)
                ∙ still);
      }

  module _ (hi : IsUnlinked t.in_ring cur i) (ho : IsUnlinked t.out_ring cur o)
      (hl : IsUnlinked t.lru cur l) where
    rings : IsRinged (without t cur pool i o l)
    rings =
        let r = h.ringed in
        let high = h.heap cur live in
        record {
          in_ring = hi.ring;
          out_ring = ho.ring;
          lru = hl.ring;
          in_linked = λ a m n.
              let (e, live_a) = survivor a m in
              ground (arith, e, kept a e, n, high, r.in_linked a live_a, hi.next_other a e);
          in_outside = λ a m z.
              let (e, live_a) = survivor a m in
              ground (arith, e, kept a e, z, high, r.in_outside a live_a, hi.next_other a e);
          in_owner = λ fd inside n m.
              let head = ext_connection_head fd in
              let apart : head ≢ cur = ground (arith, high, inside) in
              let free : t.in_ring.next head ≢ cur = λ e.
                let own =
                  r.in_owner fd inside (ground (arith, e, high)) (ground (arith, e, apart)) in
                let fd_cur : (t.conns cur).in_fd ≡ fd =
                  subst (λ z. (t.conns z).in_fd ≡ fd) e own.1 in
                ground (
                  arith,
                  n,
                  m,
                  hi.next_before head apart e,
                  fd_cur,
                  r.in_linked cur live,
                  r.in_outside cur live,
                ) in
              let same : i.next head ≡ t.in_ring.next head = hi.next_other head apart free in
              let own = r.in_owner fd inside (ground (arith, n, same)) (ground (arith, m, same)) in
              subst
                (λ z.
                  Live (without t cur pool i o l) z
                  × (((without t cur pool i o l).conns z).in_fd ≡ fd))
                (sym same)
                (subst (λ c. (c.out_conn_id ≢ 0) × (c.in_fd ≡ fd))
                  (sym (kept (t.in_ring.next head) free)) own);
          out_linked = λ a m n.
              let (e, live_a) = survivor a m in
              ground (arith, e, kept a e, n, r.out_linked a live_a, ho.stays a e);
          loose = λ a above free. elim (Bool-cases (a == cur)) [
            | inl e ↦ ground (arith, e, hi.out, ho.out, hl.out)
            | inr n ↦
                let d : a ≢ cur = ground (arith, n) in
                let was = r.loose a above (ground (arith, d, free)) in
                ground
                  (arith, d, was, high, hi.next_other a d, ho.next_other a d, hl.next_other a d)
          ];
        }

-- The table u is t without the entry cur.
pub record IsDeleted (space : ℕ) (t : Entries) (cur : ℕ) (u : Entries) : Type 0 where
  pub entries : IsEntries space u
  pub gone : Free u cur
  pub others : (a : ℕ) → a ≢ cur → u.conns a ≡ t.conns a
  pub same_ids : (s : ℕ) → u.out_ids s ≡ t.out_ids s
  pub slots_free : (s : ℕ) → t.out_refs s ≡ 0 → u.out_refs s ≡ 0
  pub fewer : u.ext_connections ≤ t.ext_connections
  pub out_stays : (a : ℕ) → a ≢ cur → t.out_ring.next a ≢ 0 → u.out_ring.next a ≢ 0

pub delete_connection-IsDeleted :
    (space : ℕ) (t : Entries) (cur : ℕ)
    → IsEntries space t
    → Live t cur
    → Returns (IsDeleted space t cur) (delete_connection t (bucket (t.conns cur)) cur)
unfolding delete_connection
delete_connection-IsDeleted space t cur h live =
    let (above, inside) = h.heap cur live in
    let real : cur ≢ 0 = omega (arith, above) in
    let slot = h.slotted.slot cur live in
    Returns-bind (untrack-IsUntracked space t.pool cur h.counted inside) (λ pool p.
      Returns-bind (unlink_node-IsUnlinked t.in_ring cur h.ringed.in_ring real) (λ i hi.
        Returns-bind (unlink_node-IsUnlinked t.out_ring cur h.ringed.out_ring real) (λ o ho.
          Returns-bind (lru_delete_ext_conn-IsUnlinked t.lru cur h.ringed.lru real) (λ l hl.
            Returns-assert _ (ground (arith, slot)) (
              Returns-assert _
                (ground (
                  arith,
                  slot,
                  real,
                  h.slotted.owner ((t.conns cur).out_conn_id % ext_conn_table_size),
                  ap (λ z. (t.conns z).out_conn_id) slot,
                ))
                (returns (record {
                  entries = record {
                    heap = λ a m. h.heap a (survivor space t h cur live pool i o l a m).1;
                    indexed = index space t h cur live pool i o l;
                    slotted = slots space t h cur live pool i o l;
                    ringed = rings space t h cur live pool i o l hi ho hl;
                    counted = p.counted;
                    blank = λ a f. elim (Bool-cases (a == cur)) [
                      | inl e ↦ ground (arith, e)
                      | inr n ↦
                          let d : a ≢ cur = ground (arith, n) in
                          ground (arith, d, h.blank a (ground (arith, d, f)), p.others a d)
                    ];
                  };
                  gone = ground arith;
                  others = λ a n. ground (arith, n);
                  same_ids = λ s. refl;
                  slots_free = λ s e. ground (arith, e);
                  fewer = omega arith;
                  out_stays = ho.stays;
                })))))))
