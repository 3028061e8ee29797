-- ===== src/Externals/Create.antt =====
-- A new entry of the table of external connections of c-original/mtproto/mtproto-proxy.c leaves it well
-- formed.
use mtproxy.Prelude.{
  ℕ, ◌-◌, ◌/◌, ◌%◌, ◌^◌, ◌<◌, ◌≤◌, ◌≡◌, ◌≢◌, refl, sym, subst, Bool, true, false, none, List, [],
  ◌∷◌, ◌⊎◌, inl, inr, ◌==◌, if◌then◌else◌, arith, Bool-cases,
}
use mtproxy.Prelude.Run.{out_of_fuel, Returns, returns, Returns-bind, Returns-assert, Returns-if}
use mtproxy.Externals.Rings.{Ring, max_connections, ext_connection_head, conn_lru}
use mtproxy.Externals.Entries.{
  Entries, ext_conn_table_size, ext_conn_hash, find_connection, next_out_conn_id, pick_slot,
  new_connection,
}
use mtproxy.Externals.Slots.{
  HasFree, IsSlot, pick_slot-IsSlot, next_out_conn_id-slot, next_out_conn_id_grows,
}
use mtproxy.Externals.Joins.{IsJoined, join_in_ring-IsJoined}
use mtproxy.Externals.Insert.{new_entry, with_entry, own, slots, index, rings}
use mtproxy.Externals.Shape.{Live, Free, IsEntries}
use mtproxy.Externals.Untrack.{IsIdle, zero_ext-IsIdle, clear-IsCounted}

-- The table u is t with the entry cur.
pub record IsCreated (space : ℕ) (t : Entries) (cur in_fd in_gen in_conn_id : ℕ) (u : Entries)
    : Type 0 where
  pub entries : IsEntries space u
  pub live : Live u cur
  pub is_new : u.conns cur ≡ new_entry in_fd in_gen in_conn_id (u.conns cur).out_conn_id
  pub fresh_id :
      t.out_ids ((u.conns cur).out_conn_id % ext_conn_table_size) < (u.conns cur).out_conn_id
  pub others : (a : ℕ) → a ≢ cur → u.conns a ≡ t.conns a
  pub ids_grow : (s : ℕ) → t.out_ids s ≤ u.out_ids s
  pub same_out_ring : (a : ℕ) → u.out_ring.next a ≡ t.out_ring.next a

-- The draws that a search for a slot looks at.
abbrev pub tries : ℕ → ℕ → List ℕ → List ℕ
tries in_fd in_conn_id draws = if in_conn_id == 0 then in_fd ∷ draws else draws

-- There is room for an entry of the client: none has its key or its ring, and no id wraps around.
pub record HasRoom (space : ℕ) (t : Entries) (cur in_fd in_conn_id : ℕ) (draws : List ℕ)
    : Type 0 where
  pub heap : (conn_lru < cur) × (cur < space)
  pub free : Free t cur
  pub low : in_fd < max_connections
  pub room : t.ext_connections < ext_conn_table_size / 2
  pub ids : (s : ℕ) → t.out_ids s < 2 ^ 64 - ext_conn_table_size
  pub unknown :
      find_connection t.conns (t.chains (ext_conn_hash in_fd in_conn_id)) in_fd in_conn_id ≡ none
  pub alone :
      (t.in_ring.next (ext_connection_head in_fd) ≡ 0)
      ⊎ (t.in_ring.next (ext_connection_head in_fd) ≡ ext_connection_head in_fd)
  pub hits : HasFree t.out_refs (tries in_fd in_conn_id draws)

drawn :
    {out_refs : ℕ → ℕ} (draws : List ℕ)
    → HasFree out_refs draws
    → Returns
        (IsSlot out_refs)
        (elim draws [ [] ↦ out_of_fuel | draw ∷ more ↦ pick_slot out_refs draw more ])
drawn [] free = absurd free
drawn {out_refs} (draw ∷ more) free = pick_slot-IsSlot out_refs draw more free

picked :
    (out_refs : ℕ → ℕ) (in_fd in_conn_id : ℕ) (draws : List ℕ)
    → HasFree out_refs (tries in_fd in_conn_id draws)
    → Returns (IsSlot out_refs) (
        if in_conn_id == 0
        then pick_slot out_refs in_fd draws
        else (elim draws [ [] ↦ out_of_fuel | draw ∷ more ↦ pick_slot out_refs draw more ]))
picked out_refs in_fd in_conn_id draws free =
    let tried : (b : Bool)
        → in_conn_id == 0 ≡ b
        → HasFree out_refs (if b then in_fd ∷ draws else draws) =
      λ b e. subst (λ x. HasFree out_refs (if x then in_fd ∷ draws else draws)) e free in
    Returns-if (in_conn_id == 0) _ _ (λ z. pick_slot-IsSlot out_refs in_fd draws (tried true z))
      (λ n. drawn draws (tried false n))

created :
    (space : ℕ) (t : Entries) (h : IsEntries space t) (cur in_fd in_gen in_conn_id : ℕ)
    (draws : List ℕ)
    → HasRoom space t cur in_fd in_conn_id draws
    → (slot : ℕ) (ring : Ring) → IsSlot t.out_refs slot
    → IsJoined t.in_ring in_fd cur ring
    → IsCreated space t cur in_fd in_gen in_conn_id
        (with_entry t cur in_fd in_gen in_conn_id slot ring)
created space t h cur in_fd in_gen in_conn_id draws k slot ring open_slot joined =
    let grows = next_out_conn_id_grows (t.out_ids slot) slot open_slot.0 (k.ids slot) in
    let real : next_out_conn_id (t.out_ids slot) slot ≢ 0 = λ e. omega (arith, grows, e) in
    let mine =
      own space t h cur k.free k.heap.0 in_fd in_gen in_conn_id slot ring k.unknown open_slot
        real in
    record {
      entries = record {
        heap = λ a l. elim (Bool-cases (a == cur)) [
          | inl e ↦ ground (arith, e, k.heap)
          | inr n ↦ h.heap a (ground (arith, n, l))
        ];
        indexed =
            index space t h cur k.free k.heap.0 in_fd in_gen in_conn_id slot ring k.unknown
              open_slot real;
        slotted =
            slots space t h cur k.free k.heap.0 in_fd in_gen in_conn_id slot ring k.unknown
              open_slot real;
        ringed =
            rings space t h cur k.free k.heap.0 in_fd in_gen in_conn_id slot ring k.unknown
              open_slot real k.low joined;
        counted =
            clear-IsCounted space t.pool cur
              (subst IsIdle (sym (h.blank cur k.free)) zero_ext-IsIdle) h.counted;
        blank = λ a f. elim (Bool-cases (a == cur)) [
          | inl e ↦ ground (arith, e)
          | inr n ↦ ground (arith, n, h.blank a (ground (arith, n, f)))
        ];
      };
      live = subst (λ c. c.out_conn_id ≢ 0) (sym mine) real;
      is_new = subst (λ c. c ≡ new_entry in_fd in_gen in_conn_id c.out_conn_id) (sym mine) refl;
      fresh_id =
          subst (λ c. t.out_ids (c.out_conn_id % ext_conn_table_size) < c.out_conn_id) (sym mine)
            (subst (λ s. t.out_ids s < next_out_conn_id (t.out_ids slot) slot)
              (sym (next_out_conn_id-slot (t.out_ids slot) slot open_slot.0)) grows);
      others = λ a n. ground (arith, n);
      ids_grow = λ s. ground (arith, grows);
      same_out_ring = λ a. refl;
    }

pub new_connection-IsCreated :
    (space : ℕ) (t : Entries) (cur in_fd in_gen in_conn_id : ℕ) (draws : List ℕ)
    → IsEntries space t
    → HasRoom space t cur in_fd in_conn_id draws
    → Returns
        (IsCreated space t cur in_fd in_gen in_conn_id)
        (new_connection draws cur t in_fd in_gen in_conn_id)
unfolding new_connection
new_connection-IsCreated space t cur in_fd in_gen in_conn_id draws h k =
    Returns-assert _ (ground (arith, k.room)) (
      Returns-assert _ (ground (arith, k.low)) (
        Returns-bind
          (join_in_ring-IsJoined t.in_ring in_fd cur h.ringed.in_ring k.heap.0 k.low
            (h.ringed.loose cur k.heap.0 k.free).0 k.alone)
          (λ ring joined.
            Returns-bind (picked t.out_refs in_fd in_conn_id draws k.hits) (λ slot open_slot.
              let grows = next_out_conn_id_grows (t.out_ids slot) slot open_slot.0 (k.ids slot) in
              let real : next_out_conn_id (t.out_ids slot) slot ≢ 0 =
                λ e. omega (arith, grows, e) in
              Returns-assert _ (ground (arith, real)) (
                returns (
                  created space t h cur in_fd in_gen in_conn_id draws k slot ring open_slot
                    joined))))))
