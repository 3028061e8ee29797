-- ===== src/Externals/History.antt =====
-- What happens to an id of the table of external connections in c-original/mtproto/mtproto-proxy.c while
-- entries come and go.
use mtproxy.Prelude.{
  ℕ, ◌/◌, ◌%◌, ◌<◌, ◌≤◌, ◌≡◌, ◌≢◌, refl, ◌∙◌, sym, ap, subst, Bool, true, Option, none, some, List,
  ◌⊎◌, inl, inr, ◌==◌, arith, Bool-cases,
}
use mtproxy.Prelude.Run.{ok, Returns, Returns-ok, Returns-map}
use mtproxy.Externals.Entries.{
  Entries, ext_conn_table_size, find_ext_connection_by_out_conn_id, Connection, is_peer,
  create_ext_connection, Notice, remove_ext_connection,
}
use mtproxy.Externals.Shape.{Live, IsEntries}
use mtproxy.Externals.Lookup.{IsOnly, find_ext_connection_by_out_conn_id_lem}
use mtproxy.Externals.Create.{HasRoom}
use mtproxy.Externals.Delete.{IsDeleted}
use mtproxy.Externals.Remove.{remove_ext_connection-IsDeleted}
use mtproxy.Externals.Open.{IsOpen, IsOpened, create_ext_connection-IsOpened}

nothing :
    (t : Entries) {id : ℕ} (found : Option ℕ)
    → IsOnly t (λ a. (t.conns a).out_conn_id ≡ id) found
    → ((a : ℕ) → Live t a → (t.conns a).out_conn_id ≢ id)
    → found ≡ none
nothing t none only unused = refl
nothing t (some a) only unused = absurd (unused a only.0 only.1)

-- What is live without the removed entry was live with it.
still_unused :
    {space : ℕ} {t u : Entries} {ex id : ℕ}
    → IsDeleted space t ex u
    → (a : ℕ) → Live u a
    → (Live t a → (t.conns a).out_conn_id ≢ id)
    → (u.conns a).out_conn_id ≢ id
still_unused {t} {u} {ex} {id} r a l before = elim (Bool-cases (a == ex)) [
  | inl s ↦
      let here : ex ≡ a = ground (arith, s) in
      absurd (l (subst (λ z. (u.conns z).out_conn_id ≡ 0) here r.gone))
  | inr n ↦
      let same = r.others a (ground (arith, n)) in
      subst (λ c. c.out_conn_id ≢ id) (sym same) (before (subst (λ c. c.out_conn_id ≢ 0) same l))
]

module _ (space : ℕ) (is_open : ℕ → ℕ → Bool) where
  -- An entry is created where there is room for it, or a live one is removed.
  pub data Step (t : Entries) : Entries → Type 0 where
    creates :
        {u : Entries} (draws : List ℕ) (fresh : ℕ) (ci : Connection) (in_conn_id : ℕ)
        (co : Option Connection) (auth_key_id ex : ℕ)
        → HasRoom space t fresh ci.fd in_conn_id draws
        → IsOpen t co
        → is_peer ci co ≡ true
        → create_ext_connection draws fresh t ci in_conn_id co auth_key_id ≡ ok (u, ex)
        → Step t u
    removes :
        {u : Entries} (ex send_notifications : ℕ) (sent : List Notice)
        → Live t ex
        → ((t.conns ex).in_conn_id ≡ 0) ⊎ (send_notifications / 2 % 2 ≡ 0)
        → remove_ext_connection is_open t ex send_notifications ≡ ok (u, sent)
        → Step t u

  pub data Steps (t : Entries) : Entries → Type 0 where
    stop : Steps t t
    more : {u v : Entries} → Steps t u → Step u v → Steps t v

  -- The id was given out, and no live entry has it.
  pub record IsDead (id : ℕ) (t : Entries) : Type 0 where
    pub entries : IsEntries space t
    pub given : id ≤ t.out_ids (id % ext_conn_table_size)
    pub unused : (a : ℕ) → Live t a → (t.conns a).out_conn_id ≢ id

  Step-IsDead : (id : ℕ) {t u : Entries} → Step t u → IsDead id t → IsDead id u
  Step-IsDead id {t} {u} (creates draws fresh ci in_conn_id co auth_key_id ex room way peer e) d =
      let o =
        Returns-ok (u, ex)
          (subst (Returns (IsOpened space t ci co in_conn_id auth_key_id fresh)) e (
            create_ext_connection-IsOpened space t d.entries fresh draws ci in_conn_id co
              auth_key_id room way peer)) in
      record {
        entries = o.entries;
        given = omega (arith, d.given, o.ids_grow (id % ext_conn_table_size));
        unused = λ a l. elim (Bool-cases (a == fresh)) [
          | inl s ↦ λ q.
              let here : a ≡ fresh = ground (arith, s) in
              let own : (u.conns fresh).out_conn_id ≡ id =
                subst (λ z. (u.conns z).out_conn_id ≡ id) here q in
              let late = subst (λ x. t.out_ids (x % ext_conn_table_size) < x) own o.fresh_id in
              omega (arith, late, d.given)
          | inr n ↦
              let same = o.others a (ground (arith, n)) in
              subst (λ c. c.out_conn_id ≢ id) (sym same)
                (d.unused a (subst (λ c. c.out_conn_id ≢ 0) same l))
        ];
      }
  Step-IsDead id {t} {u} (removes ex send_notifications sent live quiet e) d =
      let r =
        Returns-ok (u, sent)
          (subst (Returns (λ r. IsDeleted space t ex r.0)) e (
            remove_ext_connection-IsDeleted space t d.entries ex live is_open send_notifications
              quiet)) in
      record {
        entries = r.entries;
        given = omega (arith, d.given, r.same_ids (id % ext_conn_table_size));
        unused = λ a l. still_unused r a l (d.unused a);
      }

  Steps-IsDead : (id : ℕ) {t u : Entries} → Steps t u → IsDead id t → IsDead id u
  Steps-IsDead id stop d = d
  Steps-IsDead id (more s last) d = Step-IsDead id last (Steps-IsDead id s d)

  -- Once an entry is removed, its id is dead.
  removed-IsDead :
      (t : Entries) (ex : ℕ) {u : Entries}
      → IsEntries space t
      → Live t ex
      → IsDeleted space t ex u
      → IsDead (t.conns ex).out_conn_id u
  removed-IsDead t ex {u} h live r =
      let id = (t.conns ex).out_conn_id in
      let slot = id % ext_conn_table_size in
      let mine = h.slotted.slot ex live in
      let owner = h.slotted.owner slot (λ e. ground (arith, e, mine, h.heap ex live)) in
      record {
        entries = r.entries;
        given = omega (arith, r.same_ids slot, owner.1, ap (λ z. (t.conns z).out_conn_id) mine);
        unused = λ a l. elim (Bool-cases (a == ex)) [
          | inl s ↦
              let here : ex ≡ a = ground (arith, s) in
              absurd (l (subst (λ z. (u.conns z).out_conn_id ≡ 0) here r.gone))
          | inr n ↦ λ e.
              let o : a ≢ ex = ground (arith, n) in
              let same = r.others a o in
              let live_a = subst (λ c. c.out_conn_id ≢ 0) same l in
              let was = subst (λ c. c.out_conn_id ≡ id) same e in
              let slot_a =
                subst (λ x. t.out_refs (x % ext_conn_table_size) ≡ a) was
                  (h.slotted.slot a live_a) in
              o (sym slot_a ∙ mine)
        ];
      }

  -- After an entry is removed, and whatever entries are created and removed then, the lookup by its id finds nothing:
  -- an answer of a server to a client that has gone never goes to another one.
  pub removed_id_lem :
      (t : Entries) (ex send_notifications : ℕ) (sent : List Notice) (u v : Entries)
      → IsEntries space t
      → Live t ex
      → ((t.conns ex).in_conn_id ≡ 0) ⊎ (send_notifications / 2 % 2 ≡ 0)
      → remove_ext_connection is_open t ex send_notifications ≡ ok (u, sent)
      → Steps u v
      → Returns
          (λ found. found ≡ none)
          (find_ext_connection_by_out_conn_id v (t.conns ex).out_conn_id)
  removed_id_lem t ex send_notifications sent u v h live quiet e s =
      let r =
        Returns-ok (u, sent)
          (subst (Returns (λ r. IsDeleted space t ex r.0)) e
            (remove_ext_connection-IsDeleted space t h ex live is_open send_notifications quiet)) in
      let d = Steps-IsDead (t.conns ex).out_conn_id s (removed-IsDead t ex h live r) in
      Returns-map
        (find_ext_connection_by_out_conn_id_lem space v d.entries (t.conns ex).out_conn_id)
        (λ found only. nothing v found only d.unused)
