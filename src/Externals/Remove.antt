-- ===== src/Externals/Remove.antt =====
-- remove_ext_connection of c-original/mtproto/mtproto-proxy.c, and mode 1 of the lookup that it calls.
use mtproxy.Prelude.{
  ℕ, ◌/◌, ◌%◌, ◌≡◌, refl, Bool, true, false, Option, none, some, List, [], ◌⊎◌, ◌==◌, ◌&&◌, not,
  arith,
}
use mtproxy.Prelude.Run.{Returns, returns, Returns-bind, Returns-assert, Returns-if}
use mtproxy.Externals.Entries.{
  ExtConnection, Entries, deleted, get_ext_connection_by_in_conn_id, notices, remove_ext_connection,
}
use mtproxy.Externals.Shape.{Live, IsEntries}
use mtproxy.Externals.Lookup.{IsOnly, find_ext_connection_by_out_conn_id_lem}
use mtproxy.Externals.Delete.{IsDeleted, delete_connection-IsDeleted}

module _ (space : ℕ) (t : Entries) (h : IsEntries space t) (ex : ℕ) (live : Live t ex) where
  abbrev c : ExtConnection
  c = t.conns ex

  pub get_ext_connection-IsDeleted :
      (draws : List ℕ) (fresh gen : ℕ)
      → Returns
          (λ r. IsDeleted space t ex r.0 × (r.1 ≡ deleted))
          (get_ext_connection_by_in_conn_id draws fresh t c.in_fd gen c.in_conn_id 1)
  unfolding get_ext_connection_by_in_conn_id
  get_ext_connection-IsDeleted draws fresh gen =
      rw (get_ext_connection_by_in_conn_id, h.indexed.found ex live)
        (Returns-assert _ (ground (arith, live))
          (Returns-bind (delete_connection-IsDeleted space t ex h live) (λ u d. returns (d, refl))))

  is_found :
      (found : Option ℕ)
      → IsOnly t (λ a. (t.conns a).out_conn_id ≡ c.out_conn_id) found
      → (elim found [ none ↦ false | some a ↦ a == ex ]) ≡ true
  is_found none only = absurd (only ex live refl)
  is_found (some a) only = ground (arith, only.2 ex live refl)

  sent_lem :
      (is_open : ℕ → ℕ → Bool) (send_notifications : ℕ)
      → (c.in_conn_id ≡ 0) ⊎ (send_notifications / 2 % 2 ≡ 0)
      → Returns (λ sent. Unit {0}) (notices is_open c send_notifications)
  unfolding notices
  sent_lem is_open send_notifications quiet =
      Returns-if (not (c.in_fd == 0) && send_notifications / 2 % 2 == 1) _ _
        (λ y. Returns-assert _ (ground (arith, quiet, y)) (returns tt)) (λ n. returns tt)

  -- The removal of a live entry, whose in_conn_id is 0 if the client is to be told, fails no assertion: the table stays
  -- well formed, the entry is free, its secrets count it no more, and the other entries stay as they were.
  pub remove_ext_connection-IsDeleted :
      (is_open : ℕ → ℕ → Bool) (send_notifications : ℕ)
      → (c.in_conn_id ≡ 0) ⊎ (send_notifications / 2 % 2 ≡ 0)
      → Returns
          (λ r. IsDeleted space t ex r.0)
          (remove_ext_connection is_open t ex send_notifications)
  unfolding remove_ext_connection
  remove_ext_connection-IsDeleted is_open send_notifications quiet =
      let r = h.ringed in
      Returns-assert _ (ground (arith, h.heap ex live)) (
        Returns-assert _ (ground (arith, live)) (
          Returns-bind (find_ext_connection_by_out_conn_id_lem space t h c.out_conn_id)
            (λ found only. Returns-assert _ (is_found found only) (
              Returns-assert _ (ground (arith, r.out_linked ex live)) (
                Returns-assert _ (ground (arith, r.in_linked ex live)) (
                  Returns-bind (sent_lem is_open send_notifications quiet) (λ sent _.
                    Returns-bind (get_ext_connection-IsDeleted [] 0 c.in_gen)
                      (λ q (d, e). Returns-assert _ (ground (arith, e)) (returns d)))))))))
