-- ===== src/Externals/Untrack.antt =====
-- What the removal of an entry of c-original/mtproto/mtproto-proxy.c does to the counters of secrets.
use mtproxy.Prelude.{
  ℕ, ◌<◌, ◌≡◌, ◌≢◌, refl, ◌∙◌, sym, ap, ◌==◌, if◌then◌else◌, arith, Bool-cases, inl, inr,
}
use mtproxy.Prelude.Bytes.{Bytes}
use mtproxy.Prelude.Run.{Returns, returns, Returns-bind}
use mtproxy.Secrets.{Ext}
use mtproxy.Secrets.Sums.{total_cong}
use mtproxy.Secrets.Tracking.{tracks_auth_key, tracks_client}
use mtproxy.Secrets.Pool.{Pool, IsCounted, mtfront_untrack_counts}
use mtproxy.Externals.Rings.{put_at}
use mtproxy.Externals.Entries.{zero_ext, untrack}

-- Nothing is tracked for the connection.
abbrev pub IsIdle : Ext → Type 0
IsIdle ex =
    ((s k : ℕ) → tracks_auth_key ex s k ≡ 0) × ((s : ℕ) (k : Bytes) → tracks_client ex s k ≡ 0)

pub zero_ext-IsIdle : IsIdle zero_ext
zero_ext-IsIdle = ((λ s k. refl), λ s k. refl)

-- Memory for which nothing is tracked may be cleared.
pub clear-IsCounted :
    (n : ℕ) (p : Pool) (a : ℕ)
    → IsIdle (p.exts a)
    → IsCounted n p
    → IsCounted n (record p { exts = put_at p.exts a zero_ext })
clear-IsCounted n p a (d, c) h =
    let same : (f : Ext → ℕ)
        → f (p.exts a) ≡ 0
        → f zero_ext ≡ 0
        → (j : ℕ) → f (p.exts j) ≡ f (put_at p.exts a zero_ext j) =
      λ f x y j. elim (Bool-cases (j == a)) [
        | inl e ↦
            let here : j ≡ a = ground (arith, e) in rw e (ap (λ i. f (p.exts i)) here ∙ (x ∙ sym y))
        | inr o ↦ rw o refl
      ] in
    record {
      devices_table = h.devices_table;
      clients_table = h.clients_table;
      devices_counted = λ s k.
          h.devices_counted s k
          ∙ total_cong n _ _ (λ j q. same (λ ex. tracks_auth_key ex s k) (d s k) refl j);
      clients_counted = λ s k.
          h.clients_counted s k
          ∙ total_cong n _ _ (λ j q. same (λ ex. tracks_client ex s k) (c s k) refl j);
    }

-- The counters once the entry at a is cleared, and the other entries as they were.
pub record IsUntracked (n : ℕ) (p : Pool) (a : ℕ) (q : Pool) : Type 0 where
  pub counted : IsCounted n (record q { exts = put_at q.exts a zero_ext })
  pub others : (b : ℕ) → b ≢ a → q.exts b ≡ p.exts b

pub untrack-IsUntracked :
    (n : ℕ) (p : Pool) (a : ℕ) → IsCounted n p → a < n → Returns (IsUntracked n p a) (untrack p a)
unfolding untrack
untrack-IsUntracked n p a h inside = Returns-bind (mtfront_untrack_counts n p h a inside) (λ r u.
    Returns-bind u (λ q (c, d, e).
      let own : (x : Ext) → (if a == a then q.0 else x) ≡ q.0 = λ x. ground arith in
      returns (record {
        counted =
            clear-IsCounted n _ a
              (
                (λ s k. ap (λ x. tracks_auth_key x s k) (own _) ∙ d s k),
                λ s k. ap (λ x. tracks_client x s k) (own _) ∙ e s k,
              )
              c;
        others = λ b o. ground (arith, o);
      })))
