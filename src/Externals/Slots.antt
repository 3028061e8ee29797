-- ===== src/Externals/Slots.antt =====
-- The slot and the id that c-original/mtproto/mtproto-proxy.c picks for a new external connection.
use mtproxy.Prelude.{ℕ, ◌-◌, ◌%◌, ◌^◌, ◌<◌, ◌≡◌, List, [], ◌∷◌, ◌⊎◌, inl, inr, ◌==◌, arith}
use mtproxy.Prelude.Run.{Returns, returns, Returns-if}
use mtproxy.Externals.Entries.{ext_conn_table_size, next_out_conn_id, pick_slot}

-- One of the draws falls on a slot that is not taken.
abbrev pub HasFree : (ℕ → ℕ) → List ℕ → Type 0
HasFree out_refs [] = ⊥
HasFree out_refs (draw ∷ draws) =
    (out_refs (draw % ext_conn_table_size) ≡ 0) ⊎ HasFree out_refs draws

-- A slot that is not taken
abbrev pub IsSlot : (ℕ → ℕ) → ℕ → Type 0
IsSlot out_refs slot = (slot < ext_conn_table_size) × (out_refs slot ≡ 0)

pub pick_slot-IsSlot :
    (out_refs : ℕ → ℕ) (h : ℕ) (draws : List ℕ)
    → HasFree out_refs (h ∷ draws)
    → Returns (IsSlot out_refs) (pick_slot out_refs h draws)
unfolding pick_slot
pick_slot-IsSlot out_refs h [] free =
    Returns-if (out_refs (h % ext_conn_table_size) == 0) _ _
      (λ e. returns (ground arith, ground (arith, e))) (λ n. absurd (ground (arith, free, n)))
pick_slot-IsSlot out_refs h (draw ∷ draws) free =
    Returns-if (out_refs (h % ext_conn_table_size) == 0) _ _
      (λ e. returns (ground arith, ground (arith, e)))
      (λ n. elim free [
        | inl e ↦ absurd (ground (arith, e, n))
        | inr more ↦ pick_slot-IsSlot out_refs draw draws more
      ])

pub next_out_conn_id-slot :
    (id h : ℕ) → h < ext_conn_table_size → next_out_conn_id id h % ext_conn_table_size ≡ h
next_out_conn_id-slot id h p = omega arith

-- While the counter of the slot does not wrap around, its ids grow.
pub next_out_conn_id_grows :
    (id h : ℕ)
    → h < ext_conn_table_size
    → id < 2 ^ 64 - ext_conn_table_size
    → id < next_out_conn_id id h
next_out_conn_id_grows id h p q = omega arith
