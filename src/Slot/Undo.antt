-- ===== src/Slot/Undo.antt =====
-- Giving a reservation back (Reserve and ReleaseReserved of services/main-api/internal/slot/repo.go).
use hybrid_cloud_with_claude.Prelude.{
  ℕ, ◌≤◌, ◌==◌, ◌≡◌, refl, ap, ◌∙◌, inl, inr, Bool, true, false, not, ◌&&◌, List, [], ◌∷◌, length,
  select_where, update_where, any_where, All, arith,
}
use mathlib.Core.List.{Memᴰ}
use mathlib.Core.List.Memᴰ
use hybrid_cloud_with_claude.Prelude.Int.{ℤ}
use hybrid_cloud_with_claude.Schema.{GpuSlot, reserved, slot_status_eq}
use hybrid_cloud_with_claude.Store.{World, ok}
use hybrid_cloud_with_claude.Slot.Queries.{
  Collation, id_in, slot_ids, is_candidate, has_status, reserve_row, free_row,
}
use hybrid_cloud_with_claude.Slot.Repo.{Reservation, reserve, release_reserved}
use hybrid_cloud_with_claude.Slot.Picked.{picked-candidates}
use hybrid_cloud_with_claude.Slot.Reserve.{reserved_rows, taken_ids, returned, reserve_shape}
use hybrid_cloud_with_claude.Slot.Valid.{IsConsistent, SlotsValid}

abbrev pub releases : List ℕ → GpuSlot → Bool
releases ids s = id_in ids s && has_status reserved s

restore_row :
    (node_id : ℕ) (size : ℤ) (s : GpuSlot)
    → is_candidate node_id size s ≡ true
    → IsConsistent s
    → free_row (reserve_row s) ≡ s
unfolding is_candidate
restore_row node_id size s c k = ground arith

restore :
    (node_id : ℕ) (size : ℤ) (ids taken : List ℕ) (slots : List GpuSlot)
    → All (λ s. (not (is_candidate node_id size s) && id_in taken s) ≡ false) slots
    → All IsConsistent slots
    → All (λ s. id_in ids s ≡ id_in taken s) slots
    → update_where (releases ids) free_row (reserved_rows taken slots) ≡ slots
unfolding slot_status_eq
restore node_id size ids taken [] c k e = refl
restore node_id size ids taken (s ∷ slots) c k e = ground (
  arith,
  c.0,
  k.0,
  e.0,
  restore_row node_id size s,
  restore node_id size ids taken slots c.1 k.1 e.1,
)

returned_ids :
    (taken : List ℕ) (slots : List GpuSlot)
    → slot_ids (select_where (id_in taken) (reserved_rows taken slots))
      ≡ slot_ids (select_where (id_in taken) slots)
returned_ids taken [] = refl
returned_ids taken (s ∷ slots) = ground (arith, returned_ids taken slots)

same_id : (taken : List ℕ) (s t : GpuSlot) → s.id ≡ t.id → id_in taken s ≡ id_in taken t
same_id taken s t e = ap (λ i. any_where (λ v. i == v) taken) e

selected-taken :
    (taken : List ℕ) (s : GpuSlot) (slots : List GpuSlot)
    → id_in (slot_ids (select_where (id_in taken) slots)) s ≡ true
    → id_in taken s ≡ true
selected-taken taken s [] h = absurd (ground arith)
selected-taken taken s (t ∷ slots) h =
    ground (arith, same_id taken s t, selected-taken taken s slots)

taken-selected :
    (taken : List ℕ) (s : GpuSlot) (slots : List GpuSlot)
    → Memᴰ s slots
    → id_in taken s ≡ true
    → id_in (slot_ids (select_where (id_in taken) slots)) s ≡ true
taken-selected taken s [] m h = absurd (Memᴰ.not-nil m)
taken-selected taken s (t ∷ slots) m h = elim (Memᴰ.cases_cons m) [
  | inl e ↦
      let same : s.id ≡ t.id = ap (λ (x : GpuSlot). x.id) e in
      ground (arith, same_id taken s t same)
  | inr n ↦ ground (arith, taken-selected taken s slots n h)
]

All-of_mem :
    (p : GpuSlot → Bool) (q : GpuSlot → Bool) (slots : List GpuSlot)
    → ((s : GpuSlot) → Memᴰ s slots → p s ≡ q s)
    → All (λ s. p s ≡ q s) slots
All-of_mem p q [] h = tt
All-of_mem p q (s ∷ slots) h =
    (h s (Memᴰ.head refl), All-of_mem p q slots (λ t m. h t (Memᴰ.tail m)))

-- The ids of the returned rows pick out the rows that were taken.
same_rows :
    (taken : List ℕ) (slots : List GpuSlot)
    → All
        (λ s.
          id_in (slot_ids (select_where (id_in taken) (reserved_rows taken slots))) s
          ≡ id_in taken s)
        slots
same_rows taken slots = rw returned_ids (
    All-of_mem (id_in (slot_ids (select_where (id_in taken) slots))) (id_in taken) slots
      λ s m. ground (arith, selected-taken taken s slots, taken-selected taken s slots m))

pub released_rows :
    (r : Reservation) (w : World)
    → w.faults ≡ []
    → 1 ≤ length r.slots
    → (release_reserved r w).1.db.slots
      ≡ update_where (releases (slot_ids r.slots)) free_row w.db.slots
unfolding release_reserved
released_rows r w f n = ground arith

pub reserve_faults :
    (text_le : Collation) (node_id : ℕ) (size count : ℤ) (w : World)
    → w.faults ≡ []
    → (reserve text_le node_id size count w).1.faults ≡ []
unfolding reserve
reserve_faults text_le node_id size count w f = ground arith

-- Over a connection that works, and with valid slots, giving a reservation back right after it was
-- made leaves every slot as it was before the reservation.
pub release-reserve :
    (text_le : Collation) (node_id : ℕ) (size count : ℤ) (w : World) (r : Reservation)
    → w.faults ≡ []
    → SlotsValid w.db
    → (reserve text_le node_id size count w).0 ≡ ok r
    → (release_reserved r (reserve text_le node_id size count w).1).1.db.slots ≡ w.db.slots
release-reserve text_le node_id size count w r f v h =
    let (positive, rows, after, at_least) = reserve_shape text_le node_id size count w r h in
    let taken = taken_ids text_le node_id size count w in
    let some_rows : 1 ≤ length r.slots = rw rows (omega arith) in
    released_rows r (reserve text_le node_id size count w).1
      (reserve_faults text_le node_id size count w f) some_rows
    ∙ ap (update_where (releases (slot_ids r.slots)) free_row) after
    ∙ ap (λ l. update_where (releases (slot_ids l)) free_row (reserved_rows taken w.db.slots)) rows
    ∙ restore node_id size (slot_ids (returned text_le node_id size count w)) taken w.db.slots
        (picked-candidates text_le node_id size count w.db.slots v.distinct) v.consistent_rows
        (same_rows taken w.db.slots)
