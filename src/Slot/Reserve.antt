-- ===== src/Slot/Reserve.antt =====
-- What a reservation promises (Reserve of services/main-api/internal/slot/repo.go).
use hybrid_cloud_with_claude.Prelude.{
  ℕ, ◌+◌, ◌≤◌, ◌≡◌, refl, true, false, not, ◌&&◌, ◌⊎◌, List, [], ◌∷◌, length, select_where,
  update_where, count_where, All, Pointwise, if◌then◌else◌, ltb, min, arith,
}
use hybrid_cloud_with_claude.Prelude.Int.{ℤ, pos, ◌<ℤ◌, pos_part, eq_ℤ_iff}
use hybrid_cloud_with_claude.Schema.{GpuSlot, free, reserved}
use hybrid_cloud_with_claude.Store.{World, Error, ok, err, no_free_slots}
use hybrid_cloud_with_claude.Store.Laws.{in_tx-err}
use hybrid_cloud_with_claude.Slot.Queries.{
  Collation, id_in, slot_ids, picked, is_candidate, reserve_row,
}
use hybrid_cloud_with_claude.Slot.Repo.{Reservation, reserve, reserve_body}
use hybrid_cloud_with_claude.Slot.Picked.{
  DistinctIds, count-picked, picked-candidates, length-picked,
}

-- A row either stays, or was free and of the wanted size on the node, and is now reserved.
abbrev pub Taken : ℕ → ℤ → GpuSlot → GpuSlot → Type 0
Taken node_id size s t =
    (t ≡ s)
    ⊎ ((s.status ≡ free) × (s.node_id ≡ node_id) × (s.gpu_count ≡ size) × (t ≡ reserve_row s))

abbrev pub reserved_rows : List ℕ → List GpuSlot → List GpuSlot
reserved_rows ids slots = update_where (id_in ids) reserve_row slots

candidate-cases :
    (node_id : ℕ) (size : ℤ) (s : GpuSlot)
    → is_candidate node_id size s ≡ true
    → (s.status ≡ free) × (s.node_id ≡ node_id) × (s.gpu_count ≡ size)
unfolding is_candidate
candidate-cases node_id size s h = ground (arith, eq_ℤ_iff s.gpu_count size)

pub update-Taken :
    (node_id : ℕ) (size : ℤ) (ids : List ℕ) (slots : List GpuSlot)
    → All (λ s. (not (is_candidate node_id size s) && id_in ids s) ≡ false) slots
    → Pointwise (Taken node_id size) slots (reserved_rows ids slots)
update-Taken node_id size ids [] h = tt
update-Taken node_id size ids (s ∷ slots) h =
    (ground (arith, candidate-cases node_id size s, h.0), update-Taken node_id size ids slots h.1)

-- The returned rows are the rows that are reserved now, on the node and of the size.
abbrev pub Granted : ℕ → ℤ → GpuSlot → Type 0
Granted node_id size s = (s.status ≡ reserved) × (s.node_id ≡ node_id) × (s.gpu_count ≡ size)

select-Granted :
    (node_id : ℕ) (size : ℤ) (ids : List ℕ) (slots : List GpuSlot)
    → All (λ s. (not (is_candidate node_id size s) && id_in ids s) ≡ false) slots
    → All (Granted node_id size) (select_where (id_in ids) (reserved_rows ids slots))
select-Granted node_id size ids [] h = tt
select-Granted node_id size ids (s ∷ slots) h =
    ground (arith, candidate-cases node_id size s, h.0, select-Granted node_id size ids slots h.1)

length-returned :
    (ids : List ℕ) (slots : List GpuSlot)
    → length (select_where (id_in ids) (reserved_rows ids slots)) ≡ count_where (id_in ids) slots
length-returned ids [] = refl
length-returned ids (s ∷ slots) = ground (arith, length-returned ids slots)

-- The number of free slots that a request could still be given falls by the number taken.
count-candidates :
    (node_id : ℕ) (size : ℤ) (ids : List ℕ) (slots : List GpuSlot)
    → All (λ s. (not (is_candidate node_id size s) && id_in ids s) ≡ false) slots
    → count_where (is_candidate node_id size) (reserved_rows ids slots)
        + count_where (id_in ids) slots
      ≡ count_where (is_candidate node_id size) slots
unfolding is_candidate
count-candidates node_id size ids [] h = omega arith
count-candidates node_id size ids (s ∷ slots) h =
    ground (arith, h.0, count-candidates node_id size ids slots h.1)

module _ (text_le : Collation) (node_id : ℕ) (size count : ℤ) (w : World) where
  abbrev pub taken_ids : List ℕ
  taken_ids = slot_ids (picked text_le node_id size count w.db.slots)

  abbrev pub returned : List GpuSlot
  returned = select_where (id_in taken_ids) (reserved_rows taken_ids w.db.slots)

  pub reserve_shape :
      (r : Reservation)
      → (reserve text_le node_id size count w).0 ≡ ok r
      → (pos 0 <ℤ count)
        × (r.slots ≡ returned)
        × ((reserve text_le node_id size count w).1.db.slots ≡ reserved_rows taken_ids w.db.slots)
        × (pos_part count ≤ length returned)
  unfolding reserve
  reserve_shape r h = ground arith

  length-returned_eq :
      DistinctIds w.db.slots
      → length returned ≡ min (pos_part count) (count_where (is_candidate node_id size) w.db.slots)
  length-returned_eq d = omega (
    arith,
    length-returned taken_ids w.db.slots,
    count-picked text_le node_id size count w.db.slots d,
    length-picked text_le node_id size count w.db.slots,
  )

  -- Where no id stands twice, a reservation of `count` slots that succeeds flips exactly `count` free
  -- slots of the size on the node to reserved, changes no other row, and returns `count` rows, each of
  -- them reserved, on the node and of the size.
  pub reserve_exact :
      (r : Reservation)
      → (reserve text_le node_id size count w).0 ≡ ok r
      → DistinctIds w.db.slots
      → (length r.slots ≡ pos_part count)
        × All (Granted node_id size) r.slots
        × Pointwise
            (Taken node_id size)
            w.db.slots
            (reserve text_le node_id size count w).1.db.slots
        × (count_where (is_candidate node_id size) (reserve text_le node_id size count w).1.db.slots
              + pos_part count
            ≡ count_where (is_candidate node_id size) w.db.slots)
  reserve_exact r h d =
      let (positive, rows, after, at_least) = reserve_shape r h in
      let picked_only = picked-candidates text_le node_id size count w.db.slots d in
      let granted = select-Granted node_id size taken_ids w.db.slots picked_only in
      let taken = update-Taken node_id size taken_ids w.db.slots picked_only in
      let left = count-candidates node_id size taken_ids w.db.slots picked_only in
      let found = length-returned taken_ids w.db.slots in
      (
        rw rows (omega (arith, length-returned_eq d)),
        rw rows granted,
        rw after taken,
        rw after (omega (arith, length-returned_eq d)),
      )

  -- A reservation that is refused or fails, at whatever statement, changes no table.
  pub reserve-err :
      {e : Error}
      → (reserve text_le node_id size count w).0 ≡ err e
      → (reserve text_le node_id size count w).1.db ≡ w.db
  unfolding reserve
  reserve-err h = ground (arith, in_tx-err (reserve_body text_le node_id size count) w)

  -- With a connection that does not fail, and where no id stands twice, a request
  -- for a positive number of slots is granted just when
  -- the node has as many free slots of the size, and is refused with `no_free_slots` otherwise.
  pub reserve_iff :
      w.faults ≡ []
      → pos 0 <ℤ count
      → DistinctIds w.db.slots
      → (reserve text_le node_id size count w).0 ≡ (
          if ltb (count_where (is_candidate node_id size) w.db.slots) (pos_part count)
          then err no_free_slots
          else ok (record { slots = returned }))
  unfolding reserve
  reserve_iff f c d = ground (arith, length-returned_eq d)
