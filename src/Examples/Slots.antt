-- ===== src/Examples/Slots.antt =====
-- The theorems on slots at small tables (services/main-api/internal/slot/repo.go).
use hybrid_cloud_with_claude.Prelude.{
  none, ◌+◌, ◌≡◌, refl, true, false, List, [], ◌∷◌, length, count_where, All, Pointwise, arith,
}
use hybrid_cloud_with_claude.Prelude.Int.{pos}
use hybrid_cloud_with_claude.Schema.{free, reserved}
use hybrid_cloud_with_claude.Store.{World, ok, err, no_free_slots, connection}
use hybrid_cloud_with_claude.Slot.Queries.{Collation, is_candidate, reserve_order}
use hybrid_cloud_with_claude.Slot.Repo.{
  release_reserved, Reservation, ProfileSlot, reserve, sync_from_profile, sync_replaced,
}
use hybrid_cloud_with_claude.Slot.Picked.{DistinctIds}
use hybrid_cloud_with_claude.Slot.Reserve.{Granted, Taken, reserve_exact, reserve_iff}
use hybrid_cloud_with_claude.Slot.Valid.{SlotsValid}
use hybrid_cloud_with_claude.Slot.Undo.{release-reserve}
use hybrid_cloud_with_claude.Slot.Sync.{Outcome, sync-Outcome}
use hybrid_cloud_with_claude.Examples.Data.{busy_db, busy, slot_row, world_of}

-- A collation that takes any order.
abbrev pub any_order : Collation
any_order a b = true

pub busy-DistinctIds : DistinctIds busy.db.slots
busy-DistinctIds u = ground arith

pub busy-SlotsValid : SlotsValid busy_db
busy-SlotsValid = record {
  distinct = busy-DistinctIds;
  consistent_rows = (refl, (refl, (refl, tt)));
}

abbrev one_slot : Reservation
one_slot = record { slots = slot_row 101 reserved none ∷ [] }

abbrev after_one : World
after_one = (reserve any_order 1 (pos 1) (pos 1) busy).1

one_granted : (reserve any_order 1 (pos 1) (pos 1) busy).0 ≡ ok one_slot
unfolding reserve is_candidate reserve_order
one_granted = refl

reserve_exact_example :
    (length one_slot.slots ≡ 1)
    × All (Granted 1 (pos 1)) one_slot.slots
    × Pointwise (Taken 1 (pos 1)) busy.db.slots after_one.db.slots
    × (count_where (is_candidate 1 (pos 1)) after_one.db.slots + 1
        ≡ count_where (is_candidate 1 (pos 1)) busy.db.slots)
reserve_exact_example =
    reserve_exact any_order 1 (pos 1) (pos 1) busy one_slot one_granted busy-DistinctIds

three_missing : (reserve any_order 1 (pos 1) (pos 3) busy).0 ≡ err no_free_slots
unfolding reserve is_candidate reserve_order
three_missing = refl

reserve_iff_example : (reserve any_order 1 (pos 1) (pos 3) busy).0 ≡ err no_free_slots
unfolding is_candidate
reserve_iff_example =
    reserve_iff any_order 1 (pos 1) (pos 3) busy refl (omega arith) busy-DistinctIds

abbrev profile : List ProfileSlot
profile =
    record {
      slot_index = pos 0;
      gpu_count = pos 2;
      gpu_indices = pos 0 ∷ pos 1 ∷ [];
      nvlink_domain = "a";
    }
    ∷ []

-- The node with free slots alone.
abbrev idle : World
idle = world_of (record busy_db { slots = slot_row 101 free none ∷ [] }) 600

idle_replaced : (sync_from_profile 1 "new" profile idle).0 ≡ ok sync_replaced
unfolding sync_from_profile
idle_replaced = refl

sync-Outcome_example :
    Outcome 1 profile idle.db sync_replaced (sync_from_profile 1 "new" profile idle).1.db
sync-Outcome_example = sync-Outcome 1 "new" profile idle idle_replaced

abbrev idle_failing : World
idle_failing = record idle { faults = false ∷ false ∷ false ∷ false ∷ true ∷ [] }

idle_stopped : (sync_from_profile 1 "new" profile idle_failing).0 ≡ err connection
unfolding sync_from_profile
idle_stopped = refl

release-reserve_example : (release_reserved one_slot after_one).1.db.slots ≡ busy.db.slots
release-reserve_example =
    release-reserve any_order 1 (pos 1) (pos 1) busy one_slot refl busy-SlotsValid one_granted
