-- ===== src/Examples/Profiles.antt =====
-- The theorems on the profile of a node at a small layout
-- (services/compute-agent/internal/profile/profile.go).
use hybrid_cloud_with_claude.Prelude.{
  ◌≡◌, refl, str_eq_iff, none, List, [], ◌∷◌, delete_where, arith,
}
use hybrid_cloud_with_claude.Prelude.Int.{ℤ, pos}
use hybrid_cloud_with_claude.Schema.{free, slot_status_eq}
use hybrid_cloud_with_claude.Store.{World, ok}
use hybrid_cloud_with_claude.Slot.Queries.{on_node}
use hybrid_cloud_with_claude.Slot.Repo.{sync_from_profile, sync_replaced}
use hybrid_cloud_with_claude.Slot.Sync.{Inserted}
use hybrid_cloud_with_claude.Compute.Profile.{
  SlotYaml, Layout, ProfileFile, Resolved, valid, resolve, proto,
}
use hybrid_cloud_with_claude.Compute.Seeding.{resolve-sync}
use hybrid_cloud_with_claude.Examples.Data.{busy_db, slot_row, node_row, world_of}

abbrev pair_slot : SlotYaml
pair_slot = record { size = pos 2; gpu_indices = pos 0 ∷ pos 1 ∷ []; nvlink_domain = "a" }

abbrev single_slot : SlotYaml
single_slot = record { size = pos 1; gpu_indices = pos 2 ∷ []; nvlink_domain = "" }

abbrev split_layout : Layout
split_layout = record { name = "split"; slots = pair_slot ∷ single_slot ∷ [] }

abbrev split_file : ProfileFile
split_file = record { active = "split"; layouts = split_layout ∷ [] }

abbrev split_resolved : Resolved
split_resolved = record { name = "split"; hash = "new"; slots = pair_slot ∷ single_slot ∷ [] }

abbrev three_gpus : List ℤ
three_gpus = pos 0 ∷ pos 1 ∷ pos 2 ∷ []

split_accepted : resolve split_file "new" three_gpus ≡ valid split_resolved
unfolding resolve
split_accepted = refl

-- One node, whose only slot is free.
abbrev vacant : World
vacant = world_of (record busy_db { slots = slot_row 101 free none ∷ [] }) 600

resolve-sync_example :
    ((sync_from_profile 1 "new" (proto split_resolved) vacant).0 ≡ ok sync_replaced)
    × Inserted 1
        (proto split_resolved)
        (delete_where (on_node 1) vacant.db.slots)
        (sync_from_profile 1 "new" (proto split_resolved) vacant).1.db.slots
unfolding slot_status_eq
resolve-sync_example =
    resolve-sync split_file "new" three_gpus split_resolved 1 node_row vacant split_accepted refl
      refl (λ e. ground (arith, str_eq_iff "" "new")) (λ k l e. omega (arith, e))
      ((λ k le e. omega (arith, e)), tt) refl
