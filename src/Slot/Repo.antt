-- ===== src/Slot/Repo.antt =====
-- services/main-api/internal/slot/repo.go: reservation, binding, release and the sync of a node's
-- slots with its agent's profile.
use hybrid_cloud_with_claude.Prelude.{
  ℕ, ltb, ◌==◌, not, ◌&&◌, String, str_eq, List, [], ◌∷◌, map, length, if◌then◌else◌,
}
use hybrid_cloud_with_claude.Prelude.Int.{ℤ, pos, leb_ℤ, ltb_ℤ}
use hybrid_cloud_with_claude.Schema.{GpuSlot}
use hybrid_cloud_with_claude.Store.{
  Result, ok, err, Q, ◌>>=◌, ◌>>◌, pure, fail, lift, statement, fresh_uuid, clock, in_tx,
  no_free_slots, bad_count,
}
use hybrid_cloud_with_claude.Slot.Queries.{
  Collation, InsertSlotParams, slot_ids, reserve_free_slots, bind_slot_to_instance,
  count_non_free_slots_for_node, delete_slots_for_node, insert_slot,
  release_all_orphan_reserved_slots, release_reserved_slots, release_slots_for_instance, get_node,
  update_node_profile_hash,
}

pub record Reservation : Type 0 where
  pub slots : List GpuSlot

unfoldable pub slot_indices : Reservation → List ℤ
slot_indices r = map (λ s. s.slot_index) r.slots

unfoldable pub ids : Reservation → List ℕ
ids r = slot_ids r.slots

-- LockNodeForReservation: the advisory lock makes concurrent reservations of one node wait for one
-- another, so each runs on the tables as one transaction; the statement itself changes nothing.
unfoldable pub lock_node_for_reservation : ℕ → Q (Unit {0})
unfolding statement
lock_node_for_reservation node_id = statement (λ db. (ok tt, db))

unfoldable pub enough : ℤ → List GpuSlot → Result (List GpuSlot)
enough count slots = if ltb_ℤ (pos (length slots)) count then err no_free_slots else ok slots

unfoldable pub reserve_body : Collation → ℕ → ℤ → ℤ → Q (List GpuSlot)
unfolding lock_node_for_reservation reserve_free_slots statement enough
reserve_body text_le node_id size count = do
  lock_node_for_reservation node_id
  slots ← statement (reserve_free_slots text_le node_id size count)
  lift (enough count slots)

unfoldable pub reserve : Collation → ℕ → ℤ → ℤ → Q Reservation
unfolding reserve_body in_tx
reserve text_le node_id size count = if leb_ℤ count (pos 0) then fail bad_count else (do
  slots ← in_tx (reserve_body text_le node_id size count)
  pure (record { slots = slots }))

unfoldable pub bind_all : List GpuSlot → ℕ → Q (Unit {0})
unfolding bind_slot_to_instance statement
bind_all [] instance_id = pure tt
bind_all (s ∷ rest) instance_id = do
  bound ← statement (bind_slot_to_instance s.id instance_id)
  bind_all rest instance_id

unfoldable pub bind_to_instance : Reservation → ℕ → Q (Unit {0})
unfolding bind_all in_tx
bind_to_instance res instance_id = in_tx (bind_all res.slots instance_id)

unfoldable pub release_reserved : Reservation → Q (Unit {0})
unfolding release_reserved_slots statement ids
release_reserved res =
    if length res.slots == 0
    then pure tt
    else (do n ← statement (release_reserved_slots (ids res)); pure tt)

unfoldable pub release_for_instance : ℕ → Q ℕ
unfolding release_slots_for_instance statement
release_for_instance instance_id = statement (release_slots_for_instance instance_id)

unfoldable pub recover_orphan_reservations : Q ℕ
unfolding release_all_orphan_reserved_slots statement
recover_orphan_reservations = statement release_all_orphan_reserved_slots

pub data SyncResult : Type 0 where
  sync_unchanged sync_replaced sync_degraded : SyncResult

pub record ProfileSlot : Type 0 where
  pub slot_index : ℤ
  pub gpu_count : ℤ
  pub gpu_indices : List ℤ
  pub nvlink_domain : String

abbrev pub insert_params : ℕ → ProfileSlot → InsertSlotParams
insert_params node_id s = record {
  node_id = node_id;
  slot_index = s.slot_index;
  gpu_count = s.gpu_count;
  gpu_indices = s.gpu_indices;
  nvlink_domain = s.nvlink_domain;
}

unfoldable pub insert_all : ℕ → List ProfileSlot → Q (Unit {0})
unfolding insert_slot statement fresh_uuid
insert_all node_id [] = pure tt
insert_all node_id (s ∷ rest) = do
  uuid ← fresh_uuid
  statement (insert_slot uuid (insert_params node_id s))
  insert_all node_id rest

unfoldable pub replace_slots : ℕ → String → List ProfileSlot → Q SyncResult
unfolding delete_slots_for_node insert_all update_node_profile_hash statement clock
replace_slots node_id hash slots = do
  now ← clock
  statement (delete_slots_for_node node_id)
  insert_all node_id slots
  statement (update_node_profile_hash now node_id hash)
  pure sync_replaced

unfoldable pub sync_body : ℕ → String → List ProfileSlot → Q SyncResult
unfolding count_non_free_slots_for_node replace_slots statement
sync_body node_id hash slots = do
  non_free ← statement (count_non_free_slots_for_node node_id)
  if ltb 0 non_free then pure sync_degraded else replace_slots node_id hash slots

unfoldable pub sync_from_profile : ℕ → String → List ProfileSlot → Q SyncResult
unfolding get_node sync_body statement in_tx
sync_from_profile node_id hash slots = do
  node ← statement (get_node node_id)
  if str_eq node.profile_hash hash && not (str_eq hash "")
      then pure sync_unchanged
      else in_tx (sync_body node_id hash slots)
