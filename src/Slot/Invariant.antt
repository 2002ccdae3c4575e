-- ===== src/Slot/Invariant.antt =====
-- Every operation of services/main-api/internal/slot/repo.go keeps the invariant of the slots.
use hybrid_cloud_with_claude.Prelude.{
  length, ℕ, ◌+◌, ◌==◌, not, ◌&&◌, List, [], ◌∷◌, ltb, str_eq, String,
}
use hybrid_cloud_with_claude.Prelude.Int.{ℤ, pos, leb_ℤ}
use hybrid_cloud_with_claude.Schema.{GpuSlot}
use hybrid_cloud_with_claude.Store.{World, ok, statement, pure, fail, in_tx, bad_count, ◌>>=◌}
use hybrid_cloud_with_claude.Store.Keeps.{Keeps, statement-Keeps, bind-Keeps, in_tx-Keeps, if-Keeps}
use hybrid_cloud_with_claude.Slot.Queries.{
  Collation, reserve_free_slots, bind_slot_to_instance, count_non_free_slots_for_node,
  delete_slots_for_node, insert_slot, release_all_orphan_reserved_slots, release_reserved_slots,
  release_slots_for_instance, get_node, update_node_profile_hash,
}
use hybrid_cloud_with_claude.Slot.Repo.{
  Reservation, ProfileSlot, ids, insert_params, lock_node_for_reservation, reserve, reserve_body,
  bind_all, bind_to_instance, release_reserved, release_for_instance, recover_orphan_reservations,
  insert_all, replace_slots, sync_body, sync_from_profile,
}
use hybrid_cloud_with_claude.Slot.Valid.{
  SlotsValid, reserve_free_slots-SlotsValid, bind_slot_to_instance-SlotsValid,
  release_reserved_slots-SlotsValid, release_slots_for_instance-SlotsValid,
  release_all_orphan_reserved_slots-SlotsValid, delete_slots_for_node-SlotsValid,
  insert_slot-SlotsValid, update_node_profile_hash-SlotsValid,
}

reserve_body-SlotsValid :
    (text_le : Collation) (node_id : ℕ) (size count : ℤ)
    → Keeps SlotsValid (reserve_body text_le node_id size count)
unfolding reserve_body lock_node_for_reservation
reserve_body-SlotsValid text_le node_id size count =
    bind-Keeps SlotsValid (lock_node_for_reservation node_id) _
      (statement-Keeps SlotsValid (λ db. (ok tt, db)) (λ db v. v))
      λ _.
        bind-Keeps SlotsValid (statement (reserve_free_slots text_le node_id size count)) _
          (statement-Keeps SlotsValid (reserve_free_slots text_le node_id size count)
            (λ db. reserve_free_slots-SlotsValid text_le node_id size count db))
          (λ slots w v. v)

-- A reservation, whether it succeeds or not, keeps the slots valid.
pub reserve-SlotsValid :
    (text_le : Collation) (node_id : ℕ) (size count : ℤ)
    → (w : World) → SlotsValid w.db
    → SlotsValid (reserve text_le node_id size count w).1.db
unfolding reserve
reserve-SlotsValid text_le node_id size count =
    if-Keeps SlotsValid (leb_ℤ count (pos 0)) (fail bad_count)
      (in_tx (reserve_body text_le node_id size count) >>= λ slots. pure (record { slots = slots }))
      (λ w v. v)
      (bind-Keeps SlotsValid (in_tx (reserve_body text_le node_id size count)) _
        (in_tx-Keeps SlotsValid (reserve_body text_le node_id size count)
          (reserve_body-SlotsValid text_le node_id size count))
        (λ slots w v. v))

bind_all-SlotsValid : (slots : List GpuSlot) (id : ℕ) → Keeps SlotsValid (bind_all slots id)
unfolding bind_all
bind_all-SlotsValid [] id = λ w v. v
bind_all-SlotsValid (s ∷ rest) id =
    bind-Keeps SlotsValid (statement (bind_slot_to_instance s.id id)) (λ _. bind_all rest id)
      (statement-Keeps SlotsValid (bind_slot_to_instance s.id id)
        (λ db. bind_slot_to_instance-SlotsValid s.id id db))
      (λ _. bind_all-SlotsValid rest id)

-- Binding a reservation to an instance keeps the slots valid, also where it stops in the middle.
pub bind_to_instance-SlotsValid :
    (r : Reservation) (id : ℕ)
    → (w : World) → SlotsValid w.db
    → SlotsValid (bind_to_instance r id w).1.db
unfolding bind_to_instance
bind_to_instance-SlotsValid r id =
    in_tx-Keeps SlotsValid (bind_all r.slots id) (bind_all-SlotsValid r.slots id)

pub release_reserved-SlotsValid : (r : Reservation) → Keeps SlotsValid (release_reserved r)
unfolding release_reserved
release_reserved-SlotsValid r =
    if-Keeps SlotsValid (length r.slots == 0) (pure tt)
      (statement (release_reserved_slots (ids r)) >>= λ n. pure tt) (λ w v. v)
      (bind-Keeps SlotsValid (statement (release_reserved_slots (ids r))) _
        (statement-Keeps SlotsValid (release_reserved_slots (ids r))
          (λ db. release_reserved_slots-SlotsValid (ids r) db))
        (λ n w v. v))

pub release_for_instance-SlotsValid : (id : ℕ) → Keeps SlotsValid (release_for_instance id)
unfolding release_for_instance
release_for_instance-SlotsValid id =
    statement-Keeps SlotsValid (release_slots_for_instance id)
      (λ db. release_slots_for_instance-SlotsValid id db)

pub recover_orphan_reservations-SlotsValid : Keeps SlotsValid recover_orphan_reservations
unfolding recover_orphan_reservations
recover_orphan_reservations-SlotsValid =
    statement-Keeps SlotsValid release_all_orphan_reserved_slots
      (λ db. release_all_orphan_reserved_slots-SlotsValid db)

insert_all-SlotsValid :
    (node_id : ℕ) (slots : List ProfileSlot) → Keeps SlotsValid (insert_all node_id slots)
unfolding insert_all
insert_all-SlotsValid node_id [] = λ w v. v
insert_all-SlotsValid node_id (s ∷ rest) = λ w v.
    bind-Keeps SlotsValid (statement (insert_slot (w.uuids w.drawn) (insert_params node_id s)))
      (λ _. insert_all node_id rest)
      (statement-Keeps SlotsValid (insert_slot (w.uuids w.drawn) (insert_params node_id s))
        (λ db. insert_slot-SlotsValid (w.uuids w.drawn) (insert_params node_id s) db))
      (λ _. insert_all-SlotsValid node_id rest) (record w { drawn = w.drawn + 1 }) v

replace_slots-SlotsValid :
    (node_id : ℕ) (hash : String) (slots : List ProfileSlot)
    → Keeps SlotsValid (replace_slots node_id hash slots)
unfolding replace_slots
replace_slots-SlotsValid node_id hash slots = λ w v.
    bind-Keeps SlotsValid (statement (delete_slots_for_node node_id)) _
      (statement-Keeps SlotsValid (delete_slots_for_node node_id)
        (λ db. delete_slots_for_node-SlotsValid node_id db))
      (λ _.
        bind-Keeps SlotsValid (insert_all node_id slots) _ (insert_all-SlotsValid node_id slots)
          λ _.
            bind-Keeps SlotsValid (statement (update_node_profile_hash w.now node_id hash)) _
              (statement-Keeps SlotsValid (update_node_profile_hash w.now node_id hash)
                (λ db. update_node_profile_hash-SlotsValid w.now node_id hash db))
              (λ _ w' v'. v'))
      w v

sync_body-SlotsValid :
    (node_id : ℕ) (hash : String) (slots : List ProfileSlot)
    → Keeps SlotsValid (sync_body node_id hash slots)
unfolding sync_body
sync_body-SlotsValid node_id hash slots =
    bind-Keeps SlotsValid (statement (count_non_free_slots_for_node node_id)) _
      (statement-Keeps SlotsValid (count_non_free_slots_for_node node_id)
        (unfold count_non_free_slots_for_node in λ db v. v))
      λ n.
        if-Keeps SlotsValid (ltb 0 n) _ _ (λ w v. v) (replace_slots-SlotsValid node_id hash slots)

-- A sync with an agent's profile keeps the slots valid, whatever the profile holds.
pub sync_from_profile-SlotsValid :
    (node_id : ℕ) (hash : String) (slots : List ProfileSlot)
    → (w : World) → SlotsValid w.db
    → SlotsValid (sync_from_profile node_id hash slots w).1.db
unfolding sync_from_profile
sync_from_profile-SlotsValid node_id hash slots =
    bind-Keeps SlotsValid (statement (get_node node_id)) _
      (statement-Keeps SlotsValid (get_node node_id) (unfold get_node in λ db v. v))
      λ node.
        if-Keeps SlotsValid (str_eq node.profile_hash hash && not (str_eq hash "")) _ _ (λ w v. v)
          (in_tx-Keeps SlotsValid (sync_body node_id hash slots)
            (sync_body-SlotsValid node_id hash slots))
