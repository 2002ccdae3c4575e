-- ===== src/Slot/Bound.antt =====
-- What a binding does to the slots, and how the release of its instance undoes it
-- (BindToInstance and ReleaseForInstance of services/main-api/internal/slot/repo.go).
use hybrid_cloud_with_claude.Prelude.{
  ℕ, ◌≡◌, refl, sym, ap, ◌∙◌, List, [], ◌∷◌, update_where, count_where, arith,
}
use hybrid_cloud_with_claude.Schema.{GpuSlot, slot_status_eq}
use hybrid_cloud_with_claude.Store.{World, ok, statement}
use hybrid_cloud_with_claude.Store.Laws.{>>=-ok, in_tx-ok}
use hybrid_cloud_with_claude.Store.Quiet.{Quiet, statement-Quiet, bind-Quiet, in_tx-Quiet}
use hybrid_cloud_with_claude.Instance.Queries.{holds}
use hybrid_cloud_with_claude.Slot.Queries.{
  slot_ids, is_reserved_at, bind_row, free_row, bind_slot_to_instance, release_slots_for_instance,
}
use hybrid_cloud_with_claude.Slot.Repo.{
  Reservation, bind_all, bind_to_instance, release_for_instance,
}
use hybrid_cloud_with_claude.Slot.Undo.{releases}

bind_one :
    (id instance_id : ℕ) (w : World) {s : GpuSlot}
    → (statement (bind_slot_to_instance id instance_id) w).0 ≡ ok s
    → (statement (bind_slot_to_instance id instance_id) w).1.db.slots
      ≡ update_where (is_reserved_at id) (bind_row instance_id) w.db.slots
unfolding statement bind_slot_to_instance
bind_one id instance_id w h = ground arith

-- Two updates, one after the other: a bound row is not reserved any more.
update-bound :
    (id instance_id : ℕ) (ids : List ℕ) (slots : List GpuSlot)
    → update_where
        (releases ids)
        (bind_row instance_id)
        (update_where (is_reserved_at id) (bind_row instance_id) slots)
      ≡ update_where (releases (id ∷ ids)) (bind_row instance_id) slots
unfolding slot_status_eq
update-bound id instance_id ids [] = refl
update-bound id instance_id ids (s ∷ slots) = ground (arith, update-bound id instance_id ids slots)

update_none :
    (f : GpuSlot → GpuSlot) (slots : List GpuSlot) → update_where (releases []) f slots ≡ slots
update_none f [] = refl
update_none f (s ∷ slots) = ground (arith, update_none f slots)

bind_all_rows :
    (rows : List GpuSlot) (instance_id : ℕ) (w : World)
    → (bind_all rows instance_id w).0 ≡ ok tt
    → (bind_all rows instance_id w).1.db.slots
      ≡ update_where (releases (slot_ids rows)) (bind_row instance_id) w.db.slots
unfolding bind_all
bind_all_rows [] instance_id w h = sym (update_none (bind_row instance_id) w.db.slots)
bind_all_rows (s ∷ rest) instance_id w h =
    let first = statement (bind_slot_to_instance s.id instance_id) in
    let (row, done, e) = >>=-ok first (λ _. bind_all rest instance_id) w h in
    ap (λ r. r.1.db.slots) e
    ∙ bind_all_rows rest instance_id (first w).1 (ap (λ r. r.0) (sym e) ∙ h)
    ∙ ap (update_where (releases (slot_ids rest)) (bind_row instance_id))
        (bind_one s.id instance_id w done)
    ∙ update-bound s.id instance_id (slot_ids rest) w.db.slots

pub bound_rows :
    (r : Reservation) (instance_id : ℕ) (w : World)
    → (bind_to_instance r instance_id w).0 ≡ ok tt
    → (bind_to_instance r instance_id w).1.db.slots
      ≡ update_where (releases (slot_ids r.slots)) (bind_row instance_id) w.db.slots
unfolding bind_to_instance
bound_rows r instance_id w h =
    let (v, same, drawn, done, e) = in_tx-ok (bind_all r.slots instance_id) w h in
    ap (λ db. db.slots) e
    ∙ bind_all_rows r.slots instance_id v done
    ∙ ap (λ db. update_where (releases (slot_ids r.slots)) (bind_row instance_id) db.slots) same

-- Freeing what the instance holds frees what was bound to it.
pub free_bound :
    (instance_id : ℕ) (ids : List ℕ) (slots : List GpuSlot)
    → count_where (holds instance_id) slots ≡ 0
    → update_where
        (holds instance_id)
        free_row
        (update_where (releases ids) (bind_row instance_id) slots)
      ≡ update_where (releases ids) free_row slots
free_bound instance_id ids [] h = refl
free_bound instance_id ids (s ∷ slots) h = ground (arith, free_bound instance_id ids slots)

pub freed_rows :
    (id : ℕ) (w : World)
    → w.faults ≡ []
    → (release_for_instance id w).1.db.slots ≡ update_where (holds id) free_row w.db.slots
unfolding release_for_instance release_slots_for_instance statement
freed_rows id w f = ground arith

bind_all-Quiet : (rows : List GpuSlot) (id : ℕ) → Quiet (bind_all rows id)
unfolding bind_all
bind_all-Quiet [] id = λ w h. h
bind_all-Quiet (s ∷ rest) id =
    bind-Quiet (statement (bind_slot_to_instance s.id id)) (λ _. bind_all rest id)
      (statement-Quiet (bind_slot_to_instance s.id id)) (λ _. bind_all-Quiet rest id)

pub bind_to_instance-Quiet : (r : Reservation) (id : ℕ) → Quiet (bind_to_instance r id)
unfolding bind_to_instance
bind_to_instance-Quiet r id = in_tx-Quiet (bind_all r.slots id) (bind_all-Quiet r.slots id)

-- Over a connection that works, releasing the instance to which a reservation was bound frees the
-- reserved slots of the reservation and changes no other slot, when the instance held no slot before.
pub released_bound :
    (r : Reservation) (id : ℕ) (w : World)
    → w.faults ≡ []
    → count_where (holds id) w.db.slots ≡ 0
    → (bind_to_instance r id w).0 ≡ ok tt
    → (release_for_instance id (bind_to_instance r id w).1).1.db.slots
      ≡ update_where (releases (slot_ids r.slots)) free_row w.db.slots
released_bound r id w f none_held h =
    freed_rows id (bind_to_instance r id w).1 (bind_to_instance-Quiet r id w f)
    ∙ ap (update_where (holds id) free_row) (bound_rows r id w h)
    ∙ free_bound id (slot_ids r.slots) w.db.slots none_held
