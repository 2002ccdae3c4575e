-- ===== src/Invariant.antt =====
-- The invariant of the tables that the API handlers and the agent stream of services/main-api share:
-- the audit log tells the state of every instance, and the slots are consistent.
use hybrid_cloud_with_claude.Prelude.{
  ℕ, ◌==◌, ◌≡◌, inl, inr, sym, subst, List, [], ◌∷◌, All, length, find_where, any_where,
  Option-cases, Bool-cases,
}
use hybrid_cloud_with_claude.Prelude.Int.{ℤ, pos, leb_ℤ}
use hybrid_cloud_with_claude.Schema.{InstanceState, GpuSlot, Db}
use hybrid_cloud_with_claude.Store.{ok, Q, ◌>>=◌, pure, fail, statement, in_tx, bad_count}
use hybrid_cloud_with_claude.Store.Keeps.{Keeps, statement-Keeps, bind-Keeps, in_tx-Keeps, if-Keeps}
use hybrid_cloud_with_claude.Instance.Queries.{CreateInput}
use hybrid_cloud_with_claude.Instance.Repo.{TransitionOptions, create, transition}
use hybrid_cloud_with_claude.Instance.Audit.{
  Audited, transition-Audited, create-Audited, transition_slots, create_slots,
}
use hybrid_cloud_with_claude.Slot.Picked.{DistinctIds}
use hybrid_cloud_with_claude.Slot.Queries.{
  Collation, is_reserved_at, reserve_free_slots, bind_slot_to_instance, release_reserved_slots,
  release_slots_for_instance,
}
use hybrid_cloud_with_claude.Slot.Repo.{
  Reservation, ids, lock_node_for_reservation, reserve, reserve_body, bind_all, bind_to_instance,
  release_reserved, release_for_instance,
}
use hybrid_cloud_with_claude.Slot.Invariant.{
  reserve-SlotsValid, bind_to_instance-SlotsValid, release_reserved-SlotsValid,
  release_for_instance-SlotsValid,
}
use hybrid_cloud_with_claude.Slot.Valid.{SlotsValid, IsConsistent}

pub record Sound (db : Db) : Type 0 where
  pub audited : Audited db
  pub slots_valid : SlotsValid db

-- A program that leaves the slots alone keeps them valid.
same_slots : (a b : Db) → b.slots ≡ a.slots → SlotsValid a → SlotsValid b
same_slots a b e v = record {
  distinct = subst DistinctIds (sym e) v.distinct;
  consistent_rows = subst (All IsConsistent) (sym e) v.consistent_rows;
}

pub transition-Sound :
    (id : ℕ) (to : InstanceState) (opts : TransitionOptions) → Keeps Sound (transition id to opts)
transition-Sound id to opts w s = record {
  audited = transition-Audited id to opts w s.audited;
  slots_valid =
      same_slots w.db (transition id to opts w).1.db (transition_slots id to opts w) s.slots_valid;
}

pub create-Sound : (input : CreateInput) → Keeps Sound (create input)
create-Sound input w s = record {
  audited = create-Audited input w s.audited;
  slots_valid = same_slots w.db (create input w).1.db (create_slots input w) s.slots_valid;
}

pub release_for_instance-Sound : (id : ℕ) → Keeps Sound (release_for_instance id)
release_for_instance-Sound id w s = record {
  audited =
      unfold release_for_instance release_slots_for_instance in
      statement-Keeps Audited (release_slots_for_instance id) (λ db a. a) w s.audited;
  slots_valid = release_for_instance-SlotsValid id w s.slots_valid;
}

-- A program that keeps the two parts keeps the whole.
pub both-Sound : {A : Type 0} (m : Q A) → Keeps Audited m → Keeps SlotsValid m → Keeps Sound m
both-Sound m ka ks w s = record { audited = ka w s.audited; slots_valid = ks w s.slots_valid }

reserve-Audited :
    (text_le : Collation) (node_id : ℕ) (size count : ℤ)
    → Keeps Audited (reserve text_le node_id size count)
unfolding reserve reserve_body lock_node_for_reservation
reserve-Audited text_le node_id size count =
    if-Keeps Audited (leb_ℤ count (pos 0)) (fail bad_count)
      (in_tx (reserve_body text_le node_id size count) >>= λ slots. pure (record { slots = slots }))
      (λ w a. a)
      (bind-Keeps Audited (in_tx (reserve_body text_le node_id size count)) _
        (in_tx-Keeps Audited (reserve_body text_le node_id size count) (
          bind-Keeps Audited (lock_node_for_reservation node_id) _
            (statement-Keeps Audited (λ db. (ok tt, db)) (λ db a. a))
            λ _.
              bind-Keeps Audited (statement (reserve_free_slots text_le node_id size count)) _
                (statement-Keeps Audited (reserve_free_slots text_le node_id size count)
                  (unfold reserve_free_slots in λ db a. a))
                (λ slots w a. a)))
        (λ slots w a. a))

pub reserve-Sound :
    (text_le : Collation) (node_id : ℕ) (size count : ℤ)
    → Keeps Sound (reserve text_le node_id size count)
reserve-Sound text_le node_id size count =
    both-Sound (reserve text_le node_id size count) (reserve-Audited text_le node_id size count)
      (reserve-SlotsValid text_le node_id size count)

bind_slot_to_instance-Audited :
    (id instance_id : ℕ) (db : Db)
    → Audited db
    → Audited (bind_slot_to_instance id instance_id db).1
unfolding bind_slot_to_instance
bind_slot_to_instance-Audited id instance_id db a =
    elim (Option-cases (find_where (is_reserved_at id) db.slots)) [
      | inl e ↦ rw (e, bind_slot_to_instance) a
      | inr (s, e) ↦
          rw (e, bind_slot_to_instance)
            (elim (Bool-cases (any_where (λ i. i.id == instance_id) db.instances)) [
              | inl yes_there ↦ rw yes_there a
              | inr not_there ↦ rw not_there a
            ])
    ]

bind_all-Audited : (slots : List GpuSlot) (id : ℕ) → Keeps Audited (bind_all slots id)
unfolding bind_all
bind_all-Audited [] id = λ w a. a
bind_all-Audited (s ∷ rest) id =
    bind-Keeps Audited (statement (bind_slot_to_instance s.id id)) (λ _. bind_all rest id)
      (statement-Keeps Audited (bind_slot_to_instance s.id id)
        (λ db. bind_slot_to_instance-Audited s.id id db))
      (λ _. bind_all-Audited rest id)

pub bind_to_instance-Sound : (r : Reservation) (id : ℕ) → Keeps Sound (bind_to_instance r id)
bind_to_instance-Sound r id =
    both-Sound (bind_to_instance r id)
      (unfold bind_to_instance in
        in_tx-Keeps Audited (bind_all r.slots id) (bind_all-Audited r.slots id))
      (bind_to_instance-SlotsValid r id)

release_reserved-Audited : (r : Reservation) → Keeps Audited (release_reserved r)
unfolding release_reserved
release_reserved-Audited r =
    if-Keeps Audited (length r.slots == 0) (pure tt)
      (statement (release_reserved_slots (ids r)) >>= λ n. pure tt) (λ w a. a)
      (bind-Keeps Audited (statement (release_reserved_slots (ids r))) _
        (statement-Keeps Audited (release_reserved_slots (ids r))
          (unfold release_reserved_slots in λ db a. a))
        (λ n w a. a))

pub release_reserved-Sound : (r : Reservation) → Keeps Sound (release_reserved r)
release_reserved-Sound r =
    both-Sound (release_reserved r) (release_reserved-Audited r) (release_reserved-SlotsValid r)
