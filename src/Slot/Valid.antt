-- ===== src/Slot/Valid.antt =====
-- The invariant of the slots: no id twice, and a slot names an instance exactly while it is in use.
-- Every statement of services/main-api/internal/db/dbstore/slots.sql.go keeps it.
use hybrid_cloud_with_claude.Prelude.{
  ℕ, ◌+◌, ◌≤◌, ◌==◌, ◌≡◌, inl, inr, refl, Bool, true, false, ◌&&◌, ◌||◌, Option, some, none, List,
  [], ◌∷◌, ◌++◌, All, Pointwise, find_where, update_where, delete_where, count_where, any_where,
  String, Option-cases, Bool-cases, arith,
}
use hybrid_cloud_with_claude.Prelude.Int.{ℤ, eq_ℤ}
use hybrid_cloud_with_claude.Schema.{SlotStatus, in_use, GpuSlot, Db}
use hybrid_cloud_with_claude.Instance.Queries.{holds}
use hybrid_cloud_with_claude.Slot.Queries.{
  Collation, slot_at, id_in, slot_ids, picked, reserve_row, free_row, bind_row, is_reserved_at,
  new_slot, on_node, InsertSlotParams, reserve_free_slots, bind_slot_to_instance,
  delete_slots_for_node, insert_slot, release_all_orphan_reserved_slots, release_reserved_slots,
  release_slots_for_instance, update_node_profile_hash,
}
use hybrid_cloud_with_claude.Slot.Repo.{ids}
use hybrid_cloud_with_claude.Slot.Picked.{DistinctIds, picked-candidates}
use hybrid_cloud_with_claude.Slot.Reserve.{Taken, update-Taken}

abbrev pub consistent : SlotStatus → Option ℕ → Bool
consistent in_use none = false
consistent in_use (some _) = true
consistent _ none = true
consistent _ (some _) = false

abbrev pub IsConsistent : GpuSlot → Type 0
IsConsistent s = consistent s.status s.current_instance_id ≡ true

pub record SlotsValid (db : Db) : Type 0 where
  pub distinct : DistinctIds db.slots
  pub consistent_rows : All IsConsistent db.slots

update-IsConsistent :
    (p : GpuSlot → Bool) (f : GpuSlot → GpuSlot) (slots : List GpuSlot)
    → ((s : GpuSlot) → IsConsistent (f s))
    → All IsConsistent slots
    → All IsConsistent (update_where p f slots)
update-IsConsistent p f [] k h = tt
update-IsConsistent p f (s ∷ slots) k h =
    (ground (arith, k s, h.0), update-IsConsistent p f slots k h.1)

Taken-IsConsistent :
    (node_id : ℕ) (size : ℤ) (xs ys : List GpuSlot)
    → Pointwise (Taken node_id size) xs ys
    → All IsConsistent xs
    → All IsConsistent ys
Taken-IsConsistent node_id size [] [] t h = tt
Taken-IsConsistent node_id size [] (y ∷ ys) t h = absurd t
Taken-IsConsistent node_id size (x ∷ xs) [] t h = absurd t
Taken-IsConsistent node_id size (x ∷ xs) (y ∷ ys) t h =
    (ground (arith, t.0, h.0), Taken-IsConsistent node_id size xs ys t.1 h.1)

-- An update that leaves the ids alone.
count-update :
    (u : ℕ) (p : GpuSlot → Bool) (f : GpuSlot → GpuSlot) (slots : List GpuSlot)
    → ((s : GpuSlot) → (f s).id ≡ s.id)
    → count_where (slot_at u) (update_where p f slots) ≡ count_where (slot_at u) slots
count-update u p f [] k = refl
count-update u p f (s ∷ slots) k = ground (arith, k s, count-update u p f slots k)

-- SlotsValid after an update of the rows.
update-SlotsValid :
    (p : GpuSlot → Bool) (f : GpuSlot → GpuSlot) (db : Db)
    → ((s : GpuSlot) → (f s).id ≡ s.id)
    → ((s : GpuSlot) → IsConsistent (f s))
    → SlotsValid db
    → SlotsValid (record db { slots = update_where p f db.slots })
update-SlotsValid p f db same k v = record {
  distinct = λ u. omega (arith, count-update u p f db.slots same, v.distinct u);
  consistent_rows = update-IsConsistent p f db.slots k v.consistent_rows;
}

pub reserve_free_slots-SlotsValid :
    (text_le : Collation) (node_id : ℕ) (size limit : ℤ) (db : Db)
    → SlotsValid db
    → SlotsValid (reserve_free_slots text_le node_id size limit db).1
unfolding reserve_free_slots
reserve_free_slots-SlotsValid text_le node_id size limit db v = record {
  distinct = λ u. omega (
    arith,
    count-update u (id_in (slot_ids (picked text_le node_id size limit db.slots))) reserve_row
        db.slots (λ s. refl),
    v.distinct u,
  );
  consistent_rows =
      Taken-IsConsistent node_id size db.slots _
        (update-Taken node_id size (slot_ids (picked text_le node_id size limit db.slots)) db.slots
          (picked-candidates text_le node_id size limit db.slots v.distinct))
        v.consistent_rows;
}

pub bind_slot_to_instance-SlotsValid :
    (id instance_id : ℕ) (db : Db)
    → SlotsValid db
    → SlotsValid (bind_slot_to_instance id instance_id db).1
unfolding bind_slot_to_instance
bind_slot_to_instance-SlotsValid id instance_id db v =
    elim (Option-cases (find_where (is_reserved_at id) db.slots)) [
      | inl e ↦ rw (e, bind_slot_to_instance) v
      | inr (s, e) ↦
          rw (e, bind_slot_to_instance)
            (elim (Bool-cases (any_where (λ i. i.id == instance_id) db.instances)) [
              | inl yes_there ↦ rw yes_there (
                  update-SlotsValid (is_reserved_at id) (bind_row instance_id) db (λ s. refl)
                    (λ s. refl) v)
              | inr not_there ↦ rw not_there v
            ])
    ]

pub release_reserved_slots-SlotsValid :
    (ids : List ℕ) (db : Db) → SlotsValid db → SlotsValid (release_reserved_slots ids db).1
unfolding release_reserved_slots
release_reserved_slots-SlotsValid ids db v =
    update-SlotsValid _ free_row db (λ s. refl) (λ s. refl) v

pub release_slots_for_instance-SlotsValid :
    (id : ℕ) (db : Db) → SlotsValid db → SlotsValid (release_slots_for_instance id db).1
unfolding release_slots_for_instance
release_slots_for_instance-SlotsValid id db v =
    update-SlotsValid (holds id) free_row db (λ s. refl) (λ s. refl) v

pub release_all_orphan_reserved_slots-SlotsValid :
    (db : Db) → SlotsValid db → SlotsValid (release_all_orphan_reserved_slots db).1
unfolding release_all_orphan_reserved_slots
release_all_orphan_reserved_slots-SlotsValid db v =
    update-SlotsValid _ free_row db (λ s. refl) (λ s. refl) v

count-delete :
    (u : ℕ) (p : GpuSlot → Bool) (slots : List GpuSlot)
    → count_where (slot_at u) (delete_where p slots) ≤ count_where (slot_at u) slots
count-delete u p [] = omega arith
count-delete u p (s ∷ slots) = ground (arith, count-delete u p slots)

delete-IsConsistent :
    (p : GpuSlot → Bool) (slots : List GpuSlot)
    → All IsConsistent slots
    → All IsConsistent (delete_where p slots)
delete-IsConsistent p [] h = tt
delete-IsConsistent p (s ∷ slots) h = ground (arith, h.0, delete-IsConsistent p slots h.1)

pub delete_slots_for_node-SlotsValid :
    (node_id : ℕ) (db : Db) → SlotsValid db → SlotsValid (delete_slots_for_node node_id db).1
unfolding delete_slots_for_node
delete_slots_for_node-SlotsValid node_id db v = record {
  distinct = λ u. omega (arith, count-delete u (on_node node_id) db.slots, v.distinct u);
  consistent_rows = delete-IsConsistent (on_node node_id) db.slots v.consistent_rows;
}

append-IsConsistent :
    (slots : List GpuSlot) (s : GpuSlot)
    → All IsConsistent slots
    → IsConsistent s
    → All IsConsistent (slots ++ s ∷ [])
append-IsConsistent [] s h k = (k, tt)
append-IsConsistent (x ∷ slots) s h k = (h.0, append-IsConsistent slots s h.1 k)

count-append :
    (u : ℕ) (slots : List GpuSlot) (s : GpuSlot)
    → count_where (slot_at u) (slots ++ s ∷ [])
      ≡ count_where (slot_at u) slots + count_where (slot_at u) (s ∷ [])
count-append u [] s = omega arith
count-append u (x ∷ slots) s = ground (arith, count-append u slots s)

-- A row that no row of the table clashes with has an id of its own.
count-fresh :
    (id : ℕ) (clash : GpuSlot → Bool) (slots : List GpuSlot)
    → any_where (λ s. s.id == id || clash s) slots ≡ false
    → count_where (slot_at id) slots ≡ 0
count-fresh id clash [] h = refl
count-fresh id clash (s ∷ slots) h = ground (arith, count-fresh id clash slots)

abbrev clashes : InsertSlotParams → GpuSlot → Bool
clashes p s = on_node p.node_id s && eq_ℤ s.slot_index p.slot_index

appended-SlotsValid :
    (uuid : ℕ) (p : InsertSlotParams) (db : Db)
    → any_where (λ s. s.id == uuid || clashes p s) db.slots ≡ false
    → SlotsValid db
    → SlotsValid (record db { slots = db.slots ++ new_slot uuid p ∷ [] })
appended-SlotsValid uuid p db fresh v = record {
  distinct = λ u. ground (
    arith,
    count-append u db.slots (new_slot uuid p),
    count-fresh uuid (clashes p) db.slots fresh,
    v.distinct u,
  );
  consistent_rows = append-IsConsistent db.slots (new_slot uuid p) v.consistent_rows refl;
}

pub insert_slot-SlotsValid :
    (uuid : ℕ) (p : InsertSlotParams) (db : Db)
    → SlotsValid db
    → SlotsValid (insert_slot uuid p db).1
unfolding insert_slot
insert_slot-SlotsValid uuid p db v =
    elim (Bool-cases (any_where (λ s. s.id == uuid || clashes p s) db.slots)) [
      | inl clash ↦ ground arith
      | inr fresh ↦ ground (arith, appended-SlotsValid uuid p db fresh v)
    ]

pub update_node_profile_hash-SlotsValid :
    (now id : ℕ) (hash : String) (db : Db)
    → SlotsValid db
    → SlotsValid (update_node_profile_hash now id hash db).1
unfolding update_node_profile_hash
update_node_profile_hash-SlotsValid now id hash db v = record {
  distinct = v.distinct;
  consistent_rows = v.consistent_rows;
}
