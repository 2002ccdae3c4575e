-- ===== src/Api/Refused.antt =====
-- The creation of an instance with GPUs that ends in a refusal
-- (runCreate of services/main-api/internal/api/admin_instances.go).
use hybrid_cloud_with_claude.Prelude.{
  ℕ, ◌≤◌, ◌≡◌, refl, sym, ap, ◌∙◌, subst, inl, inr, true, false, String, Option, none, List, [],
  ◌∷◌, length, update_where, count_where, arith,
}
use hybrid_cloud_with_claude.Prelude.Int.{ℤ, pos, ltb_ℤ, eq_ℤ}
use hybrid_cloud_with_claude.Schema.{Instance, GpuSlot, Node, Db}
use hybrid_cloud_with_claude.Store.{
  World, Error, Result, ok, err, no_free_slots, Q, Result-cases, ◌>>=◌,
}
use hybrid_cloud_with_claude.Store.Quiet.{Quiet}
use hybrid_cloud_with_claude.Instance.Queries.{CreateInput, holds}
use hybrid_cloud_with_claude.Instance.Repo.{create}
use hybrid_cloud_with_claude.Instance.Rows.{row_of, any-row_of}
use hybrid_cloud_with_claude.Instance.Audit.{create_slots}
use hybrid_cloud_with_claude.Slot.Queries.{Collation, slot_ids, free_row}
use hybrid_cloud_with_claude.Slot.Repo.{Reservation, reserve}
use hybrid_cloud_with_claude.Slot.Reserve.{reserved_rows, taken_ids, reserve_shape, reserve-err}
use hybrid_cloud_with_claude.Slot.Valid.{SlotsValid}
use hybrid_cloud_with_claude.Slot.Undo.{releases, released_rows, reserve_faults, release-reserve}
use hybrid_cloud_with_claude.Api.View.{
  CreateInstanceRequest, Reply, refused, Dispatcher, Codec, resolve_passthrough_pci,
}
use hybrid_cloud_with_claude.Api.Create.{
  after_reserve, reserve_if_needed, resolved, create_with, input_of, run_create,
}
use hybrid_cloud_with_claude.Api.Undo.{Undone, after_create-Undone}

-- `current_instance_id` refers to a row of `instances`.
abbrev pub Refers : Db → Type 0
Refers db = (id : ℕ) → row_of id db.instances ≡ none → count_where (holds id) db.slots ≡ 0

create_fresh :
    (input : CreateInput) (w : World) {inst : Instance}
    → (create input w).0 ≡ ok inst
    → row_of inst.id w.db.instances ≡ none
unfolding create
create_fresh input w h = ground (arith, any-row_of (w.uuids w.drawn) w.db.instances)

create-Quiet : (input : CreateInput) → Quiet (create input)
unfolding create
create-Quiet input w f = ground arith

count-holds_reserved :
    (id : ℕ) (taken : List ℕ) (slots : List GpuSlot)
    → count_where (holds id) (reserved_rows taken slots) ≡ count_where (holds id) slots
count-holds_reserved id taken [] = refl
count-holds_reserved id taken (s ∷ slots) = ground (arith, count-holds_reserved id taken slots)

reserve_instances :
    (text_le : Collation) (node_id : ℕ) (size count : ℤ) (w : World)
    → w.faults ≡ []
    → (reserve text_le node_id size count w).1.db.instances ≡ w.db.instances
unfolding reserve
reserve_instances text_le node_id size count w f = ground arith

module _ (codec : Codec) (dispatcher : Dispatcher) (text_le : Collation)
    (before : List GpuSlot) where
  create_with-Undone :
      (req : CreateInstanceRequest) (node : Node) (owner : Option ℕ) (res : Reservation) (w : World)
      → ltb_ℤ (pos 0) req.gpu_count ≡ true
      → w.faults ≡ []
      → 1 ≤ length res.slots
      → Refers w.db
      → update_where (releases (slot_ids res.slots)) free_row w.db.slots ≡ before
      → (r : Result (List String))
      → Undone codec dispatcher text_le before (
          (resolved codec dispatcher text_le res r
              >>= create_with codec dispatcher text_le req node owner)
            w)
  create_with-Undone req node owner res w g f n refers e (err x) =
      λ code text h. released_rows res w f n ∙ e
  create_with-Undone req node owner res w g f n refers e (ok pci) =
      let input = input_of codec dispatcher text_le req node owner res in
      let same = create_slots input w in
      after_create-Undone codec dispatcher text_le before req node res pci (create input w).0
        (create input w).1 g (create-Quiet input w f) n
        (λ inst h. ap (count_where (holds inst.id)) same ∙ refers inst.id (create_fresh input w h))
        (ap (update_where (releases (slot_ids res.slots)) free_row) same ∙ e)

  after_reserve-Undone :
      (req : CreateInstanceRequest) (node : Node) (owner : Option ℕ) (e : Error) (w : World)
      → w.db.slots ≡ before
      → Undone codec dispatcher text_le before (
          (after_reserve codec dispatcher text_le node (err e)
              >>= create_with codec dispatcher text_le req node owner)
            w)
  after_reserve-Undone req node owner no_free_slots w same = λ code text h. same
  after_reserve-Undone req node owner _ w same = λ code text h. same

-- Over a connection that works, a request for an instance with GPUs that is refused, at whatever
-- point, leaves every slot as it was, when the slots are valid and refer to rows that are there.
pub run_create-refused :
    (codec : Codec) (dispatcher : Dispatcher) (text_le : Collation) (req : CreateInstanceRequest)
    (node : Node) (owner : Option ℕ) (w : World) (code : ℕ) (text : String)
    → w.faults ≡ []
    → SlotsValid w.db
    → Refers w.db
    → ltb_ℤ (pos 0) req.gpu_count ≡ true
    → (run_create codec dispatcher text_le req node owner w).0 ≡ ok (refused code text)
    → (run_create codec dispatcher text_le req node owner w).1.db.slots ≡ w.db.slots
unfolding run_create reserve_if_needed
run_create-refused codec dispatcher text_le req node owner w code text f v refers g =
    let r = reserve text_le node.id req.gpu_count (pos 1) w in
    let next : Result Reservation → Q Reply = λ x.
      after_reserve codec dispatcher text_le node x
      >>= create_with codec dispatcher text_le req node owner in
    let nonzero : eq_ℤ req.gpu_count (pos 0) ≡ false = ground arith in
    let done : Undone codec dispatcher text_le w.db.slots (next r.0 r.1) = elim (Result-cases r.0) [
      | inl (res, h) ↦
          let (positive, rows, after, at_least) =
            reserve_shape text_le node.id req.gpu_count (pos 1) w res h in
          let quiet = reserve_faults text_le node.id req.gpu_count (pos 1) w f in
          let n : 1 ≤ length res.slots = rw rows (omega arith) in
          subst (λ x. Undone codec dispatcher text_le w.db.slots (next x r.1)) (sym h)
            (create_with-Undone codec dispatcher text_le w.db.slots req node owner res r.1 g quiet n
              (λ id missing.
                ap (count_where (holds id)) after
                ∙ count-holds_reserved id (taken_ids text_le node.id req.gpu_count (pos 1) w)
                    w.db.slots
                ∙ refers id (
                    subst (λ l. row_of id l ≡ none)
                      (reserve_instances text_le node.id req.gpu_count (pos 1) w f) missing))
              (sym (released_rows res r.1 quiet n)
                ∙ release-reserve text_le node.id req.gpu_count (pos 1) w res f v h)
              (resolve_passthrough_pci codec node.topology_json res.slots))
      | inr (x, h) ↦
          subst (λ y. Undone codec dispatcher text_le w.db.slots (next y r.1)) (sym h)
            (after_reserve-Undone codec dispatcher text_le w.db.slots req node owner x r.1
              (ap (λ db. db.slots) (reserve-err text_le node.id req.gpu_count (pos 1) w h)))
    ] in
    rw nonzero (done code text)
