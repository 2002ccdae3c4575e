-- ===== src/Api/Undo.antt =====
-- A creation that is refused gives its slots back (runCreate of
-- services/main-api/internal/api/admin_instances.go).
use hybrid_cloud_with_claude.Prelude.{
  ℕ, ◌≤◌, ◌≡◌, refl, sym, ap, ◌∙◌, Bool, true, false, String, List, [], length, update_where,
  count_where, if◌then◌else◌, arith,
}
use hybrid_cloud_with_claude.Prelude.Int.{pos, ltb_ℤ}
use hybrid_cloud_with_claude.Schema.{failed, Instance, GpuSlot, Node}
use hybrid_cloud_with_claude.Store.{World, Error, Result, ok, err}
use hybrid_cloud_with_claude.Store.Laws.{in_tx-err}
use hybrid_cloud_with_claude.Instance.Queries.{holds}
use hybrid_cloud_with_claude.Instance.Audit.{transition_slots}
use hybrid_cloud_with_claude.Slot.Queries.{Collation, slot_ids, free_row}
use hybrid_cloud_with_claude.Slot.Repo.{
  Reservation, slot_indices, bind_all, bind_to_instance, release_reserved, release_for_instance,
}
use hybrid_cloud_with_claude.Slot.Undo.{releases, released_rows}
use hybrid_cloud_with_claude.Slot.Bound.{bind_to_instance-Quiet, freed_rows, released_bound}
use hybrid_cloud_with_claude.Api.View.{
  CreateInstanceRequest, Reply, refused, create_instance, Dispatcher, Codec,
}
use hybrid_cloud_with_claude.Api.Create.{
  failed_options, mark_failed, after_dispatch, after_bind, after_create,
}

module _ (codec : Codec) (dispatcher : Dispatcher) (text_le : Collation)
    (before : List GpuSlot) where
  -- A reply that refuses leaves the slots of before.
  abbrev pub Undone : Result Reply × World → Type 0
  Undone r = (code : ℕ) (text : String) → r.0 ≡ ok (refused code text) → r.1.db.slots ≡ before

  after_dispatch-Undone :
      (req : CreateInstanceRequest) (inst : Instance) (r : Result (Unit {0})) (w : World) (b : Bool)
      → ltb_ℤ (pos 0) req.gpu_count ≡ b
      → w.faults ≡ []
      → (if b then update_where (holds inst.id) free_row w.db.slots else w.db.slots) ≡ before
      → Undone (after_dispatch codec dispatcher text_le req inst r w)
  unfolding mark_failed
  after_dispatch-Undone req inst (ok _) w b g f e = λ code text h. absurd (ground arith)
  after_dispatch-Undone req inst (err x) w true g f e = rw g λ code text h.
      transition_slots inst.id failed (failed_options codec "dispatch_failed" x)
        (release_for_instance inst.id w).1
      ∙ freed_rows inst.id w f
      ∙ e
  after_dispatch-Undone req inst (err x) w false g f e = rw g (λ code text h.
      transition_slots inst.id failed (failed_options codec "dispatch_failed" x) w ∙ e)

  bind_err :
      (res : Reservation) (id : ℕ) (w : World) {x : Error}
      → (bind_to_instance res id w).0 ≡ err x
      → (bind_to_instance res id w).1.db ≡ w.db
  unfolding bind_to_instance
  bind_err res id w h = in_tx-err (bind_all res.slots id) w h

  after_bind-Undone :
      (req : CreateInstanceRequest) (node : Node) (res : Reservation) (pci : List String)
      (inst : Instance) (w : World)
      → ltb_ℤ (pos 0) req.gpu_count ≡ true
      → w.faults ≡ []
      → 1 ≤ length res.slots
      → count_where (holds inst.id) w.db.slots ≡ 0
      → update_where (releases (slot_ids res.slots)) free_row w.db.slots ≡ before
      → (r : Result (Unit {0})) → (bind_to_instance res inst.id w).0 ≡ r
      → Undone (
          after_bind codec dispatcher text_le req node res pci inst r
            (bind_to_instance res inst.id w).1)
  unfolding mark_failed
  after_bind-Undone req node res pci inst w g f n held e (ok _) h =
      after_dispatch-Undone req inst
        (dispatcher.send node.id (create_instance inst (slot_indices res) pci))
        (bind_to_instance res inst.id w).1 true g (bind_to_instance-Quiet res inst.id w f)
        (sym (
            freed_rows inst.id (bind_to_instance res inst.id w).1
              (bind_to_instance-Quiet res inst.id w f))
          ∙ released_bound res inst.id w f held h
          ∙ e)
  after_bind-Undone req node res pci inst w g f n held e (err x) h = λ code text k.
      transition_slots inst.id failed (failed_options codec "bind_failed" x)
        (release_reserved res (bind_to_instance res inst.id w).1).1
      ∙ released_rows res (bind_to_instance res inst.id w).1
          (bind_to_instance-Quiet res inst.id w f) n
      ∙ ap (λ db. update_where (releases (slot_ids res.slots)) free_row db.slots)
          (bind_err res inst.id w h)
      ∙ e

  -- The two things that may follow the creation of the row, with GPUs and without.
  pub after_create-Undone :
      (req : CreateInstanceRequest) (node : Node) (res : Reservation) (pci : List String)
      (r : Result Instance) (w : World)
      → ltb_ℤ (pos 0) req.gpu_count ≡ true
      → w.faults ≡ []
      → 1 ≤ length res.slots
      → ((inst : Instance) → r ≡ ok inst → count_where (holds inst.id) w.db.slots ≡ 0)
      → update_where (releases (slot_ids res.slots)) free_row w.db.slots ≡ before
      → Undone (after_create codec dispatcher text_le req node res pci r w)
  after_create-Undone req node res pci (err x) w g f n held e =
      rw g (λ code text h. released_rows res w f n ∙ e)
  after_create-Undone req node res pci (ok inst) w g f n held e = rw g (
      after_bind-Undone req node res pci inst w g f n (held inst refl) e
        (bind_to_instance res inst.id w).0 refl)
