-- ===== src/Api/Destroy.antt =====
-- The removal of an instance (Delete of services/main-api/internal/api/admin_instances.go).
use hybrid_cloud_with_claude.Prelude.{ℕ, ◌||◌, String, Option, some, none, if◌then◌else◌}
use hybrid_cloud_with_claude.Schema.{stopping, stopped, failed, state_eq, Instance}
use hybrid_cloud_with_claude.Store.{
  invalid_transition, not_connected, Result, ok, err, Q, ◌>>◌, pure, attempt,
}
use hybrid_cloud_with_claude.Instance.Repo.{because, get, transition, delete}
use hybrid_cloud_with_claude.Slot.Repo.{release_for_instance}
use hybrid_cloud_with_claude.Api.View.{
  Reply, refused, accepted, no_content, destroy_instance, Dispatcher, Codec,
}
use hybrid_cloud_with_claude.Api.Create.{ignore}

module _ (codec : Codec) (dispatcher : Dispatcher) where
  abbrev pub after_remove : Result (Unit {0}) → Q Reply
  after_remove (ok _) = pure no_content
  after_remove (err e) = pure (refused 500 "delete_failed")

  abbrev pub after_send : Result (Unit {0}) → Q Reply
  after_send (ok _) = pure accepted
  after_send (err not_connected) = pure accepted
  after_send (err e) = pure (refused 502 "dispatch_failed")

  abbrev pub after_stop : Instance → Result Instance → Q Reply
  after_stop inst (ok _) = after_send (dispatcher.send inst.node_id (destroy_instance inst.id))
  after_stop inst (err invalid_transition) =
      after_send (dispatcher.send inst.node_id (destroy_instance inst.id))
  after_stop inst (err e) = pure (refused 500 "transition_failed")

  abbrev pub after_get : ℕ → Result Instance → Q Reply
  after_get id (err e) = pure (refused 404 "not_found")
  after_get id (ok inst) =
      if state_eq inst.state stopped || state_eq inst.state failed
      then ignore (release_for_instance id) >> attempt (delete id) after_remove
      else attempt (transition id stopping (because "admin_delete")) (after_stop inst)

  abbrev with_id : Option ℕ → Q Reply
  with_id none = pure (refused 400 "bad_id")
  with_id (some id) = attempt (get id) (after_get id)

  unfoldable pub destroy : String → Q Reply
  unfolding get delete transition release_for_instance state_eq
  destroy id_text = with_id (codec.parse_uuid id_text)
