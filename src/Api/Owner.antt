-- ===== src/Api/Owner.antt =====
-- What users do with their own instances (services/main-api/internal/api/user_instances.go), with the
-- slot repository wired. Their creations are `create_for_owner` of Api/Create.
use hybrid_cloud_with_claude.Prelude.{
  ℕ, ◌==◌, ◌||◌, Bool, false, not, String, Option, some, none, List, map, if◌then◌else◌,
}
use hybrid_cloud_with_claude.Schema.{stopping, stopped, failed, state_eq, Instance}
use hybrid_cloud_with_claude.Store.{
  invalid_transition, no_rows, Result, ok, err, Q, ◌>>◌, pure, attempt, statement,
}
use hybrid_cloud_with_claude.Instance.Queries.{list_instances}
use hybrid_cloud_with_claude.Instance.Repo.{because, get, transition, delete}
use hybrid_cloud_with_claude.Slot.Repo.{release_for_instance}
use hybrid_cloud_with_claude.Api.View.{
  Reply, refused, shown, listed, destroy_instance, to_instance_view, Dispatcher, Codec,
}
use hybrid_cloud_with_claude.Api.Create.{ignore}
use hybrid_cloud_with_claude.Api.Destroy.{after_remove, after_send}

abbrev is_owner : ℕ → Option ℕ → Bool
is_owner user none = false
is_owner user (some owner) = owner == user

-- ownsInstance
abbrev pub owns_instance : Instance → ℕ → Bool
owns_instance inst user = is_owner user inst.owner_id

-- ListForOwner (instance/repo.go)
unfoldable pub list_for_owner : Option ℕ → Q (List Instance)
unfolding list_instances statement
list_for_owner owner = statement (list_instances owner)

module _ (codec : Codec) (dispatcher : Dispatcher) where
  abbrev after_list : Result (List Instance) → Q Reply
  after_list (err e) = pure (refused 500 "list_failed")
  after_list (ok rows) = pure (listed (map to_instance_view rows))

  -- List
  unfoldable pub list_own : ℕ → Q Reply
  unfolding list_for_owner
  list_own user = attempt (list_for_owner (some user)) after_list

  -- How Get and Delete begin: the owner's row, or the reply that refuses.
  abbrev pub with_own : ℕ → (Instance → Q Reply) → Result Instance → Q Reply
  with_own user k (err no_rows) = pure (refused 404 "not_found")
  with_own user k (err e) = pure (refused 500 "lookup_failed")
  with_own user k (ok inst) =
      if not (owns_instance inst user) then pure (refused 404 "not_found") else k inst

  abbrev with_own_id : ℕ → (ℕ → Instance → Q Reply) → Option ℕ → Q Reply
  with_own_id user k none = pure (refused 400 "bad_id")
  with_own_id user k (some id) = attempt (get id) (with_own user (k id))

  abbrev show : ℕ → Instance → Q Reply
  show id inst = pure (shown (to_instance_view inst))

  -- Get
  unfoldable pub get_own : ℕ → String → Q Reply
  unfolding get
  get_own user id_text = with_own_id user show (codec.parse_uuid id_text)

  abbrev after_stop : Instance → Result Instance → Q Reply
  after_stop inst (ok _) =
      after_send codec dispatcher (dispatcher.send inst.node_id (destroy_instance inst.id))
  after_stop inst (err invalid_transition) =
      after_send codec dispatcher (dispatcher.send inst.node_id (destroy_instance inst.id))
  after_stop inst (err e) = pure (refused 500 "transition_failed")

  abbrev pub remove_own : ℕ → Instance → Q Reply
  remove_own id inst =
      if state_eq inst.state stopped || state_eq inst.state failed
      then ignore (release_for_instance id) >> attempt (delete id) (after_remove codec dispatcher)
      else attempt (transition id stopping (because "user_delete")) (after_stop inst)

  -- Delete
  unfoldable pub delete_own : ℕ → String → Q Reply
  unfolding get delete transition release_for_instance state_eq
  delete_own user id_text = with_own_id user remove_own (codec.parse_uuid id_text)
