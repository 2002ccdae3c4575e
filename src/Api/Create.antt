-- ===== src/Api/Create.antt =====
-- The creation of an instance (Create, CreateForOwner and runCreate of
-- services/main-api/internal/api/admin_instances.go), with the slot repository wired.
use hybrid_cloud_with_claude.Prelude.{
  ℕ, Bool, true, false, not, ◌||◌, String, str_eq, Option, some, none, List, [], if◌then◌else◌,
}
use hybrid_cloud_with_claude.Prelude.Int.{ℤ, pos, leb_ℤ, ltb_ℤ, eq_ℤ}
use hybrid_cloud_with_claude.Schema.{failed, online, node_status_eq, Instance, Node}
use hybrid_cloud_with_claude.Store.{
  Error, no_free_slots, Result, ok, err, Q, ◌>>=◌, ◌>>◌, pure, attempt, statement,
}
use hybrid_cloud_with_claude.Instance.Queries.{CreateInput}
use hybrid_cloud_with_claude.Instance.Repo.{TransitionOptions, create, transition}
use hybrid_cloud_with_claude.Slot.Queries.{Collation, get_node}
use hybrid_cloud_with_claude.Slot.Repo.{
  Reservation, slot_indices, reserve, bind_to_instance, release_reserved, release_for_instance,
}
use hybrid_cloud_with_claude.Credit.Repo.{balance}
use hybrid_cloud_with_claude.Api.View.{
  CreateInstanceRequest, Reply, refused, created, to_instance_view, create_instance, Dispatcher,
  Codec, resolve_passthrough_pci, merge_ssh_pubkeys,
}

-- The interfaces that CreateForOwner asks: the membership of teams and the stored keys.
pub record OwnerHooks : Type 0 where
  pub is_user_in_team : ℕ → ℕ → Result Bool
  pub extra_ssh_keys : ℕ → List String

-- The request and its node, or the reply that refuses it.
pub data Checked : Type 0 where
  stop : Reply → Checked
  proceed : CreateInstanceRequest → Node → Checked

-- A reservation (none for a request without GPUs) and its addresses, or the reply that refuses it.
pub data Reserved : Type 0 where
  no_slots : Reply → Reserved
  held : Reservation → List String → Reserved

abbrev no_reservation : Reservation
no_reservation = record { slots = [] }

abbrev pub ignore : {A : Type 0} → Q A → Q (Unit {0})
ignore m = attempt m (λ _. pure tt)

abbrev pub failed_options : Codec → String → Error → TransitionOptions
failed_options codec reason e = record {
  reason = reason;
  error_message = codec.error_text e;
  vm_internal_ip = none;
  event_metadata = "";
  skip_idempotent = false;
}

module _ (codec : Codec) (dispatcher : Dispatcher) (text_le : Collation) where
  abbrev pub check_node : CreateInstanceRequest → Result Node → Q Checked
  check_node req (err e) = pure (stop (refused 404 "node_not_found"))
  check_node req (ok node) =
      if not (node_status_eq node.status online)
      then pure (stop (refused 409 "node_offline"))
      else if not (dispatcher.connected node.id)
      then pure (stop (refused 409 "agent_not_connected"))
      else pure (proceed req node)

  abbrev pub check_fields : CreateInstanceRequest → Option ℕ → Q Checked
  check_fields req none = pure (stop (refused 400 "bad_node_id"))
  check_fields req (some node_id) =
      if str_eq req.name "" || leb_ℤ req.memory_mb (pos 0) || leb_ℤ req.vcpus (pos 0)
      then pure (stop (refused 400 "bad_fields"))
      else if ltb_ℤ req.gpu_count (pos 0)
      then pure (stop (refused 400 "bad_gpu_count"))
      else attempt (statement (get_node node_id)) (check_node req)

  abbrev pub check_decoded : Option CreateInstanceRequest → Q Checked
  check_decoded none = pure (stop (refused 400 "bad_json"))
  check_decoded (some req) = check_fields req (codec.parse_uuid req.node_id)

  -- `none` is a body that could not be read.
  unfoldable pub validate_create : Option String → Q Checked
  unfolding statement get_node node_status_eq
  validate_create none = pure (stop (refused 400 "read_body"))
  validate_create (some body) = check_decoded (codec.decode_request body)

  abbrev pub resolved : Reservation → Result (List String) → Q Reserved
  resolved res (ok pci) = pure (held res pci)
  resolved res (err e) =
      ignore (release_reserved res) >> pure (no_slots (refused 500 "resolve_pci"))

  abbrev pub after_reserve : Node → Result Reservation → Q Reserved
  after_reserve node (err no_free_slots) = pure (no_slots (refused 409 "no_free_slots"))
  after_reserve node (err e) = pure (no_slots (refused 500 "reserve_failed"))
  after_reserve node (ok res) =
      resolved res (resolve_passthrough_pci codec node.topology_json res.slots)

  unfoldable pub reserve_if_needed : CreateInstanceRequest → Node → Q Reserved
  unfolding reserve release_reserved resolve_passthrough_pci
  reserve_if_needed req node =
      if eq_ℤ req.gpu_count (pos 0)
      then pure (held no_reservation [])
      else attempt (reserve text_le node.id req.gpu_count (pos 1)) (after_reserve node)

  unfoldable pub mark_failed : ℕ → String → Error → Q (Unit {0})
  unfolding transition
  mark_failed id reason e = ignore (transition id failed (failed_options codec reason e))

  -- `if req.GPUCount > 0 { … }`
  abbrev pub when_gpus : CreateInstanceRequest → Q (Unit {0}) → Q (Unit {0})
  when_gpus req m = if ltb_ℤ (pos 0) req.gpu_count then m else pure tt

  abbrev pub after_dispatch : CreateInstanceRequest → Instance → Result (Unit {0}) → Q Reply
  after_dispatch req inst (ok _) = pure (created (to_instance_view inst))
  after_dispatch req inst (err e) =
      when_gpus req (ignore (release_for_instance inst.id))
      >> mark_failed inst.id "dispatch_failed" e
      >> pure (refused 502 "dispatch_failed")

  abbrev pub after_bind :
      CreateInstanceRequest
      → Node
      → Reservation
      → List String
      → Instance
      → Result (Unit {0})
      → Q Reply
  after_bind req node res pci inst (ok _) =
      after_dispatch req inst
        (dispatcher.send node.id (create_instance inst (slot_indices res) pci))
  after_bind req node res pci inst (err e) =
      ignore (release_reserved res)
      >> mark_failed inst.id "bind_failed" e
      >> pure (refused 500 "bind_failed")

  abbrev pub after_create :
      CreateInstanceRequest → Node → Reservation → List String → Result Instance → Q Reply
  after_create req node res pci (err e) =
      when_gpus req (ignore (release_reserved res)) >> pure (refused 500 "create_failed")
  after_create req node res pci (ok inst) =
      attempt (when_gpus req (bind_to_instance res inst.id)) (after_bind req node res pci inst)

  abbrev pub input_of : CreateInstanceRequest → Node → Option ℕ → Reservation → CreateInput
  input_of req node owner_id res = record {
    owner_id = owner_id;
    node_id = node.id;
    name = req.name;
    memory_mib = req.memory_mb;
    vcpus = req.vcpus;
    gpu_count = req.gpu_count;
    slot_indices = slot_indices res;
    ssh_pubkeys = req.ssh_pubkeys;
    image_ref = req.image_ref;
  }

  abbrev pub create_with : CreateInstanceRequest → Node → Option ℕ → Reserved → Q Reply
  create_with req node owner_id (no_slots reply) = pure reply
  create_with req node owner_id (held res pci) =
      attempt (create (input_of req node owner_id res)) (after_create req node res pci)

  unfoldable pub run_create : CreateInstanceRequest → Node → Option ℕ → Q Reply
  unfolding reserve_if_needed mark_failed create bind_to_instance release_reserved
      release_for_instance slot_indices
  run_create req node owner_id = reserve_if_needed req node >>= create_with req node owner_id

  abbrev pub create_checked : Checked → Q Reply
  create_checked (stop reply) = pure reply
  create_checked (proceed req node) = run_create req node none

  -- Create: an administrator's instance has no owner.
  unfoldable pub create_admin : Option String → Q Reply
  unfolding validate_create run_create
  create_admin body = validate_create body >>= create_checked

  abbrev is_allowed : OwnerHooks → ℕ → Option ℕ → Result Bool
  is_allowed hooks owner none = ok false
  is_allowed hooks owner (some team) = hooks.is_user_in_team owner team

  -- The ACL of a node that a team owns.
  abbrev pub access : OwnerHooks → ℕ → Node → Result Bool
  access hooks owner node =
      if str_eq node.access_policy "owner_team"
      then is_allowed hooks owner node.owner_team_id
      else ok true

  abbrev pub after_balance : OwnerHooks → ℕ → CreateInstanceRequest → Node → Result ℤ → Q Reply
  after_balance hooks owner req node (err e) = pure (refused 500 "balance_lookup")
  after_balance hooks owner req node (ok milli) =
      if leb_ℤ milli (pos 0)
      then pure (refused 402 "insufficient_balance")
      else run_create
          (record req {
            ssh_pubkeys = merge_ssh_pubkeys req.ssh_pubkeys (hooks.extra_ssh_keys owner);
          })
          node (some owner)

  abbrev pub after_access : OwnerHooks → ℕ → CreateInstanceRequest → Node → Result Bool → Q Reply
  after_access hooks owner req node (err e) = pure (refused 500 "membership_lookup")
  after_access hooks owner req node (ok false) = pure (refused 404 "node_not_found")
  after_access hooks owner req node (ok true) =
      attempt (balance owner) (after_balance hooks owner req node)

  abbrev pub create_owned : OwnerHooks → ℕ → Checked → Q Reply
  create_owned hooks owner (stop reply) = pure reply
  create_owned hooks owner (proceed req node) =
      after_access hooks owner req node (access hooks owner node)

  -- CreateForOwner, with its three hooks wired.
  unfoldable pub create_for_owner : OwnerHooks → ℕ → Option String → Q Reply
  unfolding validate_create run_create balance merge_ssh_pubkeys
  create_for_owner hooks owner body = validate_create body >>= create_owned hooks owner
