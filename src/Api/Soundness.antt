-- ===== src/Api/Soundness.antt =====
-- The handlers of services/main-api/internal/api/admin_instances.go that create an instance keep the
-- tables sound.
use hybrid_cloud_with_claude.Prelude.{
  ℕ, not, ◌||◌, Bool, true, false, String, str_eq, Option, some, none, List,
}
use hybrid_cloud_with_claude.Prelude.Int.{ℤ, pos, leb_ℤ, ltb_ℤ, eq_ℤ}
use hybrid_cloud_with_claude.Schema.{failed, online, node_status_eq, Instance, Node}
use hybrid_cloud_with_claude.Store.{
  World, Error, no_free_slots, Result, ok, err, Q, ◌>>◌, pure, statement,
}
use hybrid_cloud_with_claude.Store.Keeps.{
  Keeps, statement-Keeps, bind-Keeps, if-Keeps, attempt-Keeps,
}
use hybrid_cloud_with_claude.Instance.Repo.{create}
use hybrid_cloud_with_claude.Slot.Queries.{Collation, get_node}
use hybrid_cloud_with_claude.Slot.Repo.{
  Reservation, reserve, bind_to_instance, release_reserved, release_for_instance,
}
use hybrid_cloud_with_claude.Credit.Queries.{get_credits}
use hybrid_cloud_with_claude.Credit.Repo.{balance}
use hybrid_cloud_with_claude.Invariant.{
  Sound, transition-Sound, create-Sound, release_for_instance-Sound, reserve-Sound,
  bind_to_instance-Sound, release_reserved-Sound,
}
use hybrid_cloud_with_claude.Api.View.{
  CreateInstanceRequest, Reply, refused, Dispatcher, Codec, resolve_passthrough_pci,
}
use hybrid_cloud_with_claude.Api.Create.{
  OwnerHooks, Checked, stop, proceed, Reserved, no_slots, held, ignore, check_node, check_fields,
  check_decoded, validate_create, resolved, after_reserve, reserve_if_needed, failed_options,
  mark_failed, when_gpus, after_dispatch, after_bind, after_create, input_of, create_with,
  run_create, create_checked, create_admin, after_balance, after_access, create_owned,
  create_for_owner,
}

ignore-Sound : {A : Type 0} (m : Q A) → Keeps Sound m → Keeps Sound (ignore m)
ignore-Sound m k w s = k w s

module _ (codec : Codec) (dispatcher : Dispatcher) (text_le : Collation) where
  check_node-Sound :
      (req : CreateInstanceRequest) (r : Result Node)
      → Keeps Sound (check_node codec dispatcher text_le req r)
  check_node-Sound req (err e) = λ w s. s
  check_node-Sound req (ok node) =
      if-Keeps Sound (not (node_status_eq node.status online)) _ _ (λ w s. s)
        (if-Keeps Sound (not (dispatcher.connected node.id)) _ _ (λ w s. s) (λ w s. s))

  check_fields-Sound :
      (req : CreateInstanceRequest) (id : Option ℕ)
      → Keeps Sound (check_fields codec dispatcher text_le req id)
  check_fields-Sound req none = λ w s. s
  check_fields-Sound req (some id) =
      if-Keeps Sound (str_eq req.name "" || leb_ℤ req.memory_mb (pos 0) || leb_ℤ req.vcpus (pos 0))
        _ _ (λ w s. s)
        (if-Keeps Sound (ltb_ℤ req.gpu_count (pos 0)) _ _ (λ w s. s)
          (attempt-Keeps Sound (statement (get_node id)) (check_node codec dispatcher text_le req)
            (statement-Keeps Sound (get_node id) (unfold get_node in λ db s. s))
            (check_node-Sound req)))

  check_decoded-Sound :
      (r : Option CreateInstanceRequest) → Keeps Sound (check_decoded codec dispatcher text_le r)
  check_decoded-Sound none = λ w s. s
  check_decoded-Sound (some req) = check_fields-Sound req (codec.parse_uuid req.node_id)

  validate_create-Sound :
      (body : Option String) → Keeps Sound (validate_create codec dispatcher text_le body)
  unfolding validate_create
  validate_create-Sound none = λ w s. s
  validate_create-Sound (some body) = check_decoded-Sound (codec.decode_request body)

  release-Sound :
      {A : Type 0} (res : Reservation) (a : A)
      → Keeps Sound (ignore (release_reserved res) >> pure a)
  release-Sound res a =
      bind-Keeps Sound (ignore (release_reserved res)) (λ _. pure a)
        (ignore-Sound (release_reserved res) (release_reserved-Sound res)) (λ _ w s. s)

  resolved-Sound :
      (res : Reservation) (r : Result (List String))
      → Keeps Sound (resolved codec dispatcher text_le res r)
  resolved-Sound res (ok pci) = λ w s. s
  resolved-Sound res (err e) = release-Sound res (no_slots (refused 500 "resolve_pci"))

  after_reserve-Sound :
      (node : Node) (r : Result Reservation)
      → Keeps Sound (after_reserve codec dispatcher text_le node r)
  after_reserve-Sound node (err no_free_slots) = λ w s. s
  after_reserve-Sound node (err _) = λ w s. s
  after_reserve-Sound node (ok res) =
      resolved-Sound res (resolve_passthrough_pci codec node.topology_json res.slots)

  reserve_if_needed-Sound :
      (req : CreateInstanceRequest) (node : Node)
      → Keeps Sound (reserve_if_needed codec dispatcher text_le req node)
  unfolding reserve_if_needed
  reserve_if_needed-Sound req node =
      if-Keeps Sound (eq_ℤ req.gpu_count (pos 0)) _ _ (λ w s. s)
        (attempt-Keeps Sound (reserve text_le node.id req.gpu_count (pos 1))
          (after_reserve codec dispatcher text_le node)
          (reserve-Sound text_le node.id req.gpu_count (pos 1)) (after_reserve-Sound node))

  mark_failed-Sound :
      (id : ℕ) (reason : String) (e : Error)
      → Keeps Sound (mark_failed codec dispatcher text_le id reason e)
  unfolding mark_failed
  mark_failed-Sound id reason e =
      λ w s. transition-Sound id failed (failed_options codec reason e) w s

  when_gpus-Sound :
      (req : CreateInstanceRequest) (m : Q (Unit {0}))
      → Keeps Sound m
      → Keeps Sound (when_gpus codec dispatcher text_le req m)
  when_gpus-Sound req m k = if-Keeps Sound (ltb_ℤ (pos 0) req.gpu_count) m (pure tt) k (λ w s. s)

  marked-Sound :
      (m : Q (Unit {0})) (id : ℕ) (reason : String) (e : Error) (reply : Reply)
      → Keeps Sound m
      → Keeps Sound (m >> mark_failed codec dispatcher text_le id reason e >> pure reply)
  marked-Sound m id reason e reply k =
      bind-Keeps Sound (m >> mark_failed codec dispatcher text_le id reason e) (λ _. pure reply)
        (bind-Keeps Sound m (λ _. mark_failed codec dispatcher text_le id reason e) k
          (λ _. mark_failed-Sound id reason e))
        (λ _ w s. s)

  after_dispatch-Sound :
      (req : CreateInstanceRequest) (inst : Instance) (r : Result (Unit {0}))
      → Keeps Sound (after_dispatch codec dispatcher text_le req inst r)
  after_dispatch-Sound req inst (ok _) = λ w s. s
  after_dispatch-Sound req inst (err e) =
      marked-Sound (when_gpus codec dispatcher text_le req (ignore (release_for_instance inst.id)))
        inst.id "dispatch_failed" e (refused 502 "dispatch_failed")
        (when_gpus-Sound req (ignore (release_for_instance inst.id))
          (ignore-Sound (release_for_instance inst.id) (release_for_instance-Sound inst.id)))

  after_bind-Sound :
      (req : CreateInstanceRequest) (node : Node) (res : Reservation) (pci : List String)
      (inst : Instance) (r : Result (Unit {0}))
      → Keeps Sound (after_bind codec dispatcher text_le req node res pci inst r)
  after_bind-Sound req node res pci inst (ok _) = after_dispatch-Sound req inst _
  after_bind-Sound req node res pci inst (err e) =
      marked-Sound (ignore (release_reserved res)) inst.id "bind_failed" e
        (refused 500 "bind_failed")
        (ignore-Sound (release_reserved res) (release_reserved-Sound res))

  after_create-Sound :
      (req : CreateInstanceRequest) (node : Node) (res : Reservation) (pci : List String)
      (r : Result Instance)
      → Keeps Sound (after_create codec dispatcher text_le req node res pci r)
  after_create-Sound req node res pci (err e) =
      bind-Keeps Sound (when_gpus codec dispatcher text_le req (ignore (release_reserved res))) _
        (when_gpus-Sound req _ (ignore-Sound (release_reserved res) (release_reserved-Sound res)))
        (λ _ w s. s)
  after_create-Sound req node res pci (ok inst) =
      attempt-Keeps Sound (when_gpus codec dispatcher text_le req (bind_to_instance res inst.id))
        (after_bind codec dispatcher text_le req node res pci inst)
        (when_gpus-Sound req _ (bind_to_instance-Sound res inst.id))
        (after_bind-Sound req node res pci inst)

  create_with-Sound :
      (req : CreateInstanceRequest) (node : Node) (owner : Option ℕ) (r : Reserved)
      → Keeps Sound (create_with codec dispatcher text_le req node owner r)
  create_with-Sound req node owner (no_slots reply) = λ w s. s
  create_with-Sound req node owner (held res pci) =
      attempt-Keeps Sound (create (input_of codec dispatcher text_le req node owner res))
        (after_create codec dispatcher text_le req node res pci)
        (create-Sound (input_of codec dispatcher text_le req node owner res))
        (after_create-Sound req node res pci)

  run_create-Sound :
      (req : CreateInstanceRequest) (node : Node) (owner : Option ℕ)
      → Keeps Sound (run_create codec dispatcher text_le req node owner)
  unfolding run_create
  run_create-Sound req node owner =
      bind-Keeps Sound (reserve_if_needed codec dispatcher text_le req node)
        (create_with codec dispatcher text_le req node owner) (reserve_if_needed-Sound req node)
        (create_with-Sound req node owner)

  create_checked-Sound : (c : Checked) → Keeps Sound (create_checked codec dispatcher text_le c)
  create_checked-Sound (stop reply) = λ w s. s
  create_checked-Sound (proceed req node) = run_create-Sound req node none

  -- Whatever an administrator sends, wherever the connection fails and whatever the dispatcher
  -- answers, a request to create an instance keeps the tables sound.
  pub create_admin-Sound :
      (body : Option String)
      → (w : World) → Sound w.db
      → Sound (create_admin codec dispatcher text_le body w).1.db
  unfolding create_admin
  create_admin-Sound body =
      bind-Keeps Sound (validate_create codec dispatcher text_le body)
        (create_checked codec dispatcher text_le) (validate_create-Sound body) create_checked-Sound

  balance-Sound : (u : ℕ) → Keeps Sound (balance u)
  unfolding balance
  balance-Sound u =
      λ w s. statement-Keeps Sound (get_credits u) (unfold get_credits in λ db s. s) w s

  after_balance-Sound :
      (hooks : OwnerHooks) (owner : ℕ) (req : CreateInstanceRequest) (node : Node) (r : Result ℤ)
      → Keeps Sound (after_balance codec dispatcher text_le hooks owner req node r)
  after_balance-Sound hooks owner req node (err e) = λ w s. s
  after_balance-Sound hooks owner req node (ok milli) =
      if-Keeps Sound (leb_ℤ milli (pos 0)) _ _ (λ w s. s) (run_create-Sound _ node (some owner))

  after_access-Sound :
      (hooks : OwnerHooks) (owner : ℕ) (req : CreateInstanceRequest) (node : Node) (r : Result Bool)
      → Keeps Sound (after_access codec dispatcher text_le hooks owner req node r)
  after_access-Sound hooks owner req node (err e) = λ w s. s
  after_access-Sound hooks owner req node (ok false) = λ w s. s
  after_access-Sound hooks owner req node (ok true) =
      attempt-Keeps Sound (balance owner)
        (after_balance codec dispatcher text_le hooks owner req node) (balance-Sound owner)
        (after_balance-Sound hooks owner req node)

  create_owned-Sound :
      (hooks : OwnerHooks) (owner : ℕ) (c : Checked)
      → Keeps Sound (create_owned codec dispatcher text_le hooks owner c)
  create_owned-Sound hooks owner (stop reply) = λ w s. s
  create_owned-Sound hooks owner (proceed req node) = after_access-Sound hooks owner req node _

  -- Whatever a user sends, whatever the team and key lookups answer, wherever the connection fails and
  -- whatever the dispatcher answers, a request to create an instance keeps the tables sound.
  pub create_for_owner-Sound :
      (hooks : OwnerHooks) (owner : ℕ) (body : Option String)
      → (w : World) → Sound w.db
      → Sound (create_for_owner codec dispatcher text_le hooks owner body w).1.db
  unfolding create_for_owner
  create_for_owner-Sound hooks owner body =
      bind-Keeps Sound (validate_create codec dispatcher text_le body)
        (create_owned codec dispatcher text_le hooks owner) (validate_create-Sound body)
        (create_owned-Sound hooks owner)
