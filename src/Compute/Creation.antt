-- ===== src/Compute/Creation.antt =====
-- What the creation of a virtual machine promises (services/compute-agent/internal/vm/handler.go over
-- services/compute-agent/internal/libvirt/manager.go).
use hybrid_cloud_with_claude.Prelude.{
  ◌≡◌, ◌⊎◌, inl, inr, refl, sym, ap, subst, ◌∙◌, Bool, String, List, [], ◌∷◌, ◌++◌, arith,
}
use hybrid_cloud_with_claude.Compute.Xml.{DomainInfo, HostError, not_exist, Outcome, done, failure}
use hybrid_cloud_with_claude.Compute.Host.{
  Host, Run, vm_provisioning, vm_running, InstanceStatus, Act, ◌>>◌, send,
}
use hybrid_cloud_with_claude.Compute.Manager.{create_domain}
use hybrid_cloud_with_claude.Compute.Vm.{
  Config, CreateInstance, status, failed_status, disk_path, seed_path, prepare_files, cleanup_files,
  reset_devices, spec_of, after_create, after_prepare, handle_create,
}
use hybrid_cloud_with_claude.Compute.Steps.{
  Calm, HostLaws, Steps, At, after-steps, Cleared, both-Calm, cleanup_files-Steps,
  reset_devices-Steps,
}
use hybrid_cloud_with_claude.Compute.Starting.{
  StartLaws, Told, create_domain-Started, create_domain-silent, detect-Polled,
}

module _ {S : Type 0} (host : Host S) (laws : HostLaws host) (start_laws : StartLaws host)
    (cfg : Config) (waits : List Bool) where
  -- The messages of a creation, and what holds at its end.
  abbrev pub Created : String → List InstanceStatus → Outcome (Unit {0}) × Run S → Type 0
  Created id base out =
      ((out.0 ≡ done tt)
        × start_laws.Started id out.1.host
        × Told host start_laws id (base ++ status id vm_running ∷ []) out.1)
      ⊎ ((e : HostError) × (out.0 ≡ done tt)
          × (out.1.sent ≡ base ++ failed_status id e ∷ [])
          × laws.Absent (disk_path host cfg id) out.1.host
          × laws.Absent (seed_path host cfg id) out.1.host)

  prepare_files-silent :
      (req : CreateInstance) (r : Run S) → (prepare_files host cfg req r).1.sent ≡ r.sent
  unfolding prepare_files
  prepare_files-silent req r = ground arith

  abbrev Anything : S → Type 0
  Anything s = Unit

  abbrev Files : String → S → Type 0
  Files id = Cleared host cfg laws id Anything

  -- A clean-up and then the message of a failure.
  failed-Created :
      (id : String) (e : HostError) (base : List InstanceStatus) (P : S → Type 0)
      (m : Act S (Unit {0}))
      → Steps (At P base) m (At (Files id) base)
      → (r : Run S) → At P base r
      → Created id base ((m >> send (failed_status id e)) r)
  failed-Created id e base P m cleans r at =
      let (eq, ((u, files), sent)) =
        after-steps (At P base) (At (Files id) base) m (send (failed_status id e)) cleans r at in
      subst (Created id base) (sym eq)
        (inr (e, refl, ap (λ l. l ++ failed_status id e ∷ []) sent, files.0, files.1))

  Anything-Calm : Calm host Anything
  Anything-Calm = record { remove = λ p s u. tt; stat = λ p s u. tt; write = λ p s u. tt }

  Files-Calm : (id : String) → Calm host (Files id)
  Files-Calm id = both-Calm host cfg Anything _ Anything-Calm (
      both-Calm host cfg _ _ (laws.absent_calm (disk_path host cfg id))
        (laws.absent_calm (seed_path host cfg id)))

  module _
      (removes : (p : String) (s : S)
        → ((host.remove p s).0 ≡ done tt) ⊎ ((host.remove p s).0 ≡ failure not_exist)) where
    cleanup-Steps :
        (id : String) (base : List InstanceStatus)
        → Steps (At Anything base) (cleanup_files host cfg id) (At (Files id) base)
    cleanup-Steps id base = cleanup_files-Steps host cfg laws Anything base id Anything-Calm removes

    after_create-Created :
        (req : CreateInstance) (base : List InstanceStatus) (o : Outcome DomainInfo) (r : Run S)
        → ((info : DomainInfo) → o ≡ done info → start_laws.Started req.instance_id r.host)
        → r.sent ≡ base
        → Created req.instance_id base (after_create host cfg waits req o r)
    after_create-Created req base (done info) r started same = inl (
        detect-Polled host start_laws req.instance_id
          (base ++ status req.instance_id vm_running ∷ []) cfg waits req.instance_id
          (record r { sent = r.sent ++ status req.instance_id vm_running ∷ [] })
          (started info refl, ap (λ l. l ++ status req.instance_id vm_running ∷ []) same))
    after_create-Created req base (failure e) r started same =
        let id = req.instance_id in
        let resets = reset_devices host cfg req.passthrough_pci_addresses in
        let (eq, cleaned) =
          after-steps (At Anything base) (At (Files id) base) (cleanup_files host cfg id)
            (resets >> (send (failed_status id e))) (cleanup-Steps id base) r (tt, same) in
        subst (Created id base) (sym eq) (
          failed-Created id e base (Files id) resets
            (reset_devices-Steps host cfg (Files id) base req.passthrough_pci_addresses
              (Files-Calm id))
            (cleanup_files host cfg id r).1 cleaned)

    after_prepare-Created :
        (req : CreateInstance) (base : List InstanceStatus) (o : Outcome (Unit {0})) (r : Run S)
        → r.sent ≡ base
        → Created req.instance_id base (after_prepare host cfg waits req o r)
    after_prepare-Created req base (done x) r same =
        let spec = spec_of host cfg req in
        let made = create_domain host spec r in
        after_create-Created req base made.0 made.1
          (λ info e. create_domain-Started host start_laws spec r {info = info} e)
          (create_domain-silent host start_laws spec r ∙ same)
    after_prepare-Created req base (failure e) r same =
        let id = req.instance_id in
        failed-Created id e base Anything (cleanup_files host cfg id) (cleanup-Steps id base) r
          (tt, same)

  -- A creation sends `provisioning` and then one of two: `running`, and after it at most one more
  -- `running`, which tells an address that is not empty, and then the domain of the instance was
  -- started; or `failed`, and then neither the disk of the instance nor its seed is there. This holds if
  -- the host's laws hold, and each removal either works or finds no file.
  pub handle_create-Created :
      (req : CreateInstance) (r : Run S)
      → ((p : String) (s : S)
          → ((host.remove p s).0 ≡ done tt) ⊎ ((host.remove p s).0 ≡ failure not_exist))
      → Created req.instance_id
          (r.sent ++ status req.instance_id vm_provisioning ∷ [])
          (handle_create host cfg waits req r)
  unfolding handle_create
  handle_create-Created req r removes =
      let base = r.sent ++ status req.instance_id vm_provisioning ∷ [] in
      let r₁ : Run S = record r { sent = base } in
      let prepared = prepare_files host cfg req r₁ in
      after_prepare-Created removes req base prepared.0 prepared.1 (prepare_files-silent req r₁)
