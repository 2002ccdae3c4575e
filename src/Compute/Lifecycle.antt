-- ===== src/Compute/Lifecycle.antt =====
-- What the handlers of a virtual machine promise (services/compute-agent/internal/vm/handler.go over
-- services/compute-agent/internal/libvirt/manager.go).
use hybrid_cloud_with_claude.Prelude.{◌≡◌, ◌⊎◌, String, [], ◌∷◌, ◌++◌}
use hybrid_cloud_with_claude.Prelude.Bytes.{Bytes}
use hybrid_cloud_with_claude.Compute.Xml.{HostError, domain_not_found, Outcome, done, failure}
use hybrid_cloud_with_claude.Compute.Host.{
  Domain, Host, Run, vm_stopping, vm_stopped, Act, call, attempt,
}
use hybrid_cloud_with_claude.Compute.Manager.{
  after_power_off, destroy_domain, domain_passthrough_pci,
}
use hybrid_cloud_with_claude.Compute.Vm.{Config, status, failed_status}
use hybrid_cloud_with_claude.Compute.Steps.{HostLaws, Steps, Cleared}

-- The answers after which a destruction goes on.
abbrev Ended : Outcome (Unit {0}) → Type 0
Ended o = (o ≡ done tt) ⊎ (o ≡ failure domain_not_found)

module _ {S : Type 0} (host : Host S) (laws : HostLaws host) where
  -- No domain has the name, or libvirt could not look the name up when it was asked, for any reason.
  abbrev pub Torn : String → S → S → Type 0
  Torn id asked s =
      laws.Gone id s ⊎ ((e : HostError) × ((host.lookup_by_name id asked).0 ≡ failure e))

  abbrev switch_off : Domain → Act S (Unit {0})
  switch_off dom = attempt (call (host.power_off dom)) (after_power_off host dom)

  module _ (cfg : Config) where
    -- The host when the destruction looks the domain up, and what becomes of the domain.
    abbrev pub stopping : String → Run S → Run S
    stopping id r = record r { sent = r.sent ++ status id vm_stopping ∷ [] }

    abbrev pub read_devices : String → Run S → Run S
    read_devices id r = (domain_passthrough_pci host id (stopping id r)).1

    abbrev pub asked_at : String → Run S → S
    asked_at id r = (host.context_err (read_devices id r).host).1

    -- The last message of a destruction, and what holds then.
    abbrev pub Destroyed : String → Run S → Run S → Type 0
    Destroyed id before after =
        ((after.sent ≡ (stopping id before).sent ++ status id vm_stopped ∷ [])
          × Cleared host cfg laws id (Torn id (asked_at id before)) after.host)
        ⊎ ((e : HostError) × ((destroy_domain host id (read_devices id before)).0 ≡ failure e)
            × (after.sent ≡ (stopping id before).sent ++ failed_status id e ∷ []))
