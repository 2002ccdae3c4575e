-- ===== src/Compute/Hostdevs.antt =====
-- What the definition of a domain says of its passed-through devices
-- (services/compute-agent/internal/libvirt/xml.go).
use hybrid_cloud_with_claude.Prelude.{◌≡◌, refl}
use hybrid_cloud_with_claude.Prelude.Bytes.{Bytes}
use hybrid_cloud_with_claude.Compute.Xml.{
  HostdevXml, Outcome, done, failure, bind_outcome, format_address,
}

pub bind_outcome-done {ℓ κ} :
    {A : Type ℓ} {B : Type κ} (o : Outcome A) (f : A → Outcome B) {b : B}
    → bind_outcome o f ≡ done b
    → (a : A) × (o ≡ done a) × (f a ≡ done b)
bind_outcome-done (done a) f h = (a, refl, h)
bind_outcome-done (failure e) f h = cc

-- A device that is passed through at the address.
abbrev Passes : Bytes → HostdevXml → Type 0
Passes pci hd = (hd.mode ≡ "subsystem") × (hd.kind ≡ "pci") × (format_address hd.address ≡ pci)
