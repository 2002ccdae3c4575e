-- ===== src/Compute/Host.antt =====
-- What the compute agent asks of its host: the Connector of
-- services/compute-agent/internal/libvirt/manager.go, the files and the pseudo files of sysfs
-- (services/compute-agent/internal/gpu/iommu.go), on a state that the program does not see.
use hybrid_cloud_with_claude.Prelude.{String, Option, List, ◌∷◌, [], ◌++◌}
use hybrid_cloud_with_claude.Prelude.Int.{ℤ}
use hybrid_cloud_with_claude.Prelude.Bytes.{Bytes}
use hybrid_cloud_with_claude.Compute.Xml.{DomainXml, HostError, Outcome, done, failure}

-- A handle of libvirt, by the name of its domain.
pub record Domain : Type 0 where
  pub name : String
  pub uuid : String

-- An address of a network interface: its type (0 for IPv4) and its text.
pub record IfaceAddr : Type 0 where
  pub kind : ℤ
  pub addr : String

pub record SeedRequest : Type 0 where
  pub instance_id : String
  pub hostname : String
  pub ssh_pubkeys : List String

-- A call may read and change the state of the host, which others change too. The text of a domain is a
-- document, and one that is none is an error of the call that reads it. `context_err` is ctx.Err().
pub record Host (S : Type 0) : Type 0 where
  pub context_err : S → Outcome (Unit {0}) × S
  pub define_xml : DomainXml → S → Outcome Domain × S
  pub start : Domain → S → Outcome (Unit {0}) × S
  pub power_off : Domain → S → Outcome (Unit {0}) × S
  pub undefine : Domain → S → Outcome (Unit {0}) × S
  pub lookup_by_name : String → S → Outcome Domain × S
  pub get_state : Domain → S → Outcome ℤ × S
  pub get_xml : Domain → S → Outcome DomainXml × S
  pub interface_addresses : Domain → S → Outcome (List (List IfaceAddr)) × S
  pub mkdir_all : String → S → Outcome (Unit {0}) × S
  pub image_create : String → String → S → Outcome (Unit {0}) × S
  pub chmod : String → S → Outcome (Unit {0}) × S
  pub image_resize : String → ℤ → S → Outcome (Unit {0}) × S
  pub open_truncated : String → S → Outcome (Unit {0}) × S
  pub build_seed : String → SeedRequest → S → Outcome (Unit {0}) × S
  pub remove : String → S → Outcome (Unit {0}) × S
  pub stat_reset : Bytes → S → Outcome (Unit {0}) × S
  pub write_reset : Bytes → S → Outcome (Unit {0}) × S
  -- filepath.Join(dir, name + extension)
  pub join_path : String → String → String → String

pub data VmState : Type 0 where
  vm_provisioning vm_running vm_stopping vm_stopped vm_failed : VmState

-- An InstanceStatus message, without its time.
pub record InstanceStatus : Type 0 where
  pub instance_id : String
  pub state : VmState
  pub vm_internal_ip : String
  pub error : Option HostError

-- A run of a handler: the host, and the messages sent so far, the last one at the end.
pub record Run (S : Type 0) : Type 0 where
  pub host : S
  pub sent : List InstanceStatus

abbrev pub Act : Type 0 → Type 0 → Type 0
Act S A = Run S → Outcome A × Run S

module _ {S : Type 0} where
  abbrev continue : {A B : Type 0} → (A → Act S B) → Outcome A × Run S → Outcome B × Run S
  continue f (done a, r) = f a r
  continue f (failure e, r) = (failure e, r)

  infixl 5 ◌>>=◌ ◌>>◌
  abbrev pub ◌>>=◌ : {A B : Type 0} → Act S A → (A → Act S B) → Act S B
  ◌>>=◌ m f r = continue f (m r)

  abbrev pub ◌>>◌ : {A B : Type 0} → Act S A → Act S B → Act S B
  m >> k = m >>= λ _. k

  abbrev pub pure : {A : Type 0} → A → Act S A
  pure a r = (done a, r)

  abbrev pub lift : {A : Type 0} → Outcome A → Act S A
  lift o r = (o, r)

  abbrev back_in : {A : Type 0} → Run S → Outcome A × S → Outcome A × Run S
  back_in r (o, s) = (o, record r { host = s })

  -- A call of the host.
  abbrev pub call : {A : Type 0} → (S → Outcome A × S) → Act S A
  call f r = back_in r (f r.host)

  -- `x, err := m` where the code goes on after an error.
  abbrev pub attempt : {A B : Type 0} → Act S A → (Outcome A → Act S B) → Act S B
  attempt m k r = let (o, r') = m r in k o r'

  abbrev pub send : InstanceStatus → Act S (Unit {0})
  send status r = (done tt, record r { sent = r.sent ++ status ∷ [] })
