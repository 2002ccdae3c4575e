-- ===== src/Compute/Xml.antt =====
-- The definition of a virtual machine: services/compute-agent/internal/libvirt/domain.go and xml.go. A
-- document stands for its text: encoding/xml writes and reads it. PCI addresses are texts of bytes.
use hybrid_cloud_with_claude.Prelude.{
  ℕ, ◌==◌, Bool, true, false, ◌&&◌, String, str_eq, Option, none, some, List, [], ◌∷◌, ◌++◌,
  if◌then◌else◌,
}
use hybrid_cloud_with_claude.Prelude.Int.{ℤ, pos, negsuc}
use hybrid_cloud_with_claude.Prelude.Bytes.{Bytes, codes, trim_prefix, split_on, parse_hex32}

pub data DomainState : Type 0 where
  state_unknown state_running state_stopped state_failed : DomainState

pub record DomainSpec : Type 0 where
  pub name : String
  pub memory_mib : ℕ
  pub vcpus : ℕ
  pub disk_path : String
  pub cloud_init_iso_path : String
  pub network_name : String
  pub machine_type : String
  pub emulator : String
  pub passthrough_pci : List Bytes

pub record DomainInfo : Type 0 where
  pub name : String
  pub uuid : String
  pub initial_state : DomainState

-- The errors of the package, those of libvirt and of the host with their text, and a missing file.
pub data HostError : Type 0 where
  domain_not_found domain_exists : HostError
  name_required memory_required vcpus_required disk_required : HostError
  malformed_address malformed_function non_hex bad_xml cancelled : HostError
  libvirt_says : Bytes → HostError
  not_exist : HostError
  os_says : Bytes → HostError

pub data Outcome {ℓ} (A : Type ℓ) : Type ℓ where
  done : A → Outcome A
  failure : HostError → Outcome A

abbrev pub bind_outcome {ℓ κ} : {A : Type ℓ} {B : Type κ} → Outcome A → (A → Outcome B) → Outcome B
bind_outcome (done a) f = f a
bind_outcome (failure e) f = failure e

-- Validate
unfoldable pub validate : DomainSpec → Outcome (Unit {0})
validate s =
    if str_eq s.name ""
    then failure name_required
    else if s.memory_mib == 0
    then failure memory_required
    else if s.vcpus == 0
    then failure vcpus_required
    else if str_eq s.disk_path ""
    then failure disk_required
    else done tt

-- The structs of xml.go; an element without content is a Bool.
pub record MemXml : Type 0 where
  pub unit : String
  pub value : ℕ

pub record VcpuXml : Type 0 where
  pub placement : String
  pub value : ℕ

pub record OsXml : Type 0 where
  pub arch : String
  pub machine : String
  pub value : String
  pub boot : List String

pub record FeaturesXml : Type 0 where
  pub acpi : Bool
  pub apic : Bool

pub record CpuXml : Type 0 where
  pub mode : String
  pub check : String

pub record DiskXml : Type 0 where
  pub kind : String
  pub device : String
  pub driver_name : String
  pub driver_type : String
  pub driver_cache : String
  pub source_file : String
  pub target_dev : String
  pub target_bus : String
  pub readonly : Bool

pub record InterfaceXml : Type 0 where
  pub kind : String
  pub network : String
  pub model : String

pub record ConsoleXml : Type 0 where
  pub kind : String
  pub target_type : String
  pub target_port : ℤ

pub record SerialXml : Type 0 where
  pub kind : String
  pub target_port : ℤ

pub record GraphicsXml : Type 0 where
  pub kind : String
  pub port : ℤ
  pub listen : String

pub record HostdevAddress : Type 0 where
  pub domain : Bytes
  pub bus : Bytes
  pub slot : Bytes
  pub function : Bytes

pub record HostdevXml : Type 0 where
  pub mode : String
  pub kind : String
  pub managed : String
  pub driver : String
  pub address : HostdevAddress

pub record DevicesXml : Type 0 where
  pub emulator : String
  pub disks : List DiskXml
  pub interfaces : List InterfaceXml
  pub consoles : List ConsoleXml
  pub serials : List SerialXml
  pub graphics : List GraphicsXml
  pub hostdevs : List HostdevXml

pub record DomainXml : Type 0 where
  pub kind : String
  pub name : String
  pub memory : MemXml
  pub cur_memory : MemXml
  pub vcpu : VcpuXml
  pub os : OsXml
  pub features : FeaturesXml
  pub cpu : CpuXml
  pub on_poweroff : String
  pub on_reboot : String
  pub on_crash : String
  pub devices : DevicesXml

abbrev is_hex : Option ℕ → Bool
is_hex none = false
is_hex (some _) = true

abbrev hex_prefix : Bytes
hex_prefix = codes "0x"

-- The last step of buildHostdev: the four parts are checked in their order.
abbrev pub hostdev_of : Bytes → Bytes → Bytes → Bytes → Outcome HostdevXml
hostdev_of domain bus slot function =
    if is_hex (parse_hex32 domain)
      && is_hex (parse_hex32 bus)
      && is_hex (parse_hex32 slot)
      && is_hex (parse_hex32 function)
    then done (record {
      mode = "subsystem";
      kind = "pci";
      managed = "yes";
      driver = "vfio";
      address = record {
        domain = hex_prefix ++ domain;
        bus = hex_prefix ++ bus;
        slot = hex_prefix ++ slot;
        function = hex_prefix ++ function;
      };
    })
    else failure non_hex

abbrev pub hostdev_of_function : Bytes → Bytes → List Bytes → Outcome HostdevXml
hostdev_of_function domain bus (slot ∷ function ∷ []) = hostdev_of domain bus slot function
hostdev_of_function domain bus _ = failure malformed_function

abbrev pub hostdev_of_parts : List Bytes → Outcome HostdevXml
hostdev_of_parts (domain ∷ bus ∷ dev_fn ∷ []) =
    hostdev_of_function domain bus (split_on b'.' dev_fn)
hostdev_of_parts _ = failure malformed_address

unfoldable pub build_hostdev : Bytes → Outcome HostdevXml
unfolding split_on parse_hex32
build_hostdev pci = hostdev_of_parts (split_on b':' pci)

unfoldable pub build_hostdevs : List Bytes → Outcome (List HostdevXml)
unfolding build_hostdev
build_hostdevs [] = done []
build_hostdevs (pci ∷ rest) =
    bind_outcome (build_hostdev pci) λ hd. bind_outcome (build_hostdevs rest) λ hds. done (hd ∷ hds)

abbrev or_default : String → String → String
or_default v default = if str_eq v "" then default else v

abbrev system_disk : DomainSpec → DiskXml
system_disk s = record {
  kind = "file";
  device = "disk";
  driver_name = "qemu";
  driver_type = "qcow2";
  driver_cache = "writeback";
  source_file = s.disk_path;
  target_dev = "vda";
  target_bus = "virtio";
  readonly = false;
}

abbrev seed_disk : DomainSpec → DiskXml
seed_disk s = record {
  kind = "file";
  device = "cdrom";
  driver_name = "qemu";
  driver_type = "raw";
  driver_cache = "";
  source_file = s.cloud_init_iso_path;
  target_dev = "sda";
  target_bus = "sata";
  readonly = true;
}

abbrev disks_of : DomainSpec → List DiskXml
disks_of s = system_disk s ∷ (if str_eq s.cloud_init_iso_path "" then [] else seed_disk s ∷ [])

abbrev interfaces_of : DomainSpec → List InterfaceXml
interfaces_of s =
    if str_eq s.network_name ""
    then []
    else record { kind = "network"; network = s.network_name; model = "virtio" } ∷ []

abbrev devices_of : DomainSpec → List HostdevXml → DevicesXml
devices_of s hostdevs = record {
  emulator = or_default s.emulator "/usr/bin/qemu-system-x86_64";
  disks = disks_of s;
  interfaces = interfaces_of s;
  consoles = record { kind = "pty"; target_type = "serial"; target_port = pos 0 } ∷ [];
  serials = record { kind = "pty"; target_port = pos 0 } ∷ [];
  graphics = record { kind = "vnc"; port = negsuc 0; listen = "127.0.0.1" } ∷ [];
  hostdevs = hostdevs;
}

abbrev pub domain_of : DomainSpec → List HostdevXml → DomainXml
domain_of s hostdevs = record {
  kind = "kvm";
  name = s.name;
  memory = record { unit = "MiB"; value = s.memory_mib };
  cur_memory = record { unit = "MiB"; value = s.memory_mib };
  vcpu = record { placement = "static"; value = s.vcpus };
  os = record {
    arch = "x86_64";
    machine = or_default s.machine_type "q35";
    value = "hvm";
    boot = "hd" ∷ [];
  };
  features = record { acpi = true; apic = true };
  cpu = record { mode = "host-passthrough"; check = "none" };
  on_poweroff = "destroy";
  on_reboot = "restart";
  on_crash = "destroy";
  devices = devices_of s hostdevs;
}

-- BuildDomainXML
unfoldable pub build_domain_xml : DomainSpec → Outcome DomainXml
unfolding validate build_hostdevs
build_domain_xml s =
    bind_outcome (validate s)
      λ _. bind_outcome (build_hostdevs s.passthrough_pci) λ hostdevs. done (domain_of s hostdevs)

unfoldable pub trim_hex : Bytes → Bytes
unfolding trim_prefix
trim_hex s = trim_prefix hex_prefix s

-- `fmt.Sprintf("%s:%s:%s.%s", …)`
unfoldable pub format_address : HostdevAddress → Bytes
unfolding trim_hex
format_address a =
    trim_hex a.domain
    ++ b':' ∷ (trim_hex a.bus ++ b':' ∷ (trim_hex a.slot ++ b'.' ∷ trim_hex a.function))

-- The loop of ParsePassthroughPCIFromXML.
unfoldable pub parse_hostdevs : List HostdevXml → List Bytes
unfolding format_address
parse_hostdevs [] = []
parse_hostdevs (hd ∷ rest) =
    let later = parse_hostdevs rest in
    if str_eq hd.mode "subsystem" && str_eq hd.kind "pci"
    then format_address hd.address ∷ later
    else later

-- ParsePassthroughPCIFromXML, of a text that is a document
unfoldable pub parse_passthrough_pci : DomainXml → List Bytes
unfolding parse_hostdevs
parse_passthrough_pci d = parse_hostdevs d.devices.hostdevs
