-- ===== src/Examples/Machines.antt =====
-- The theorems on virtual machines over a small host
-- (services/compute-agent/internal/vm/handler.go and libvirt/manager.go).
use hybrid_cloud_with_claude.Prelude.{
  ◌≡◌, ◌⊎◌, inl, inr, refl, true, false, Bool-cases, String, str_eq, str_eq_iff, List, [], ◌∷◌,
  ◌++◌, any_where, delete_where, if◌then◌else◌, arith,
}
use hybrid_cloud_with_claude.Prelude.Int.{pos}
use hybrid_cloud_with_claude.Prelude.Bytes.{codes}
use hybrid_cloud_with_claude.Compute.Xml.{
  DomainSpec, domain_of, DomainXml, domain_not_found, not_exist, Outcome, done, failure, bad_xml,
}
use hybrid_cloud_with_claude.Compute.Host.{
  Domain, Host, Run, vm_stopping, vm_provisioning, vm_running, vm_stopped,
}
use hybrid_cloud_with_claude.Compute.Vm.{
  Config, CreateInstance, status, running_at, spec_of, handle_create, handle_destroy,
}
use hybrid_cloud_with_claude.Compute.Manager.{first_ipv4}
use hybrid_cloud_with_claude.Compute.Steps.{HostLaws}
use hybrid_cloud_with_claude.Compute.Starting.{StartLaws}
use hybrid_cloud_with_claude.Compute.Creation.{Created, handle_create-Created}

-- The names of the domains that are defined and of those that run, and the paths of the files.
record Machine : Type 0 where
  defined : List String
  running : List String
  files : List String

abbrev handle : String → Domain
handle name = record { name = name; uuid = "" }

abbrev fine : Machine → Outcome (Unit {0}) × Machine
fine s = (done tt, s)

abbrev look_up : String → Machine → Outcome Domain × Machine
look_up name s =
    (if any_where (str_eq name) s.defined then done (handle name) else failure domain_not_found, s)

abbrev remove_path : String → Machine → Outcome (Unit {0}) × Machine
remove_path p s = (
  if any_where (str_eq p) s.files then done tt else failure not_exist,
  record s { files = delete_where (str_eq p) s.files },
)

abbrev small : Host Machine
small = record {
  context_err = fine;
  define_xml = λ xml s. (done (handle xml.name), record s { defined = xml.name ∷ s.defined });
  start = λ d s. (done tt, record s { running = d.name ∷ s.running });
  power_off = λ d s. (done tt, record s { running = delete_where (str_eq d.name) s.running });
  undefine = λ d s. (done tt, record s { defined = delete_where (str_eq d.name) s.defined });
  lookup_by_name = look_up;
  get_state = λ d s. (done (pos 1), s);
  get_xml = λ d s. (failure bad_xml, s);
  interface_addresses = λ d s. (done ((record { kind = pos 0; addr = "10.0.0.5" } ∷ []) ∷ []), s);
  mkdir_all = λ p. fine;
  image_create = λ from to s. (done tt, record s { files = to ∷ s.files });
  chmod = λ p. fine;
  image_resize = λ p n. fine;
  open_truncated = λ p s. (done tt, record s { files = p ∷ s.files });
  build_seed = λ p r. fine;
  remove = remove_path;
  stat_reset = λ pci. fine;
  write_reset = λ pci. fine;
  join_path = λ dir name ext. if str_eq ext ".iso" then "/seeds/1.iso" else "/images/1.qcow2";
}

deleted :
    (n : String) (xs : List String) → any_where (str_eq n) (delete_where (str_eq n) xs) ≡ false
deleted n [] = refl
deleted n (x ∷ xs) = ground (arith, deleted n xs)

still_missing :
    (n p : String) (xs : List String)
    → any_where (str_eq n) xs ≡ false
    → any_where (str_eq n) (delete_where (str_eq p) xs) ≡ false
still_missing n p [] h = refl
still_missing n p (x ∷ xs) h = ground (arith, still_missing n p xs)

look_up-named :
    (name : String) (s : Machine) (d : Domain) → (look_up name s).0 ≡ done d → d.name ≡ name
look_up-named name s d h = ground arith

abbrev small_laws : HostLaws small
small_laws = record {
  Gone = λ name s. any_where (str_eq name) s.defined ≡ false;
  Absent = λ p s. any_where (str_eq p) s.files ≡ false;
  lookup_named = look_up-named;
  undefine_gone = λ d s e. deleted d.name s.defined;
  context_own = λ s e. ground arith;
  power_off_own = λ d s e. ground arith;
  undefine_own = λ d s e. ground arith;
  remove_absent = λ p s e. deleted p s.files;
  gone_calm = λ name. record { remove = λ p s h. h; stat = λ pci s h. h; write = λ pci s h. h };
  absent_calm = λ q. record {
    remove = λ p s h. still_missing q p s.files h;
    stat = λ pci s h. h;
    write = λ pci s h. h;
  };
}

abbrev small_start : StartLaws small
small_start = record {
  Started = λ name s. any_where (str_eq name) s.running ≡ true;
  define_named = λ x s d e. ground arith;
  start_started = λ d s e. ground (arith, str_eq_iff d.name d.name);
  lookup_started = λ n name s h. h;
  state_started = λ n d s h. h;
  context_started = λ n s h. h;
  addresses_started = λ n d s h. h;
}

removes :
    (p : String) (s : Machine)
    → ((small.remove p s).0 ≡ done tt) ⊎ ((small.remove p s).0 ≡ failure not_exist)
removes p s = elim (Bool-cases (any_where (str_eq p) s.files)) [
  | inl t ↦ rw t (inl refl)
  | inr f ↦ rw f (inr refl)
]

abbrev paths : Config
paths = record {
  image_dir = "/images";
  seed_dir = "/seeds";
  base_image = "/base";
  network_name = "";
  disk_size_gb = pos 40;
}

abbrev new_machine : CreateInstance
new_machine = record {
  instance_id = "1";
  name = "vm";
  memory_mb = 1024;
  vcpus = 2;
  ssh_pubkeys = [];
  passthrough_pci_addresses = codes "0000:16:00.0" ∷ [];
}

abbrev empty_run : Run Machine
empty_run = record { host = record { defined = []; running = []; files = [] }; sent = [] }

handle_create-Created_example :
    Created small small_laws small_start paths
      (true ∷ [])
      "1"
      (status "1" vm_provisioning ∷ [])
      (handle_create small paths (true ∷ []) new_machine empty_run)
handle_create-Created_example =
    handle_create-Created small small_laws small_start paths (true ∷ []) new_machine empty_run
      removes

abbrev started : Run Machine
started = (handle_create small paths (true ∷ []) new_machine empty_run).1

-- The creation goes through and tells the address.
created_fine :
    started.sent
    ≡ status "1" vm_provisioning ∷ status "1" vm_running ∷ running_at "1" "10.0.0.5" ∷ []
unfolding handle_create first_ipv4
created_fine = refl

-- While libvirt does not answer a lookup, a destruction removes the files and says `stopped`, and the
-- machine runs on.
abbrev lost : Host Machine
lost = record small { lookup_by_name = λ name s. (failure bad_xml, s) }

stopped_blindly :
    ((handle_destroy lost paths "1" started).1.sent
      ≡ started.sent ++ status "1" vm_stopping ∷ status "1" vm_stopped ∷ [])
    × ((handle_destroy lost paths "1" started).1.host.running ≡ "1" ∷ [])
unfolding handle_destroy handle_create first_ipv4
stopped_blindly = (refl, refl)

abbrev gpu_spec : DomainSpec
gpu_spec = spec_of small paths new_machine

abbrev gpu_xml : DomainXml
gpu_xml = domain_of gpu_spec (
    record {
      mode = "subsystem";
      kind = "pci";
      managed = "yes";
      driver = "vfio";
      address = record {
        domain = codes "0x0000";
        bus = codes "0x16";
        slot = codes "0x00";
        function = codes "0x0";
      };
    }
    ∷ [])
