-- ===== src/Compute/Vm.antt =====
-- The work of the agent's handlers (services/compute-agent/internal/vm/handler.go and the resets of
-- services/compute-agent/internal/gpu/iommu.go), from the start of an operation to its last message.
use hybrid_cloud_with_claude.Prelude.{
  ℕ, Bool, String, str_eq, none, some, List, [], ◌∷◌, if◌then◌else◌,
}
use hybrid_cloud_with_claude.Prelude.Int.{ℤ, pos, ltb_ℤ}
use hybrid_cloud_with_claude.Prelude.Bytes.{Bytes}
use hybrid_cloud_with_claude.Compute.Xml.{
  DomainSpec, DomainInfo, HostError, domain_not_found, Outcome, done, failure,
}
use hybrid_cloud_with_claude.Compute.Host.{
  SeedRequest, Host, VmState, vm_provisioning, vm_running, vm_stopping, vm_stopped, vm_failed,
  InstanceStatus, Act, ◌>>◌, pure, call, attempt, send,
}
use hybrid_cloud_with_claude.Compute.Manager.{
  create_domain, destroy_domain, domain_passthrough_pci, domain_ipv4,
}

pub record Config : Type 0 where
  pub image_dir : String
  pub seed_dir : String
  pub base_image : String
  pub network_name : String
  pub disk_size_gb : ℤ

-- The CreateInstance message.
pub record CreateInstance : Type 0 where
  pub instance_id : String
  pub name : String
  pub memory_mb : ℕ
  pub vcpus : ℕ
  pub ssh_pubkeys : List String
  pub passthrough_pci_addresses : List Bytes

abbrev pub status : String → VmState → InstanceStatus
status id state = record { instance_id = id; state = state; vm_internal_ip = ""; error = none }

abbrev pub failed_status : String → HostError → InstanceStatus
failed_status id e = record {
  instance_id = id;
  state = vm_failed;
  vm_internal_ip = "";
  error = some e;
}

abbrev pub running_at : String → String → InstanceStatus
running_at id ip = record {
  instance_id = id;
  state = vm_running;
  vm_internal_ip = ip;
  error = none;
}

abbrev network_or_default : Config → String
network_or_default cfg = if str_eq cfg.network_name "" then "default" else cfg.network_name

abbrev pub pcis_of : Outcome (List Bytes) → List Bytes
pcis_of (done pcis) = pcis
pcis_of (failure _) = []

module _ {S : Type 0} (host : Host S) (cfg : Config) where
  abbrev pub disk_path : String → String
  disk_path id = host.join_path cfg.image_dir id ".qcow2"

  abbrev pub seed_path : String → String
  seed_path id = host.join_path cfg.seed_dir id ".iso"

  -- `if h.cfg.DiskSizeGB > 0 { … }`
  abbrev resize_disk : String → Act S (Unit {0})
  resize_disk id =
      if ltb_ℤ (pos 0) cfg.disk_size_gb
      then call (host.image_resize (disk_path id) cfg.disk_size_gb)
      else pure tt

  -- `if h.cfg.BaseImage != "" { … }`
  abbrev pub prepare_disk : String → Act S (Unit {0})
  prepare_disk id = if str_eq cfg.base_image "" then pure tt else (do
    call (host.image_create cfg.base_image (disk_path id))
    call (host.chmod (disk_path id))
    resize_disk id)

  abbrev seed_of : CreateInstance → SeedRequest
  seed_of req = record {
    instance_id = req.instance_id;
    hostname = req.name;
    ssh_pubkeys = req.ssh_pubkeys;
  }

  unfoldable pub prepare_files : CreateInstance → Act S (Unit {0})
  prepare_files req = do
    call (host.mkdir_all cfg.image_dir)
    call (host.mkdir_all cfg.seed_dir)
    prepare_disk req.instance_id
    call (host.open_truncated (seed_path req.instance_id))
    call (host.build_seed (seed_path req.instance_id) (seed_of req))

  -- A file that cannot be removed is logged.
  abbrev pub remove_file : String → Act S (Unit {0})
  remove_file path = attempt (call (host.remove path)) (λ _. pure tt)

  unfoldable pub cleanup_files : String → Act S (Unit {0})
  cleanup_files id = remove_file (disk_path id) >> remove_file (seed_path id)

  -- ResetDevice
  unfoldable pub reset_device : Bytes → Act S (Unit {0})
  reset_device pci = call (host.stat_reset pci) >> call (host.write_reset pci)

  -- `if !h.sysfs.HasResetFile(pci) { continue }`, and a reset that fails is logged.
  abbrev pub after_stat : Bytes → Outcome (Unit {0}) → Act S (Unit {0})
  after_stat pci (failure _) = pure tt
  after_stat pci (done _) = attempt (reset_device pci) (λ _. pure tt)

  unfoldable pub reset_devices : List Bytes → Act S (Unit {0})
  unfolding reset_device
  reset_devices [] = pure tt
  reset_devices (pci ∷ rest) =
      attempt (call (host.stat_reset pci)) (after_stat pci) >> reset_devices rest

  abbrev pub spec_of : CreateInstance → DomainSpec
  spec_of req = record {
    name = req.instance_id;
    memory_mib = req.memory_mb;
    vcpus = req.vcpus;
    disk_path = disk_path req.instance_id;
    cloud_init_iso_path = seed_path req.instance_id;
    network_name = network_or_default cfg;
    machine_type = "";
    emulator = "";
    passthrough_pci = req.passthrough_pci_addresses;
  }

  -- One turn of the loop waits for three seconds; `none` is a shutdown or the end of the context.
  abbrev pub after_ipv4 : String → Act S (Unit {0}) → Outcome String → Act S (Unit {0})
  after_ipv4 id again (failure _) = pure tt
  after_ipv4 id again (done ip) = if str_eq ip "" then again else send (running_at id ip)

  -- detectAndPublishIP; `waits` says of each turn before the deadline whether its wait came to its end.
  unfoldable pub detect_and_publish_ip : List Bool → String → Act S (Unit {0})
  unfolding domain_ipv4
  detect_and_publish_ip [] id = pure tt
  detect_and_publish_ip (waited ∷ rest) id =
      let again = detect_and_publish_ip rest id in
      if waited then attempt (domain_ipv4 host id) (after_ipv4 id again) else pure tt

  -- `waits` is that of the poll for the address, which a creation that succeeds starts. The poll runs on
  -- beside later operations: its calls see the host as it is then, and `sent` holds the messages of the
  -- creation and of its poll alone.
  module _ (waits : List Bool) where
    abbrev pub after_create : CreateInstance → Outcome DomainInfo → Act S (Unit {0})
    after_create req (failure e) = do
      cleanup_files req.instance_id
      reset_devices req.passthrough_pci_addresses
      send (failed_status req.instance_id e)
    after_create req (done info) =
        send (status req.instance_id vm_running) >> detect_and_publish_ip waits req.instance_id

    abbrev pub after_prepare : CreateInstance → Outcome (Unit {0}) → Act S (Unit {0})
    after_prepare req (failure e) = do
      cleanup_files req.instance_id
      send (failed_status req.instance_id e)
    after_prepare req (done _) = attempt (create_domain host (spec_of req)) (after_create req)

    -- handleCreate, of the operation that it acquired, with the poll that it starts.
    unfoldable pub handle_create : CreateInstance → Act S (Unit {0})
    unfolding prepare_files cleanup_files reset_devices create_domain detect_and_publish_ip
    handle_create req = do
      send (status req.instance_id vm_provisioning)
      attempt (prepare_files req) (after_prepare req)

  abbrev pub finish_destroy : String → List Bytes → Act S (Unit {0})
  finish_destroy id pcis = do cleanup_files id; reset_devices pcis; send (status id vm_stopped)

  abbrev pub after_destroy : String → List Bytes → Outcome (Unit {0}) → Act S (Unit {0})
  after_destroy id pcis (done _) = finish_destroy id pcis
  after_destroy id pcis (failure domain_not_found) = finish_destroy id pcis
  after_destroy id pcis (failure e) = send (failed_status id e)

  -- handleDestroy, of the operation that it acquired.
  unfoldable pub handle_destroy : String → Act S (Unit {0})
  unfolding cleanup_files reset_devices destroy_domain domain_passthrough_pci
  handle_destroy id = do
    send (status id vm_stopping)
    attempt (domain_passthrough_pci host id)
        (λ pcis. attempt (destroy_domain host id) (after_destroy id (pcis_of pcis)))
