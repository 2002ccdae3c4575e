-- ===== src/Compute/Gpu.antt =====
-- The state of devices for passthrough (services/compute-agent/internal/gpu/iommu.go). What sysfs
-- answers is a parameter: directories, links and files by the address of a device, and the order of
-- names that sort.Strings uses.
use hybrid_cloud_with_claude.Prelude.{
  ℕ, suc, ltb, ◌==◌, Bool, true, false, not, ◌||◌, String, str_eq, Option, some, none, List, [],
  ◌∷◌, length, select_where, sort_by, if◌then◌else◌,
}
use hybrid_cloud_with_claude.Prelude.Bytes.{Bytes, codes, strip_prefix}
use hybrid_cloud_with_claude.Prelude.Trim.{trim_space}

-- A read gives a value, the error of a missing file or device, or another error.
pub data Reading (A : Type 0) : Type 0 where
  got : A → Reading A
  missing broken : Reading A

-- A link gives the last element of its target.
pub record Sysfs : Type 0 where
  pub groups : Reading (List String)
  pub group_link : String → Reading String
  pub devices_of : String → Reading (List String)
  pub driver_link : String → Reading String
  pub has_device : String → Bool
  pub class_file : String → Reading Bytes
  pub name_le : String → String → Bool

abbrev pub some_entry : Reading (List String) → Bool
some_entry (got entries) = ltb 0 (length entries)
some_entry _ = false

-- Any error of the directory of a group is wrapped.
abbrev pub sorted : (String → String → Bool) → Reading (List String) → Reading (List String)
sorted le (got names) = got (sort_by le names)
sorted le _ = broken

abbrev pub driver_or_none : Bool → Reading String → Reading String
driver_or_none there missing = if there then got "" else missing
driver_or_none there driver = driver

abbrev trimmed : Reading Bytes → Reading Bytes
trimmed (got text) = got (trim_space text)
trimmed missing = missing
trimmed broken = broken

abbrev has_prefix : Bytes → String → Bool
has_prefix text p = is_some (strip_prefix (codes p) text)
  where
    is_some : Option Bytes → Bool
    is_some none = false
    is_some (some rest) = true

-- A GPU, a multimedia device, or a USB 3.0 controller.
unfoldable pub is_expected_class : Bytes → Bool
unfolding strip_prefix
is_expected_class class =
    has_prefix class "0x030000"
    || has_prefix class "0x030200"
    || has_prefix class "0x040"
    || has_prefix class "0x0c0330"

pub data Diagnosis : Type 0 where
  bindable not_enabled group_empty : Diagnosis
  needs_review : ℕ → Diagnosis

module _ (s : Sysfs) where
  -- IOMMUEnabled
  unfoldable pub iommu_enabled : Bool
  iommu_enabled = some_entry s.groups

  abbrev pub members_in : Reading String → Reading (List String)
  members_in (got group) = sorted s.name_le (s.devices_of group)
  members_in missing = missing
  members_in broken = broken

  unfoldable pub group_members : String → Reading (List String)
  group_members pci = members_in (s.group_link pci)

  abbrev pub other_than : String → Reading (List String) → Reading (List String)
  other_than pci (got members) = got (select_where (λ m. not (str_eq m pci)) members)
  other_than pci missing = missing
  other_than pci broken = broken

  unfoldable pub companions : String → Reading (List String)
  unfolding group_members
  companions pci = other_than pci (group_members pci)

  unfoldable pub current_driver : String → Reading String
  current_driver pci = driver_or_none (s.has_device pci) (s.driver_link pci)

  abbrev pub ready_if : Reading String → Reading Bool → Reading Bool
  ready_if (got driver) rest = if str_eq driver "vfio-pci" then rest else got false
  ready_if missing rest = missing
  ready_if broken rest = broken

  unfoldable pub all_ready : List String → Reading Bool
  unfolding current_driver
  all_ready [] = got true
  all_ready (m ∷ rest) = ready_if (current_driver m) (all_ready rest)

  abbrev pub ready_group : Reading (List String) → Reading Bool
  ready_group (got members) = all_ready members
  ready_group missing = missing
  ready_group broken = broken

  -- VFIOReady
  unfoldable pub vfio_ready : String → Reading Bool
  unfolding group_members all_ready
  vfio_ready pci = ready_group (group_members pci)

  unfoldable pub device_class : String → Reading Bytes
  device_class pci = trimmed (s.class_file pci)

  abbrev pub add_class : Reading Bytes → Reading ℕ → Reading ℕ
  add_class (got class) (got n) = got (if is_expected_class class then n else suc n)
  add_class (got class) missing = missing
  add_class (got class) broken = broken
  add_class missing rest = missing
  add_class broken rest = broken

  -- The members of another class than those expected, or the first error.
  unfoldable pub non_gpu_count : List String → Reading ℕ
  unfolding device_class is_expected_class
  non_gpu_count [] = got 0
  non_gpu_count (m ∷ rest) = add_class (device_class m) (non_gpu_count rest)

  abbrev pub verdict : ℕ → Reading ℕ → Reading Diagnosis
  verdict total (got n) =
      if ltb 0 n then got (needs_review n) else if total == 0 then got group_empty else got bindable
  verdict total missing = missing
  verdict total broken = broken

  abbrev pub diagnose_group : Reading (List String) → Reading Diagnosis
  diagnose_group (got members) = verdict (length members) (non_gpu_count members)
  diagnose_group missing = missing
  diagnose_group broken = broken

  -- DiagnoseBindability; the texts of the reasons are constructors.
  unfoldable pub diagnose_bindability : String → Reading Diagnosis
  unfolding iommu_enabled group_members non_gpu_count
  diagnose_bindability pci =
      if not iommu_enabled then got not_enabled else diagnose_group (group_members pci)
