-- ===== src/Examples/Gpus.antt =====
-- The theorems on devices at a host with a GPU and its audio device
-- (services/compute-agent/internal/gpu).
use hybrid_cloud_with_claude.Prelude.{
  ◌≡◌, ◌↔◌, refl, String, str_eq, false, true, List, [], ◌∷◌, if◌then◌else◌,
}
use hybrid_cloud_with_claude.Prelude.Bytes.{codes, strip_prefix}
use hybrid_cloud_with_claude.Prelude.Trim.{trim_space, trim_left}
use hybrid_cloud_with_claude.Compute.Gpu.{
  Sysfs, got, missing, companions, group_members, iommu_enabled, device_class, is_expected_class,
  non_gpu_count, current_driver, vfio_ready, all_ready, bindable, diagnose_bindability,
}
use hybrid_cloud_with_claude.Compute.Bindable.{IsBindable, diagnose_iff}

abbrev host : Sysfs
host = record {
  groups = got ("16" ∷ []);
  group_link = λ pci. got "16";
  devices_of = λ group. got ("16:00.1" ∷ "16:00.0" ∷ []);
  driver_link = λ pci. if str_eq pci "16:00.0" then got "vfio-pci" else missing;
  has_device = λ pci. true;
  class_file = λ pci. got (codes (if str_eq pci "16:00.0" then "0x030000" else "0x040300"));
  name_le = λ a b. str_eq a "16:00.0";
}

audio : companions host "16:00.0" ≡ got ("16:00.1" ∷ [])
unfolding companions group_members
audio = refl

-- No driver is bound to the audio device.
half_bound : vfio_ready host "16:00.0" ≡ got false
unfolding vfio_ready all_ready current_driver group_members
half_bound = refl

is_bindable : diagnose_bindability host "16:00.0" ≡ got bindable
unfolding diagnose_bindability iommu_enabled group_members non_gpu_count device_class
    is_expected_class strip_prefix trim_space trim_left
is_bindable = refl

diagnose_iff_example : (diagnose_bindability host "16:00.0" ≡ got bindable) ↔ (
    (iommu_enabled host ≡ true)
    × ((ms : List String) × (group_members host "16:00.0" ≡ got ms) × IsBindable host ms))
diagnose_iff_example = diagnose_iff host "16:00.0"
