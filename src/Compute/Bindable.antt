-- ===== src/Compute/Bindable.antt =====
-- Which groups of devices are ready for a machine, and which can be
-- (services/compute-agent/internal/gpu/iommu.go).
use hybrid_cloud_with_claude.Prelude.{
  ℕ, ◌==◌, ◌≡◌, ◌↔◌, refl, inl, inr, Bool, true, false, String, str_eq, str_eq_iff, List, [], ◌∷◌,
  length, All, arith, Bool-cases,
}
use hybrid_cloud_with_claude.Prelude.Bytes.{Bytes}
use hybrid_cloud_with_claude.Compute.Gpu.{
  Reading, got, missing, broken, Sysfs, iommu_enabled, group_members, current_driver, ready_if,
  all_ready, ready_group, vfio_ready, device_class, is_expected_class, add_class, non_gpu_count,
  bindable, verdict, diagnose_group, diagnose_bindability,
}

abbrev pub HasExpectedClass : Sysfs → String → Type 0
HasExpectedClass s m =
    (class : Bytes) × (device_class s m ≡ got class) × (is_expected_class class ≡ true)

module _ (s : Sysfs) where
  add_class-zero :
      (c : Reading Bytes) (r : Reading ℕ)
      → add_class s c r ≡ got 0
      → ((class : Bytes) × (c ≡ got class) × (is_expected_class class ≡ true)) × (r ≡ got 0)
  add_class-zero (got class) (got n) h = elim (Bool-cases (is_expected_class class)) [
    | inl t ↦ ((class, refl, t), ground (arith, h, t))
    | inr f ↦ ground (arith, h, f)
  ]
  add_class-zero (got class) missing h = ground arith
  add_class-zero (got class) broken h = ground arith
  add_class-zero missing r h = ground arith
  add_class-zero broken r h = ground arith

  zero-classes : (ms : List String) → non_gpu_count s ms ≡ got 0 → All (HasExpectedClass s) ms
  unfolding non_gpu_count
  zero-classes [] h = tt
  zero-classes (m ∷ rest) h =
      let (c, r) = add_class-zero (device_class s m) (non_gpu_count s rest) h in
      (c, zero-classes rest r)

  classes-zero : (ms : List String) → All (HasExpectedClass s) ms → non_gpu_count s ms ≡ got 0
  unfolding non_gpu_count
  classes-zero [] h = refl
  classes-zero (m ∷ rest) h = rw (h.0.1, classes-zero rest h.1, h.0.2) refl

  verdict-bindable :
      (total : ℕ) (r : Reading ℕ)
      → verdict s total r ≡ got bindable
      → (r ≡ got 0) × ((total == 0) ≡ false)
  verdict-bindable total (got n) h = ground (arith, h)
  verdict-bindable total missing h = ground arith
  verdict-bindable total broken h = ground arith

  -- The members of a group that can be passed through.
  abbrev pub IsBindable : List String → Type 0
  IsBindable ms = ((length ms == 0) ≡ false) × All (HasExpectedClass s) ms

  bindable-group :
      (g : Reading (List String))
      → diagnose_group s g ≡ got bindable
      → (ms : List String) × (g ≡ got ms) × IsBindable ms
  bindable-group (got ms) h =
      let (r, n) = verdict-bindable (length ms) (non_gpu_count s ms) h in
      (ms, refl, (n, zero-classes ms r))
  bindable-group missing h = ground arith
  bindable-group broken h = ground arith

  ready_if-true :
      (d : Reading String) (r : Reading Bool)
      → ready_if s d r ≡ got true
      → (d ≡ got "vfio-pci") × (r ≡ got true)
  ready_if-true (got driver) r h = elim (Bool-cases (str_eq driver "vfio-pci")) [
    | inl t ↦
        let e : driver ≡ "vfio-pci" = ground (arith, t, str_eq_iff driver "vfio-pci") in
        (rw e refl, ground (arith, h, t))
    | inr f ↦ ground (arith, h, f)
  ]
  ready_if-true missing r h = ground arith
  ready_if-true broken r h = ground arith

  all_ready-Bound :
      (ms : List String)
      → all_ready s ms ≡ got true
      → All (λ m. current_driver s m ≡ got "vfio-pci") ms
  unfolding all_ready
  all_ready-Bound [] h = tt
  all_ready-Bound (m ∷ rest) h =
      let (d, r) = ready_if-true (current_driver s m) (all_ready s rest) h in
      (d, all_ready-Bound rest r)

  bound_all_ready :
      (ms : List String)
      → All (λ m. current_driver s m ≡ got "vfio-pci") ms
      → all_ready s ms ≡ got true
  unfolding all_ready
  bound_all_ready [] h = refl
  bound_all_ready (m ∷ rest) h = rw (h.0, bound_all_ready rest h.1) refl

  ready-group :
      (g : Reading (List String))
      → ready_group s g ≡ got true
      → (ms : List String) × (g ≡ got ms) × All (λ m. current_driver s m ≡ got "vfio-pci") ms
  ready-group (got ms) h = (ms, refl, all_ready-Bound ms h)
  ready-group missing h = ground arith
  ready-group broken h = ground arith

-- A device is bindable exactly if the host has groups and the device's group can be read, is not empty,
-- and has members of the expected classes alone.
pub diagnose_iff :
    (s : Sysfs) (pci : String)
    → (diagnose_bindability s pci ≡ got bindable) ↔ (
        (iommu_enabled s ≡ true)
        × ((ms : List String) × (group_members s pci ≡ got ms) × IsBindable s ms))
unfolding diagnose_bindability
diagnose_iff s pci = elim (Bool-cases (iommu_enabled s)) [
  | inl t ↦ rw t (
    (λ h. (refl, bindable-group s (group_members s pci) h)),
    (λ k. rw (k.1.1, classes-zero s k.1.0 k.1.2.1, k.1.2.0) refl),
  )
  | inr f ↦ rw f ((λ h. ground arith), (λ k. ground (arith, k.0)))
]

-- A device is ready exactly if its group can be read and every member of it is bound to vfio-pci.
pub vfio_ready_iff :
    (s : Sysfs) (pci : String)
    → (vfio_ready s pci ≡ got true) ↔ (
        (ms : List String) × (group_members s pci ≡ got ms)
        × All (λ m. current_driver s m ≡ got "vfio-pci") ms)
unfolding vfio_ready
vfio_ready_iff s pci =
    ((λ h. ready-group s (group_members s pci) h), (λ k. rw k.1 (bound_all_ready s k.0 k.2)))
