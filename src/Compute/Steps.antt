-- ===== src/Compute/Steps.antt =====
-- Reasoning on the handlers of the agent (services/compute-agent/internal/vm/handler.go): what they rely
-- on, and what a sequence of steps leaves.
use hybrid_cloud_with_claude.Prelude.{
  ◌≡◌, ◌≢◌, ◌⊎◌, refl, subst, sym, ap, String, List, [], ◌∷◌, ◌++◌,
}
use hybrid_cloud_with_claude.Prelude.Bytes.{Bytes}
use hybrid_cloud_with_claude.Compute.Xml.{domain_not_found, not_exist, Outcome, done, failure}
use hybrid_cloud_with_claude.Compute.Host.{
  Domain, Host, Run, InstanceStatus, Act, ◌>>◌, call, attempt, send,
}
use hybrid_cloud_with_claude.Compute.Vm.{
  Config, disk_path, seed_path, remove_file, cleanup_files, after_stat, reset_device, reset_devices,
}

-- What the removal of files and the reset of devices do not change.
pub record Calm {S : Type 0} (host : Host S) (P : S → Type 0) : Type 0 where
  pub remove : (p : String) (s : S) → P s → P (host.remove p s).1
  pub stat : (pci : Bytes) (s : S) → P s → P (host.stat_reset pci s).1
  pub write : (pci : Bytes) (s : S) → P s → P (host.write_reset pci s).1

-- What the handlers rely on. `Gone` says that no domain has the name, and `Absent` that no file has the
-- path. A domain that was undefined is gone, a file that was removed or not found is absent, and the package's own error is not one of libvirt's, nor of a context.
pub record HostLaws {S : Type 0} (host : Host S) : Type 1 where
  pub Gone : String → S → Type 0
  pub Absent : String → S → Type 0
  pub lookup_named :
      (name : String) (s : S) (d : Domain) → (host.lookup_by_name name s).0 ≡ done d → d.name ≡ name
  pub undefine_gone :
      (d : Domain) (s : S) → (host.undefine d s).0 ≡ done tt → Gone d.name (host.undefine d s).1
  pub context_own : (s : S) → (host.context_err s).0 ≢ failure domain_not_found
  pub power_off_own : (d : Domain) (s : S) → (host.power_off d s).0 ≢ failure domain_not_found
  pub undefine_own : (d : Domain) (s : S) → (host.undefine d s).0 ≢ failure domain_not_found
  pub remove_absent :
      (p : String) (s : S)
      → ((host.remove p s).0 ≡ done tt) ⊎ ((host.remove p s).0 ≡ failure not_exist)
      → Absent p (host.remove p s).1
  pub gone_calm : (name : String) → Calm host (Gone name)
  pub absent_calm : (p : String) → Calm host (Absent p)

-- From a run of which P holds, the steps come to their end, and leave one of which Q holds.
abbrev pub Steps : {S : Type 0} → (Run S → Type 0) → Act S (Unit {0}) → (Run S → Type 0) → Type 0
Steps P m Q = (r : Run _) → P r → ((m r).0 ≡ done tt) × Q (m r).1

-- P holds of the host, and the messages are these.
abbrev pub At : {S : Type 0} → (S → Type 0) → List InstanceStatus → Run S → Type 0
At P base r = P r.host × (r.sent ≡ base)

continue-done :
    {S B : Type 0} (o : Outcome (Unit {0})) (r : Run S) (n : Act S B)
    → o ≡ done tt
    → ((λ _. (o, r)) >> n) r ≡ n r
continue-done (done a) r n h = refl
continue-done (failure e) r n h = cc

pub Steps-seq :
    {S : Type 0} (P Q R : Run S → Type 0) (m n : Act S (Unit {0}))
    → Steps P m Q
    → Steps Q n R
    → Steps P (m >> n) R
Steps-seq P Q R m n first second r p =
    let (ended, q) = first r p in
    subst (λ x. (x.0 ≡ done tt) × R x.1) (sym (continue-done (m r).0 (m r).1 n ended))
      (second (m r).1 q)

-- After steps that come to their end the program goes on.
pub after-steps :
    {S B : Type 0} (P Q : Run S → Type 0) (m : Act S (Unit {0})) (n : Act S B)
    → Steps P m Q
    → (r : Run S) → P r
    → ((m >> n) r ≡ n (m r).1) × Q (m r).1
after-steps P Q m n first r p =
    let (ended, q) = first r p in (continue-done (m r).0 (m r).1 n ended, q)

pub Steps-send :
    {S : Type 0} (P : S → Type 0) (base : List InstanceStatus) (status : InstanceStatus)
    → Steps (At P base) (send status) (At P (base ++ status ∷ []))
Steps-send P base status r (p, e) = (refl, (p, ap (λ l. l ++ status ∷ []) e))

-- Whether the first step fails or not.
after-either :
    {S : Type 0} (P : Run S → Type 0) (o : Outcome (Unit {0})) (r : Run S) (n : Act S (Unit {0}))
    → P r
    → ((r : Run S) → P r → P (n r).1)
    → P (((λ _. (o, r)) >> n) r).1
after-either P (done a) r n p next = next r p
after-either P (failure e) r n p next = p

module _ {S : Type 0} (host : Host S) (cfg : Config) where
  pub remove_file-Steps :
      (P : S → Type 0) (base : List InstanceStatus) (path : String)
      → Calm host P
      → Steps (At P base) (remove_file host cfg path) (At P base)
  remove_file-Steps P base path calm r (p, e) = (refl, (calm.remove path r.host p, e))

  reset_device-At :
      (P : S → Type 0) (base : List InstanceStatus) (pci : Bytes) (r : Run S)
      → Calm host P
      → At P base r
      → At P base (reset_device host cfg pci r).1
  unfolding reset_device
  reset_device-At P base pci r calm (p, e) =
      after-either (At P base) (host.stat_reset pci r.host).0
        (record r { host = (host.stat_reset pci r.host).1 }) (call (host.write_reset pci))
        (calm.stat pci r.host p, e) (λ r (p, e). (calm.write pci r.host p, e))

  after_stat-Steps :
      (P : S → Type 0) (base : List InstanceStatus) (pci : Bytes)
      → Calm host P
      → (o : Outcome (Unit {0})) → Steps (At P base) (after_stat host cfg pci o) (At P base)
  after_stat-Steps P base pci calm (failure x) r at = (refl, at)
  after_stat-Steps P base pci calm (done x) r at = (refl, reset_device-At P base pci r calm at)

  pub reset_devices-Steps :
      (P : S → Type 0) (base : List InstanceStatus) (pcis : List Bytes)
      → Calm host P
      → Steps (At P base) (reset_devices host cfg pcis) (At P base)
  unfolding reset_devices
  reset_devices-Steps P base [] calm r at = (refl, at)
  reset_devices-Steps P base (pci ∷ pcis) calm r at =
      Steps-seq (At P base) (At P base) (At P base)
        (attempt (call (host.stat_reset pci)) (after_stat host cfg pci))
        (reset_devices host cfg pcis)
        (λ r (p, e).
          after_stat-Steps P base pci calm (host.stat_reset pci r.host).0
            (record r { host = (host.stat_reset pci r.host).1 }) (calm.stat pci r.host p, e))
        (reset_devices-Steps P base pcis calm) r at

  pub both-Calm : (P Q : S → Type 0) → Calm host P → Calm host Q → Calm host (λ s. P s × Q s)
  both-Calm P Q p q = record {
    remove = λ path s (a, b). (p.remove path s a, q.remove path s b);
    stat = λ pci s (a, b). (p.stat pci s a, q.stat pci s b);
    write = λ pci s (a, b). (p.write pci s a, q.write pci s b);
  }

  -- A cleanup leaves neither of the two files.
  abbrev pub Cleared : HostLaws host → String → (S → Type 0) → S → Type 0
  Cleared laws id P s =
      P s × (laws.Absent (disk_path host cfg id) s × laws.Absent (seed_path host cfg id) s)

  pub cleanup_files-Steps :
      (laws : HostLaws host) (P : S → Type 0) (base : List InstanceStatus) (id : String)
      → Calm host P
      → ((p : String) (s : S)
          → ((host.remove p s).0 ≡ done tt) ⊎ ((host.remove p s).0 ≡ failure not_exist))
      → Steps (At P base) (cleanup_files host cfg id) (At (Cleared laws id P) base)
  unfolding cleanup_files
  cleanup_files-Steps laws P base id calm removes r (p, e) =
      let disk = disk_path host cfg id in
      let seed = seed_path host cfg id in
      let s₁ = (host.remove disk r.host).1 in
      (
        refl,
        (
          (
            calm.remove seed s₁ (calm.remove disk r.host p),
            (
              (laws.absent_calm disk).remove seed s₁
                  (laws.remove_absent disk r.host (removes disk r.host)),
              laws.remove_absent seed s₁ (removes seed s₁),
            ),
          ),
          e,
        ),
      )
