-- ===== src/Compute/Profile.antt =====
-- The profile of a node: services/compute-agent/internal/profile/profile.go. Reading the file, its
-- YAML and its hash are left to the caller.
use hybrid_cloud_with_claude.Prelude.{
  ℕ, ◌+◌, ◌==◌, Bool, not, String, str_eq, List, [], ◌∷◌, length, any_where, if◌then◌else◌,
}
use hybrid_cloud_with_claude.Prelude.Int.{ℤ, pos, leb_ℤ, eq_ℤ}
use hybrid_cloud_with_claude.Slot.Repo.{ProfileSlot}

pub record SlotYaml : Type 0 where
  pub size : ℤ
  pub gpu_indices : List ℤ
  pub nvlink_domain : String

pub record Layout : Type 0 where
  pub name : String
  pub slots : List SlotYaml

pub record ProfileFile : Type 0 where
  pub active : String
  pub layouts : List Layout

pub record Resolved : Type 0 where
  pub name : String
  pub hash : String
  pub slots : List SlotYaml

pub data ProfileError : Type 0 where
  active_missing slot_size_mismatch unknown_gpu duplicate_gpu : ProfileError
  empty_gpu_indices shared_nvlink_domain : ProfileError

pub data Checked {ℓ} (A : Type ℓ) : Type ℓ where
  valid : A → Checked A
  invalid : ProfileError → Checked A

abbrev pub bind_checked {ℓ κ} : {A : Type ℓ} {B : Type κ} → Checked A → (A → Checked B) → Checked B
bind_checked (valid a) f = f a
bind_checked (invalid e) f = invalid e

abbrev pub int_in : ℤ → List ℤ → Bool
int_in g gs = any_where (eq_ℤ g) gs

abbrev pub text_in : String → List String → Bool
text_in d ds = any_where (str_eq d) ds

-- The loop over one slot's GPUs; `claimed` is the set of the GPUs that are taken.
unfoldable pub claim_gpus : List ℤ → List ℤ → List ℤ → Checked (List ℤ)
claim_gpus known claimed [] = valid claimed
claim_gpus known claimed (g ∷ gs) =
    let rest = claim_gpus known (g ∷ claimed) gs in
    if not (int_in g known)
    then invalid unknown_gpu
    else if int_in g claimed
    then invalid duplicate_gpu
    else rest

abbrev pub check_size : SlotYaml → Checked (Unit {0})
check_size s =
    if leb_ℤ s.size (pos 0)
    then invalid slot_size_mismatch
    else if length s.gpu_indices == 0
    then invalid empty_gpu_indices
    else if not (eq_ℤ s.size (pos (length s.gpu_indices)))
    then invalid slot_size_mismatch
    else valid tt

abbrev pub claim_domain : List String → String → Checked (List String)
claim_domain domains d =
    if str_eq d ""
    then valid domains
    else if text_in d domains
    then invalid shared_nvlink_domain
    else valid (d ∷ domains)

-- The loop over the slots of the active layout.
unfoldable pub claim_slots : List ℤ → List ℤ → List String → List SlotYaml → Checked (Unit {0})
unfolding claim_gpus
claim_slots known claimed domains [] = valid tt
claim_slots known claimed domains (s ∷ rest) = bind_checked (check_size s) λ _.
    bind_checked (claim_gpus known claimed s.gpu_indices) λ claimed'.
      bind_checked (claim_domain domains s.nvlink_domain)
        λ domains'. claim_slots known claimed' domains' rest

-- The first layout of the name.
unfoldable pub find_layout : String → List Layout → Checked Layout
find_layout active [] = invalid active_missing
find_layout active (l ∷ rest) =
    let later = find_layout active rest in if str_eq l.name active then valid l else later

-- Resolve; `hash` is the hash of the raw file.
unfoldable pub resolve : ProfileFile → String → List ℤ → Checked Resolved
unfolding find_layout claim_slots
resolve f hash host_gpus = bind_checked (find_layout f.active f.layouts) λ l.
    bind_checked (claim_slots host_gpus [] [] l.slots)
      λ _. valid (record { name = l.name; hash = hash; slots = l.slots })

-- Proto: the slots are numbered in their order. The rows of main-api take the same four fields
-- (toProfileSlots of services/main-api/internal/grpc/agent_stream.go).
abbrev pub slot_spec : ℕ → SlotYaml → ProfileSlot
slot_spec i s = record {
  slot_index = pos i;
  gpu_count = s.size;
  gpu_indices = s.gpu_indices;
  nvlink_domain = s.nvlink_domain;
}

unfoldable pub proto_from : ℕ → List SlotYaml → List ProfileSlot
proto_from i [] = []
proto_from i (s ∷ rest) = slot_spec i s ∷ proto_from (i + 1) rest

unfoldable pub proto : Resolved → List ProfileSlot
unfolding proto_from
proto r = proto_from 0 r.slots
