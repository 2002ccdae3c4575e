-- ===== src/Compute/Layouts.antt =====
-- Which layouts Resolve accepts (services/compute-agent/internal/profile/profile.go).
use hybrid_cloud_with_claude.Prelude.{
  ◌+◌, ◌≤◌, ◌≡◌, ◌≢◌, ◌↔◌, inl, inr, refl, sym, ap, Bool, true, false, String, str_eq, str_eq_iff,
  List, [], ◌∷◌, ◌++◌, length, count_where, All, Bool-cases, arith,
}
use hybrid_cloud_with_claude.Prelude.Int.{ℤ, pos, ◌<ℤ◌, eq_ℤ, eq_ℤ_iff}
use hybrid_cloud_with_claude.Compute.Profile.{
  SlotYaml, Layout, ProfileFile, Resolved, Checked, valid, invalid, bind_checked, int_in, text_in,
  claim_gpus, check_size, claim_domain, claim_slots, find_layout, resolve,
}

-- A slot names as many GPUs as its positive size, and the host has each of them.
abbrev pub IsSlot : List ℤ → SlotYaml → Type 0
IsSlot known s =
    (pos 0 <ℤ s.size)
    × (s.size ≡ pos (length s.gpu_indices))
    × All (λ g. int_in g known ≡ true) s.gpu_indices

abbrev pub all_gpus : List SlotYaml → List ℤ
all_gpus [] = []
all_gpus (s ∷ rest) = s.gpu_indices ++ all_gpus rest

abbrev pub all_domains : List SlotYaml → List String
all_domains [] = []
all_domains (s ∷ rest) = s.nvlink_domain ∷ all_domains rest

-- No GPU is in two places, and no NVLink domain is in two slots.
pub record IsLayout (known : List ℤ) (slots : List SlotYaml) : Type 0 where
  pub each : All (IsSlot known) slots
  pub gpus_once : (g : ℤ) → count_where (eq_ℤ g) (all_gpus slots) ≤ 1
  pub domains_once : (d : String) → d ≢ "" → count_where (str_eq d) (all_domains slots) ≤ 1

count-append {ℓ} :
    {A : Type ℓ} (p : A → Bool) (xs ys : List A)
    → count_where p (xs ++ ys) ≡ count_where p xs + count_where p ys
count-append p [] ys = omega arith
count-append p (x ∷ xs) ys = ground (arith, count-append p xs ys)

-- The specification of the loops: what is claimed already counts too.
abbrev Room : List ℤ → List ℤ → Type 0
Room claimed gs = (g : ℤ) → count_where (eq_ℤ g) claimed + count_where (eq_ℤ g) gs ≤ 1

abbrev DomainRoom : List String → List String → Type 0
DomainRoom domains ds =
    (d : String) → d ≢ "" → count_where (str_eq d) domains + count_where (str_eq d) ds ≤ 1

count_of_in : (g : ℤ) (gs : List ℤ) → int_in g gs ≡ true → 1 ≤ count_where (eq_ℤ g) gs
count_of_in g [] h = absurd (ground arith)
count_of_in g (x ∷ gs) h = ground (arith, count_of_in g gs)

count_of_not_in : (g : ℤ) (gs : List ℤ) → int_in g gs ≡ false → count_where (eq_ℤ g) gs ≡ 0
count_of_not_in g [] h = refl
count_of_not_in g (x ∷ gs) h = ground (arith, count_of_not_in g gs)

claim_gpus_sound :
    (known claimed gs : List ℤ) {out : List ℤ}
    → claim_gpus known claimed gs ≡ valid out
    → ((g : ℤ) → count_where (eq_ℤ g) claimed ≤ 1)
    → All (λ g. int_in g known ≡ true) gs
      × Room claimed gs
      × ((g : ℤ)
          → count_where (eq_ℤ g) out ≡ count_where (eq_ℤ g) claimed + count_where (eq_ℤ g) gs)
unfolding claim_gpus
claim_gpus_sound known claimed [] h once = (tt, (λ g. omega (arith, once g)), (λ g. ground arith))
claim_gpus_sound known claimed (x ∷ gs) {out} h once =
    let is_known : int_in x known ≡ true = ground arith in
    let is_free : int_in x claimed ≡ false = ground arith in
    let rest : claim_gpus known (x ∷ claimed) gs ≡ valid out = ground arith in
    let (each, room, counts) =
      claim_gpus_sound known (x ∷ claimed) gs {out = out} rest
        (λ g. ground (arith, once g, count_of_not_in x claimed is_free, eq_ℤ_iff g x)) in
    ((is_known, each), (λ g. ground (arith, room g)), (λ g. ground (arith, counts g)))

claim_gpus_complete :
    (known claimed gs : List ℤ)
    → All (λ g. int_in g known ≡ true) gs
    → Room claimed gs
    → (out : List ℤ) × (claim_gpus known claimed gs ≡ valid out)
unfolding claim_gpus
claim_gpus_complete known claimed [] k room = (claimed, refl)
claim_gpus_complete known claimed (x ∷ gs) k room =
    let is_free : int_in x claimed ≡ false = elim (Bool-cases (int_in x claimed)) [
      | inl t ↦ absurd (ground (arith, count_of_in x claimed t, room x, eq_ℤ_iff x x))
      | inr f ↦ f
    ] in
    let (out, e) = claim_gpus_complete known (x ∷ claimed) gs k.1 (λ g. ground (arith, room g)) in
    (out, rw (k.0, is_free) e)

count_of_text :
    (d : String) (ds : List String) → text_in d ds ≡ true → 1 ≤ count_where (str_eq d) ds
count_of_text d [] h = absurd (ground arith)
count_of_text d (x ∷ ds) h = ground (arith, count_of_text d ds)

count_of_no_text :
    (d : String) (ds : List String) → text_in d ds ≡ false → count_where (str_eq d) ds ≡ 0
count_of_no_text d [] h = refl
count_of_no_text d (x ∷ ds) h = ground (arith, count_of_no_text d ds)

abbrev Once : List String → Type 0
Once ds = (d : String) → d ≢ "" → count_where (str_eq d) ds ≤ 1

claim_domain_sound :
    (domains : List String) (x : String) {out : List String}
    → claim_domain domains x ≡ valid out
    → Once domains
    → Once out
      × ((d : String)
          → d ≢ ""
          → count_where (str_eq d) out
            ≡ count_where (str_eq d) domains + count_where (str_eq d) (x ∷ []))
claim_domain_sound domains x {out} h once =
    let counts : (d : String)
        → d ≢ ""
        → count_where (str_eq d) out
          ≡ count_where (str_eq d) domains + count_where (str_eq d) (x ∷ []) =
      λ d ne. ground (arith, str_eq_iff x "", str_eq_iff d x) in
    (
      (λ d ne. ground (
        arith,
        counts d ne,
        once d ne,
        str_eq_iff x "",
        str_eq_iff d x,
        count_of_no_text x domains,
      )),
      counts,
    )

bind_checked-valid {ℓ κ} :
    {A : Type ℓ} {B : Type κ} (c : Checked A) (f : A → Checked B) {b : B}
    → bind_checked c f ≡ valid b
    → (a : A) × (c ≡ valid a) × (f a ≡ valid b)
bind_checked-valid (valid a) f h = (a, refl, h)
bind_checked-valid (invalid e) f h = cc

check_size_iff :
    (s : SlotYaml)
    → (check_size s ≡ valid tt) ↔ ((pos 0 <ℤ s.size) × (s.size ≡ pos (length s.gpu_indices)))
check_size_iff s = (
  (λ h. (ground arith, ground (arith, eq_ℤ_iff s.size (pos (length s.gpu_indices))))),
  (λ h. ground (arith, h, eq_ℤ_iff s.size (pos (length s.gpu_indices)))),
)

claim_slots_sound :
    (known claimed : List ℤ) (domains : List String) (slots : List SlotYaml)
    → claim_slots known claimed domains slots ≡ valid tt
    → ((g : ℤ) → count_where (eq_ℤ g) claimed ≤ 1)
    → Once domains
    → All (IsSlot known) slots
      × Room claimed (all_gpus slots)
      × DomainRoom domains (all_domains slots)
unfolding claim_slots
claim_slots_sound known claimed domains [] h once donce =
    (tt, (λ g. omega (arith, once g)), (λ d ne. omega (arith, donce d ne)))
claim_slots_sound known claimed domains (s ∷ rest) h once donce =
    let (u, sized, h₁) = bind_checked-valid (check_size s) _ h in
    let (claimed', took, h₂) = bind_checked-valid (claim_gpus known claimed s.gpu_indices) _ h₁ in
    let (domains', named, h₃) = bind_checked-valid (claim_domain domains s.nvlink_domain) _ h₂ in
    let (present, room, counts) =
      claim_gpus_sound known claimed s.gpu_indices {out = claimed'} took once in
    let (donce', dcounts) =
      claim_domain_sound domains s.nvlink_domain {out = domains'} named donce in
    let (each, room', droom') =
      claim_slots_sound known claimed' domains' rest h₃ (λ g. omega (arith, counts g, room g))
        donce' in
    let (positive, size) = (check_size_iff s).0 sized in
    (
      ((positive, size, present), each),
      (λ g. omega (arith, counts g, room' g, count-append (eq_ℤ g) s.gpu_indices (all_gpus rest))),
      (λ d ne. ground (arith, dcounts d ne, droom' d ne)),
    )

claim_domain_complete :
    (domains : List String) (x : String) (ds : List String)
    → DomainRoom domains (x ∷ ds)
    → (out : List String) × (claim_domain domains x ≡ valid out)
claim_domain_complete domains x ds room = elim (Bool-cases (str_eq x "")) [
  | inl t ↦ (domains, rw t refl)
  | inr f ↦ elim (Bool-cases (text_in x domains)) [
    | inl t ↦
        let named : x ≢ "" = λ e. ground (arith, str_eq_iff x "") in
        absurd (ground (arith, count_of_text x domains t, room x named, str_eq_iff x x))
    | inr g ↦ (x ∷ domains, rw (f, g) refl)
  ]
]

claim_slots_complete :
    (known claimed : List ℤ) (domains : List String) (slots : List SlotYaml)
    → All (IsSlot known) slots
    → Room claimed (all_gpus slots)
    → DomainRoom domains (all_domains slots)
    → claim_slots known claimed domains slots ≡ valid tt
unfolding claim_slots
claim_slots_complete known claimed domains [] each room droom = refl
claim_slots_complete known claimed domains (s ∷ rest) each room droom =
    let ((positive, size, present), each') = each in
    let (claimed', took) =
      claim_gpus_complete known claimed s.gpu_indices present
        (λ g. omega (arith, room g, count-append (eq_ℤ g) s.gpu_indices (all_gpus rest))) in
    let (known_too, fits, counts) =
      claim_gpus_sound known claimed s.gpu_indices {out = claimed'} took
        (λ g. omega (arith, room g)) in
    let (domains', named) =
      claim_domain_complete domains s.nvlink_domain (all_domains rest) droom in
    let (donce, dcounts) =
      claim_domain_sound domains s.nvlink_domain {out = domains'} named
        (λ d ne. omega (arith, droom d ne)) in
    rw ((check_size_iff s).1 (positive, size), took, named)
      (claim_slots_complete known claimed' domains' rest each'
        (λ g. omega (arith, counts g, room g, count-append (eq_ℤ g) s.gpu_indices (all_gpus rest)))
        (λ d ne. ground (arith, dcounts d ne, droom d ne)))

-- The slots of a layout pass the loops just when they are a layout that the host can hold.
claim_slots_iff :
    (known : List ℤ) (slots : List SlotYaml)
    → (claim_slots known [] [] slots ≡ valid tt) ↔ IsLayout known slots
claim_slots_iff known slots = (
  (λ h.
      let (each, room, droom) =
        claim_slots_sound known [] [] slots h (λ g. omega arith) (λ d ne. omega arith) in
      record {
        each = each;
        gpus_once = λ g. omega (arith, room g);
        domains_once = λ d ne. omega (arith, droom d ne);
      }),
  (λ l.
      claim_slots_complete known [] [] slots l.each (λ g. omega (arith, l.gpus_once g))
        (λ d ne. omega (arith, l.domains_once d ne))),
)

pub resolve_iff :
    (f : ProfileFile) (hash : String) (host_gpus : List ℤ) (r : Resolved)
    → (resolve f hash host_gpus ≡ valid r) ↔ (
        (l : Layout) × (find_layout f.active f.layouts ≡ valid l)
        × IsLayout host_gpus l.slots
        × (r ≡ record { name = l.name; hash = hash; slots = l.slots }))
unfolding resolve
resolve_iff f hash host_gpus r = (
  (λ h.
      let (l, found, h₁) = bind_checked-valid (find_layout f.active f.layouts) _ h in
      let (u, claimed, h₂) = bind_checked-valid (claim_slots host_gpus [] [] l.slots) _ h₁ in
      (l, found, (claim_slots_iff host_gpus l.slots).0 claimed, ground arith)),
  (λ g.
      let (l, found, ok, e) = g in
      rw (found, (claim_slots_iff host_gpus l.slots).1 ok) (ap valid (sym e))),
)
