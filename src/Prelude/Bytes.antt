-- ===== src/Prelude/Bytes.antt =====
-- Texts as lists of bytes, and the functions of Go's `strings` and `strconv` that the program calls on
-- them. A text is ASCII wherever its case or its spaces matter.
use Prim.Native.Nat.{ℕ, ◌+◌, ◌*◌, ◌-◌, ◌^◌}
use Prim.Native.Char.{code}
use Prim.Native.String.{String}
use mathlib.Core.Path.{◌≡◌, refl}
use mathlib.Core.Logic.{◌↔◌, ◌≢◌}
use mathlib.Core.Bool.{Bool, true, false, ◌&&◌}
use mathlib.Core.Option.{Option, none, some}
use mathlib.Core.List.{List, [], ◌∷◌, ◌++◌}
use native.Mathlib.Omega.{arith}
use native.Mathlib.Decide.{ℕ_discrete}
use hybrid_cloud_with_claude.Prelude.Tests.{ltb, leb, ◌==◌, if◌then◌else◌}
use hybrid_cloud_with_claude.Prelude.Rows.{any_where}

abbrev pub Bytes : Type 0
Bytes = List ℕ

-- The bytes of an ASCII text. `String` has its own `[]` and `∷`.
abbrev pub codes : String → Bytes
codes String.[] = []
codes (String.◌∷◌ c s) = code c ∷ codes s

abbrev pub bytes_eq : Bytes → Bytes → Bool
bytes_eq [] [] = true
bytes_eq [] (_ ∷ _) = false
bytes_eq (_ ∷ _) [] = false
bytes_eq (a ∷ s) (b ∷ t) = let rest = bytes_eq s t in a == b && rest

pub bytes_eq_iff : (a b : Bytes) → (bytes_eq a b ≡ true) ↔ (a ≡ b)
bytes_eq_iff [] [] = ground arith
bytes_eq_iff [] (b ∷ t) = ground arith
bytes_eq_iff (a ∷ s) [] = ground arith
bytes_eq_iff (a ∷ s) (b ∷ t) = ground (arith, bytes_eq_iff s t)

abbrev pub is_empty : Bytes → Bool
is_empty [] = true
is_empty (_ ∷ _) = false

-- `strings.Contains` of one byte.
abbrev pub contains_byte : ℕ → Bytes → Bool
contains_byte c s = any_where (λ b. b == c) s

-- What follows the prefix, if the text has it.
unfoldable pub strip_prefix : Bytes → Bytes → Option Bytes
strip_prefix [] s = some s
strip_prefix (p ∷ ps) [] = none
strip_prefix (p ∷ ps) (c ∷ s) = let rest = strip_prefix ps s in if c == p then rest else none

pub strip_prefix_iff : (p s t : Bytes) → (strip_prefix p s ≡ some t) ↔ (s ≡ p ++ t)
unfolding strip_prefix
strip_prefix_iff [] s t = ground arith
strip_prefix_iff (p ∷ ps) [] t = ground arith
strip_prefix_iff (p ∷ ps) (c ∷ s) t = ground (arith, strip_prefix_iff ps s t)

abbrev or_whole : Bytes → Option Bytes → Bytes
or_whole s none = s
or_whole s (some t) = t

-- `strings.TrimPrefix`
unfoldable pub trim_prefix : Bytes → Bytes → Bytes
unfolding strip_prefix
trim_prefix p s = or_whole s (strip_prefix p s)

pub trim_prefix-append : (p s : Bytes) → trim_prefix p (p ++ s) ≡ s
unfolding trim_prefix
trim_prefix-append p s = rw ((strip_prefix_iff p (p ++ s) s).1 refl) refl

-- `strings.Split` at one byte: always at least one part.
abbrev add_byte : ℕ → List Bytes → List Bytes
add_byte c [] = (c ∷ []) ∷ []
add_byte c (part ∷ parts) = (c ∷ part) ∷ parts

unfoldable pub split_on : ℕ → Bytes → List Bytes
split_on sep [] = [] ∷ []
split_on sep (c ∷ s) = let rest = split_on sep s in if c == sep then [] ∷ rest else add_byte c rest

-- `strings.Join` with one byte.
unfoldable pub join_with : ℕ → List Bytes → Bytes
join_with sep [] = []
join_with sep (part ∷ []) = part
join_with sep (part ∷ next ∷ parts) = part ++ sep ∷ join_with sep (next ∷ parts)

join-add_byte :
    (sep c : ℕ) (parts : List Bytes) → join_with sep (add_byte c parts) ≡ c ∷ join_with sep parts
unfolding join_with
join-add_byte sep c [] = refl
join-add_byte sep c (part ∷ []) = refl
join-add_byte sep c (part ∷ next ∷ parts) = refl

join_empty :
    (sep : ℕ) (parts : List Bytes)
    → parts ≢ []
    → join_with sep ([] ∷ parts) ≡ sep ∷ join_with sep parts
unfolding join_with
join_empty sep [] ne = absurd (ne refl)
join_empty sep (part ∷ parts) ne = refl

join_one : (sep : ℕ) → join_with sep ([] ∷ []) ≡ []
unfolding join_with
join_one sep = refl

add_byte-ne : (c : ℕ) (parts : List Bytes) → add_byte c parts ≢ []
add_byte-ne c [] h = ground arith
add_byte-ne c (part ∷ parts) h = ground arith

split-ne : (sep : ℕ) (s : Bytes) → split_on sep s ≢ []
unfolding split_on
split-ne sep [] h = ground arith
split-ne sep (c ∷ s) h = ground (arith, add_byte-ne c (split_on sep s))

-- The parts of a text make it up again.
pub join-split : (sep : ℕ) (s : Bytes) → join_with sep (split_on sep s) ≡ s
unfolding split_on
join-split sep [] = join_one sep
join-split sep (c ∷ s) = elim (ℕ_discrete c sep) [
  | yes e ↦ ground (arith, join_empty sep (split_on sep s) (split-ne sep s), join-split sep s)
  | no ne ↦ ground (arith, join-add_byte sep c (split_on sep s), join-split sep s)
]

-- The digit that a byte stands for in base 16.
unfoldable pub hex_digit : ℕ → Option ℕ
hex_digit c =
    if leb b'0' c && leb c b'9'
    then some (c - b'0')
    else if leb b'a' c && leb c b'f'
    then some (c - b'a' + 10)
    else if leb b'A' c && leb c b'F'
    then some (c - b'A' + 10)
    else none

abbrev hex_step : ℕ → Option ℕ → Option ℕ
hex_step n none = none
hex_step n (some d) = some (n * 16 + d)

unfoldable pub hex_from : Option ℕ → Bytes → Option ℕ
unfolding hex_digit
hex_from none s = none
hex_from (some n) [] = some n
hex_from (some n) (c ∷ s) = hex_from (hex_step n (hex_digit c)) s

abbrev below : ℕ → Option ℕ → Option ℕ
below bound none = none
below bound (some n) = if ltb n bound then some n else none

-- `strconv.ParseUint(s, 16, 32)`
unfoldable pub parse_hex32 : Bytes → Option ℕ
unfolding hex_from
parse_hex32 [] = none
parse_hex32 (c ∷ s) = below (2 ^ 32) (hex_from (some 0) (c ∷ s))
