-- ===== src/Prelude/Trim.antt =====
-- More of Go's `strings` on lists of bytes: suffixes, spaces and case. The texts are ASCII.
use Prim.Native.Nat.{ℕ, ◌+◌}
use mathlib.Core.Path.{◌≡◌, refl, ap}
use mathlib.Core.Logic.{◌↔◌, inl, inr}
use mathlib.Core.Bool.{Bool, ◌&&◌, ◌||◌}
use mathlib.Core.Option.{Option, none, some}
use mathlib.Core.List.{[], ◌∷◌, ◌++◌, map, reverse}
use native.Mathlib.Omega.{arith}
use hybrid_cloud_with_claude.Prelude.Tests.{Bool-cases, Option-cases, leb, ◌==◌, if◌then◌else◌}
use hybrid_cloud_with_claude.Prelude.Lists.{length, length-append}
use hybrid_cloud_with_claude.Prelude.Bytes.{Bytes, bytes_eq, bytes_eq_iff}

abbrev put_back : ℕ → Option Bytes → Option Bytes
put_back c none = none
put_back c (some p) = some (c ∷ p)

-- What stands before the suffix, if the text has it.
unfoldable pub strip_suffix : Bytes → Bytes → Option Bytes
strip_suffix suffix [] = if bytes_eq [] suffix then some [] else none
strip_suffix suffix (c ∷ s) =
    let later = strip_suffix suffix s in
    if bytes_eq (c ∷ s) suffix then some [] else put_back c later

strip_suffix_sound : (suffix s p : Bytes) → strip_suffix suffix s ≡ some p → s ≡ p ++ suffix
unfolding strip_suffix
strip_suffix_sound suffix [] p h = ground (arith, bytes_eq_iff [] suffix)
strip_suffix_sound suffix (c ∷ s) p h = elim (Option-cases (strip_suffix suffix s)) [
  | inl e ↦ ground (arith, bytes_eq_iff (c ∷ s) suffix)
  | inr (q, e) ↦ ground (arith, bytes_eq_iff (c ∷ s) suffix, strip_suffix_sound suffix s q e)
]

strip_suffix_complete : (suffix p : Bytes) → strip_suffix suffix (p ++ suffix) ≡ some p
unfolding strip_suffix
strip_suffix_complete [] [] = refl
strip_suffix_complete (c ∷ suffix) [] = ground (arith, bytes_eq_iff (c ∷ suffix) (c ∷ suffix))
strip_suffix_complete suffix (c ∷ p) = elim (Bool-cases (bytes_eq (c ∷ (p ++ suffix)) suffix)) [
  | inl t ↦ absurd (
      omega
        (arith, ap length ((bytes_eq_iff (c ∷ (p ++ suffix)) suffix).0 t), length-append p suffix))
  | inr f ↦ rw (f, strip_suffix_complete suffix p) refl
]

pub strip_suffix_iff : (suffix s p : Bytes) → (strip_suffix suffix s ≡ some p) ↔ (s ≡ p ++ suffix)
strip_suffix_iff suffix s p =
    (strip_suffix_sound suffix s p, λ e. rw e (strip_suffix_complete suffix p))

abbrev pub or_all : Bytes → Option Bytes → Bytes
or_all s none = s
or_all s (some p) = p

-- `strings.TrimSuffix`
unfoldable pub trim_suffix : Bytes → Bytes → Bytes
unfolding strip_suffix
trim_suffix suffix s = or_all s (strip_suffix suffix s)

abbrev is_space : ℕ → Bool
is_space c = c == b' ' || (leb 9 c && leb c 13)

unfoldable pub trim_left : Bytes → Bytes
trim_left [] = []
trim_left (c ∷ s) = let rest = trim_left s in if is_space c then rest else c ∷ s

-- `strings.TrimSpace`
unfoldable pub trim_space : Bytes → Bytes
unfolding trim_left
trim_space s = reverse (trim_left (reverse (trim_left s)))

abbrev pub lower_byte : ℕ → ℕ
lower_byte c = if leb b'A' c && leb c b'Z' then c + 32 else c

-- `strings.ToLower`
abbrev pub to_lower : Bytes → Bytes
to_lower s = map lower_byte s
