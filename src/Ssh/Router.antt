-- ===== src/Ssh/Router.antt =====
-- Which target a client of the SSH proxy may reach: services/ssh-proxy/internal/router/router.go.
use hybrid_cloud_with_claude.Prelude.{
  ◌≡◌, ◌≢◌, ◌↔◌, refl, sym, ap, ◌∙◌, false, ◌||◌, Option, some, none, [], ◌∷◌, ◌++◌, if◌then◌else◌,
  arith,
}
use hybrid_cloud_with_claude.Prelude.Bytes.{Bytes, is_empty, contains_byte, trim_prefix}
use hybrid_cloud_with_claude.Prelude.Trim.{strip_suffix, strip_suffix_iff, trim_suffix, to_lower}

pub record Route : Type 0 where
  pub prefix : Bytes
  pub zone : Bytes

pub data Routed : Type 0 where
  routed : Route → Routed
  zone_empty wrong_zone bad_subdomain : Routed

-- What is left of a target that ends in the suffix.
abbrev pub route_prefix : Bytes → Bytes → Routed
route_prefix zone prefix =
    if is_empty prefix || contains_byte b'.' prefix
    then bad_subdomain
    else routed (record { prefix = prefix; zone = zone })

abbrev pub route_suffix : Bytes → Option Bytes → Routed
route_suffix zone none = wrong_zone
route_suffix zone (some prefix) = route_prefix zone prefix

abbrev pub route_in : Bytes → Bytes → Routed
route_in target zone =
    if is_empty zone then zone_empty else route_suffix zone (strip_suffix (b'.' ∷ zone) target)

-- ExtractRoute
unfoldable pub extract_route : Bytes → Bytes → Routed
unfolding trim_suffix trim_prefix strip_suffix
extract_route target zone =
    route_in (to_lower (trim_suffix (b'.' ∷ []) target)) (to_lower (trim_prefix (b'.' ∷ []) zone))

-- The name that a target stands for: without a last dot, in lower case; and the zone's, without a
-- first dot.
abbrev pub host_name : Bytes → Bytes
host_name target = to_lower (trim_suffix (b'.' ∷ []) target)

abbrev pub zone_name : Bytes → Bytes
zone_name zone = to_lower (trim_prefix (b'.' ∷ []) zone)

route_suffix-routed :
    (zone t : Bytes) (o : Option Bytes) (r : Route)
    → strip_suffix (b'.' ∷ zone) t ≡ o
    → route_suffix zone o ≡ routed r
    → (t ≡ r.prefix ++ b'.' ∷ r.zone)
      × (r.zone ≡ zone)
      × (r.prefix ≢ [])
      × (contains_byte b'.' r.prefix ≡ false)
route_suffix-routed zone t none r e h = cc
route_suffix-routed zone t (some p) r e h =
    let ended : t ≡ p ++ b'.' ∷ zone = (strip_suffix_iff (b'.' ∷ zone) t p).0 e in
    let same : record { prefix = p; zone = zone } ≡ r = ground arith in
    (
      ended ∙ ap (λ r. r.prefix ++ b'.' ∷ r.zone) same,
      ap (λ r. r.zone) (sym same),
      (λ k. ground arith),
      ground arith,
    )

route_in-routed :
    (t zone p : Bytes)
    → t ≡ p ++ b'.' ∷ zone
    → zone ≢ []
    → p ≢ []
    → contains_byte b'.' p ≡ false
    → route_in t zone ≡ routed (record { prefix = p; zone = zone })
route_in-routed t [] p e zne pne dot = absurd (zne refl)
route_in-routed t (z ∷ zone) [] e zne pne dot = absurd (pne refl)
route_in-routed t (z ∷ zone) (c ∷ p) e zne pne dot =
    rw ((strip_suffix_iff (b'.' ∷ (z ∷ zone)) t (c ∷ p)).1 e, dot) refl

zone-ne : (t zone : Bytes) (r : Route) → route_in t zone ≡ routed r → zone ≢ []
zone-ne t [] r h = λ e. ground arith
zone-ne t (z ∷ zone) r h = λ e. ground arith

route_in-suffix :
    (t zone : Bytes)
    → zone ≢ []
    → route_in t zone ≡ route_suffix zone (strip_suffix (b'.' ∷ zone) t)
route_in-suffix t [] ne = absurd (ne refl)
route_in-suffix t (z ∷ zone) ne = refl

-- A target has a route just when its name is one label, a dot and the name of the zone: the route's
-- prefix is the label, which is not empty and has no dot, and its zone the zone's name, which is not
-- empty.
pub extract_route_iff :
    (target zone : Bytes) (r : Route)
    → (extract_route target zone ≡ routed r) ↔ (
        (host_name target ≡ r.prefix ++ b'.' ∷ r.zone)
        × (r.zone ≡ zone_name zone)
        × (r.zone ≢ [])
        × (r.prefix ≢ [])
        × (contains_byte b'.' r.prefix ≡ false))
unfolding extract_route
extract_route_iff target zone r = (
  (λ h.
      let t = host_name target in
      let z = zone_name zone in
      let ne = zone-ne t z r h in
      let (name, same, prefix_ne, no_dot) =
        route_suffix-routed z t (strip_suffix (b'.' ∷ z) t) r refl
          (sym (route_in-suffix t z ne) ∙ h) in
      (name, same, (λ e. ne (sym same ∙ e)), prefix_ne, no_dot)),
  (λ (name, same, zone_ne, prefix_ne, no_dot).
      ap (route_in (host_name target)) (sym same)
      ∙ route_in-routed (host_name target) r.zone r.prefix name zone_ne prefix_ne no_dot),
)
