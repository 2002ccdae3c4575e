-- ===== src/Compute/Manager.antt =====
-- services/compute-agent/internal/libvirt/manager.go: the calls of libvirt behind the handlers.
use hybrid_cloud_with_claude.Prelude.{
  Bool, true, false, not, ◌&&◌, ◌||◌, String, str_eq, Option, none, some, List, [], ◌∷◌,
  if◌then◌else◌,
}
use hybrid_cloud_with_claude.Prelude.Int.{ℤ, pos, eq_ℤ}
use hybrid_cloud_with_claude.Prelude.Bytes.{Bytes, codes, strip_prefix}
use hybrid_cloud_with_claude.Compute.Xml.{
  DomainState, state_unknown, state_running, state_stopped, state_failed, DomainSpec, DomainInfo,
  HostError, domain_not_found, domain_exists, libvirt_says, Outcome, done, failure, DomainXml,
  build_domain_xml, parse_passthrough_pci,
}
use hybrid_cloud_with_claude.Compute.Host.{
  Domain, IfaceAddr, Host, Act, ◌>>=◌, pure, lift, call, attempt,
}

abbrev is_some {ℓ} : {A : Type ℓ} → Option A → Bool
is_some none = false
is_some (some _) = true

-- hasSub
unfoldable pub has_sub : Bytes → Bytes → Bool
unfolding strip_prefix
has_sub sub [] = is_some (strip_prefix sub [])
has_sub sub (c ∷ s) = let later = has_sub sub s in is_some (strip_prefix sub (c ∷ s)) || later

-- isLibvirtDomainNotRunning
unfoldable pub is_not_running : HostError → Bool
unfolding has_sub
is_not_running (libvirt_says text) = has_sub (codes "domain is not running") text
is_not_running _ = false

-- mapLibvirtState
unfoldable pub map_libvirt_state : ℤ → DomainState
map_libvirt_state raw =
    if eq_ℤ raw (pos 1) || eq_ℤ raw (pos 2)
    then state_running
    else if eq_ℤ raw (pos 4) || eq_ℤ raw (pos 5)
    then state_stopped
    else if eq_ℤ raw (pos 6)
    then state_failed
    else state_unknown

abbrev pub state_or_unknown : Outcome DomainState → DomainState
state_or_unknown (done st) = st
state_or_unknown (failure _) = state_unknown

abbrev pub found : Outcome Domain → Outcome Domain
found (done d) = done d
found (failure e) = failure domain_not_found

-- The first IPv4 address that is not empty.
abbrev first_in : List IfaceAddr → Option String
first_in [] = none
first_in (a ∷ rest) =
    let later = first_in rest in
    if eq_ℤ a.kind (pos 0) && not (str_eq a.addr "") then some a.addr else later

abbrev first_of : Option String → String → String
first_of (some ip) later = ip
first_of none later = later

unfoldable pub first_ipv4 : List (List IfaceAddr) → String
first_ipv4 [] = ""
first_ipv4 (ifc ∷ rest) = let later = first_ipv4 rest in first_of (first_in ifc) later

module _ {S : Type 0} (host : Host S) where
  -- A lookup that fails for any reason counts as a missing domain.
  abbrev pub lookup : String → Act S Domain
  lookup name = attempt (call (host.lookup_by_name name)) (λ o. lift (found o))

  -- DomainState; CreateDomain gives it no context.
  unfoldable pub domain_state : String → Act S DomainState
  unfolding map_libvirt_state
  domain_state name = do
    dom ← lookup name
    raw ← call (host.get_state dom)
    pure (map_libvirt_state raw)

  abbrev info_of : DomainSpec → Domain → Outcome DomainState → Act S DomainInfo
  info_of spec dom st =
      pure (record { name = spec.name; uuid = dom.uuid; initial_state = state_or_unknown st })

  abbrev pub after_start : DomainSpec → Domain → Outcome (Unit {0}) → Act S DomainInfo
  after_start spec dom (failure e) = attempt (call (host.undefine dom)) (λ _. lift (failure e))
  after_start spec dom (done _) = attempt (domain_state spec.name) (info_of spec dom)

  abbrev pub define_and_start : DomainSpec → DomainXml → Act S DomainInfo
  define_and_start spec xml = do
    dom ← call (host.define_xml xml)
    attempt (call (host.start dom)) (after_start spec dom)

  abbrev pub after_existing : DomainSpec → DomainXml → Outcome Domain → Act S DomainInfo
  after_existing spec xml (done existing) =
      if str_eq existing.name "" then define_and_start spec xml else lift (failure domain_exists)
  after_existing spec xml (failure _) = define_and_start spec xml

  unfoldable pub create_domain : DomainSpec → Act S DomainInfo
  unfolding build_domain_xml domain_state
  create_domain spec = do
    alive ← call host.context_err
    xml ← lift (build_domain_xml spec)
    attempt (call (host.lookup_by_name spec.name)) (after_existing spec xml)

  abbrev pub after_power_off : Domain → Outcome (Unit {0}) → Act S (Unit {0})
  after_power_off dom (done _) = call (host.undefine dom)
  after_power_off dom (failure e) =
      if is_not_running e then call (host.undefine dom) else lift (failure e)

  unfoldable pub destroy_domain : String → Act S (Unit {0})
  unfolding is_not_running
  destroy_domain name = do
    alive ← call host.context_err
    dom ← lookup name
    attempt (call (host.power_off dom)) (after_power_off dom)

  unfoldable pub domain_passthrough_pci : String → Act S (List Bytes)
  unfolding parse_passthrough_pci
  domain_passthrough_pci name = do
    alive ← call host.context_err
    dom ← lookup name
    xml ← call (host.get_xml dom)
    pure (parse_passthrough_pci xml)

  unfoldable pub domain_ipv4 : String → Act S String
  unfolding first_ipv4
  domain_ipv4 name = do
    alive ← call host.context_err
    dom ← lookup name
    ifaces ← call (host.interface_addresses dom)
    pure (first_ipv4 ifaces)
