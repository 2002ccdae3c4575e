-- ===== src/Compute/Starting.antt =====
-- What libvirt's answers leave when a domain is created and when its address is asked for
-- (services/compute-agent/internal/libvirt/manager.go and the poll of vm/handler.go).
use hybrid_cloud_with_claude.Prelude.{
  ◌≡◌, ◌⊎◌, inl, inr, refl, sym, ap, subst, ◌∙◌, Bool, true, false, Bool-cases, String, str_eq,
  List, [], ◌∷◌, ◌++◌, arith,
}
use hybrid_cloud_with_claude.Compute.Xml.{
  DomainSpec, DomainInfo, DomainXml, Outcome, done, failure, build_domain_xml, validate,
  build_hostdevs,
}
use hybrid_cloud_with_claude.Compute.Host.{
  Domain, Host, Run, InstanceStatus, Act, ◌>>=◌, lift, call, attempt, pure,
}
use hybrid_cloud_with_claude.Compute.Manager.{
  found, map_libvirt_state, domain_state, define_and_start, after_start, after_existing,
  create_domain, lookup, domain_ipv4, first_ipv4,
}
use hybrid_cloud_with_claude.Compute.Vm.{Config, running_at, after_ipv4, detect_and_publish_ip}
use hybrid_cloud_with_claude.Compute.Hostdevs.{bind_outcome-done}
use hybrid_cloud_with_claude.Compute.Steps.{At}

-- What a creation relies on: a started domain runs, under the name in its definition, and looking at it
-- does not stop it.
pub record StartLaws {S : Type 0} (host : Host S) : Type 1 where
  pub Started : String → S → Type 0
  pub define_named :
      (x : DomainXml) (s : S) (d : Domain) → (host.define_xml x s).0 ≡ done d → d.name ≡ x.name
  pub start_started :
      (d : Domain) (s : S) → (host.start d s).0 ≡ done tt → Started d.name (host.start d s).1
  pub lookup_started :
      (n name : String) (s : S) → Started n s → Started n (host.lookup_by_name name s).1
  pub state_started :
      (n : String) (d : Domain) (s : S) → Started n s → Started n (host.get_state d s).1
  pub context_started : (n : String) (s : S) → Started n s → Started n (host.context_err s).1
  pub addresses_started :
      (n : String) (d : Domain) (s : S) → Started n s → Started n (host.interface_addresses d s).1

module _ {S : Type 0} where
  -- Whether a step fails or not, what it and the next one keep is kept.
  either-keeps :
      {A B : Type 0} (P : Run S → Type 0) (o : Outcome A) (r : Run S) (f : A → Act S B)
      → P r
      → ((a : A) (r : Run S) → P r → P (f a r).1)
      → P (((λ _. (o, r)) >>= f) r).1
  either-keeps P (done a) r f p next = next a r p
  either-keeps P (failure e) r f p next = p

  step-done :
      {A B : Type 0} (o : Outcome A) (r : Run S) (f : A → Act S B) {b : B}
      → (((λ _. (o, r)) >>= f) r).0 ≡ done b
      → (a : A) × (o ≡ done a) × ((((λ _. (o, r)) >>= f) r) ≡ f a r)
  step-done (done a) r f h = (a, refl, refl)
  step-done (failure e) r f h = cc

xml-name : (spec : DomainSpec) (x : DomainXml) → build_domain_xml spec ≡ done x → x.name ≡ spec.name
unfolding build_domain_xml
xml-name spec x h =
    let (u, ok, h₁) = bind_outcome-done (validate spec) _ h in
    let (hds, built, h₂) = bind_outcome-done (build_hostdevs spec.passthrough_pci) _ h₁ in
    ground arith

module _ {S : Type 0} (host : Host S) (laws : StartLaws host) where
  state-Started :
      (n name : String) (r : Run S)
      → laws.Started n r.host
      → laws.Started n (domain_state host name r).1.host
  unfolding domain_state
  state-Started n name r p =
      either-keeps (λ r. laws.Started n r.host) (found (host.lookup_by_name name r.host).0)
        (record r { host = (host.lookup_by_name name r.host).1 })
        (λ dom. call (host.get_state dom) >>= λ raw. pure (map_libvirt_state raw))
        (laws.lookup_started n name r.host p)
        (λ dom r p.
          either-keeps (λ r. laws.Started n r.host) (host.get_state dom r.host).0
            (record r { host = (host.get_state dom r.host).1 })
            (λ raw. pure (map_libvirt_state raw)) (laws.state_started n dom r.host p)
            (λ raw r p. p))

  after_start-Started :
      (spec : DomainSpec) (dom : Domain) (o : Outcome (Unit {0})) (r : Run S) {info : DomainInfo}
      → (o ≡ done tt → laws.Started dom.name r.host)
      → (after_start host spec dom o r).0 ≡ done info
      → laws.Started dom.name (after_start host spec dom o r).1.host
  after_start-Started spec dom (failure e) r started h = cc
  after_start-Started spec dom (done x) r started h =
      state-Started dom.name spec.name r (started refl)

  define-Started :
      (spec : DomainSpec) (xml : DomainXml) (r : Run S) {info : DomainInfo}
      → (define_and_start host spec xml r).0 ≡ done info
      → laws.Started xml.name (define_and_start host spec xml r).1.host
  define-Started spec xml r {info} h =
      let r₁ : Run S = record r { host = (host.define_xml xml r.host).1 } in
      let (dom, defined, e) =
        step-done (host.define_xml xml r.host).0 r₁
          (λ dom. attempt (call (host.start dom)) (after_start host spec dom)) h in
      let named = laws.define_named xml r.host dom defined in
      let started = host.start dom r₁.host in
      subst (λ n. laws.Started n (define_and_start host spec xml r).1.host) named
        (subst (λ x. laws.Started dom.name x.1.host) (sym e)
          (after_start-Started spec dom started.0 (record r₁ { host = started.1 })
            (laws.start_started dom r₁.host) (ap (λ x. x.0) (sym e) ∙ h)))

  existing-Started :
      (spec : DomainSpec) (xml : DomainXml) (o : Outcome Domain) (r : Run S) {info : DomainInfo}
      → (after_existing host spec xml o r).0 ≡ done info
      → laws.Started xml.name (after_existing host spec xml o r).1.host
  existing-Started spec xml (failure e) r h = define-Started spec xml r h
  existing-Started spec xml (done d) r h = elim (Bool-cases (str_eq d.name "")) [
    | inl t ↦ rw t (define-Started spec xml r (rw t at h))
    | inr f ↦ absurd (ground arith)
  ]

  pub create_domain-Started :
      (spec : DomainSpec) (r : Run S) {info : DomainInfo}
      → (create_domain host spec r).0 ≡ done info
      → laws.Started spec.name (create_domain host spec r).1.host
  unfolding create_domain
  create_domain-Started spec r {info} h =
      let r₁ : Run S = record r { host = (host.context_err r.host).1 } in
      let go : DomainXml → Act S DomainInfo =
        λ xml. attempt (call (host.lookup_by_name spec.name)) (after_existing host spec xml) in
      let (alive, ok, e) =
        step-done (host.context_err r.host).0 r₁ (λ _. lift (build_domain_xml spec) >>= go) h in
      let h₁ = ap (λ x. x.0) (sym e) ∙ h in
      let (xml, built, e₁) = step-done (build_domain_xml spec) r₁ go h₁ in
      let found_one = host.lookup_by_name spec.name r₁.host in
      subst (λ n. laws.Started n (create_domain host spec r).1.host) (xml-name spec xml built)
        (subst (λ x. laws.Started xml.name x.1.host) (sym (e ∙ e₁))
          (existing-Started spec xml found_one.0 (record r₁ { host = found_one.1 })
            (ap (λ x. x.0) (sym e₁) ∙ h₁)))

  -- At most one more message, which tells an address.
  abbrev pub Told : String → List InstanceStatus → Run S → Type 0
  Told id base r =
      (r.sent ≡ base)
      ⊎ ((ip : String) × (str_eq ip "" ≡ false) × (r.sent ≡ base ++ running_at id ip ∷ []))

  module _ (n : String) (base : List InstanceStatus) where
    abbrev pub Up : Run S → Type 0
    Up = At (laws.Started n) base

    domain_ipv4-Up : (id : String) (r : Run S) → Up r → Up (domain_ipv4 host id r).1
    unfolding domain_ipv4
    domain_ipv4-Up id r (p, e) =
        let ask : Domain → Act S String =
          λ dom. call (host.interface_addresses dom) >>= λ ifaces. pure (first_ipv4 ifaces) in
        let looked = λ (r : Run S) (up : Up r).
          either-keeps Up (found (host.lookup_by_name id r.host).0)
            (record r { host = (host.lookup_by_name id r.host).1 }) ask
            (laws.lookup_started n id r.host up.0, up.1)
            (λ dom r (p, e).
              either-keeps Up (host.interface_addresses dom r.host).0
                (record r { host = (host.interface_addresses dom r.host).1 })
                (λ ifaces. pure (first_ipv4 ifaces)) (laws.addresses_started n dom r.host p, e)
                (λ ifaces r up. up)) in
        either-keeps Up (host.context_err r.host).0
          (record r { host = (host.context_err r.host).1 }) (λ _. lookup host id >>= ask)
          (laws.context_started n r.host p, e) (λ _ r up. looked r up)

    abbrev pub Polled : String → Outcome (Unit {0}) × Run S → Type 0
    Polled id o = (o.0 ≡ done tt) × laws.Started n o.1.host × Told id base o.1

    after_ipv4-Polled :
        (cfg : Config) (id : String) (again : Act S (Unit {0}))
        → ((r : Run S) → Up r → Polled id (again r))
        → (o : Outcome String) (r : Run S) → Up r
        → Polled id (after_ipv4 host cfg id again o r)
    after_ipv4-Polled cfg id again next (failure x) r (p, e) = (refl, p, inl e)
    after_ipv4-Polled cfg id again next (done ip) r (p, e) = elim (Bool-cases (str_eq ip "")) [
      | inl t ↦ rw t (next r (p, e))
      | inr f ↦ rw f (refl, p, inr (ip, f, ap (λ l. l ++ running_at id ip ∷ []) e))
    ]

    pub detect-Polled :
        (cfg : Config) (waits : List Bool) (id : String) (r : Run S)
        → Up r
        → Polled id (detect_and_publish_ip host cfg waits id r)
    unfolding detect_and_publish_ip
    detect-Polled cfg [] id r (p, e) = (refl, p, inl e)
    detect-Polled cfg (false ∷ rest) id r (p, e) = (refl, p, inl e)
    detect-Polled cfg (true ∷ rest) id r up =
        after_ipv4-Polled cfg id (detect_and_publish_ip host cfg rest id)
          (λ r up. detect-Polled cfg rest id r up) (domain_ipv4 host id r).0
          (domain_ipv4 host id r).1 (domain_ipv4-Up id r up)

  pub create_domain-silent :
      (spec : DomainSpec) (r : Run S) → (create_domain host spec r).1.sent ≡ r.sent
  unfolding create_domain domain_state
  create_domain-silent spec r = ground arith
