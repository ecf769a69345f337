-- ===== src/Config/Settings/Valid.antt =====
-- A configuration that was validated.
use camblet.Base.{
  ◌≡◌, refl, sym, ap, ap₂, ◌≢◌, subst, ◌∙◌, Bool, true, false, Bool-cases, Option, none, some, inl,
  inr, String, ◌==◌, eq_iff, arith, if◌then◌else◌,
}
use camblet.Base.Int.{ℤ}
use camblet.Tls.Authority.Defs.{lift}
use camblet.Tls.Authority.Sign.{lift-ok}
use camblet.Config.Settings.{AgentConfig, with_agent_defaults, validate_agent}
use camblet.Base.Result.{ok, bind-ok_then, ok_inj, wrap_if, wrap_if-ok}
use camblet.Base.Fallible.{Fallible, value}
use camblet.Tls.Types.{Bytes, Crypto}
use camblet.Config.Kubernetes.{
  pointer_to_bool, or_default, or_text, or_port, KubernetesCollectorConfig, get_credentials,
  with_kubelet_defaults, validate_kubernetes,
}
use camblet.Config.Collectors.{
  CollectorsConfig, ProcfsCollectorConfig, DockerCollectorConfig, defaults, validate_procfs,
  validate_docker, validate_collectors,
}

or_default-twice : (d : Bool) (b : Option Bool) → or_default d (or_default d b) ≡ or_default d b
or_default-twice d none = refl
or_default-twice d (some b) = refl

validate_procfs-twice :
    (enabled extract_envs : Option Bool)
    → let c : ProcfsCollectorConfig = record { enabled = enabled; extract_envs = extract_envs } in
      validate_procfs (validate_procfs c) ≡ validate_procfs c
unfolding validate_procfs
validate_procfs-twice none x = refl
validate_procfs-twice (some false) x = refl
validate_procfs-twice (some true) x =
    ap (λ e. record { enabled = some true; extract_envs = e }) (or_default-twice true x)

or_text-twice :
    (d text : String)
    → (if d == "" then false else true) ≡ true
    → or_text d (or_text d text) ≡ or_text d text
or_text-twice d text h = ground (arith, eq_iff d "", eq_iff text "")

or_text-filled : (d text : String) → (if d == "" then false else true) ≡ true → or_text d text ≢ ""
or_text-filled d text h e = ground (arith, eq_iff d "", eq_iff text "")

validate_docker-twice :
    (enabled : Option Bool) (path : String)
    → let c : DockerCollectorConfig = record { enabled = enabled; socket_path = path } in
      validate_docker (validate_docker c) ≡ validate_docker c
unfolding validate_docker
validate_docker-twice none path = refl
validate_docker-twice (some false) path = refl
validate_docker-twice (some true) path =
    ap (λ p. record { enabled = some true; socket_path = p })
      (or_text-twice "unix:///var/run/docker.sock" path refl)

or_port-twice : (p : ℤ) → or_port (or_port p) ≡ or_port p
or_port-twice p = ground arith

with_kubelet_defaults-twice :
    (c : KubernetesCollectorConfig)
    → with_kubelet_defaults (with_kubelet_defaults c) ≡ with_kubelet_defaults c
with_kubelet_defaults-twice c =
    let d = with_kubelet_defaults c in
    ap₂
      (λ h p. record d {
        kubelet_host = h;
        kubelet_port = p;
        skip_kubelet_verification = or_default false d.skip_kubelet_verification;
      })
      (or_text-twice "127.0.0.1" c.kubelet_host refl) (or_port-twice c.kubelet_port)
    ∙ ap (λ s. record d { skip_kubelet_verification = s })
        (or_default-twice false c.skip_kubelet_verification)

module _ (crypto : Crypto) (read_file : Bytes → Fallible Bytes) where
  validate_kubernetes-twice :
      (c d : KubernetesCollectorConfig)
      → validate_kubernetes crypto read_file c ≡ ok d
      → validate_kubernetes crypto read_file d ≡ ok d
  unfolding validate_kubernetes get_credentials
  validate_kubernetes-twice c d h = elim (Bool-cases (pointer_to_bool c.enabled)) [
    | inr off ↦
        let same = ok_inj c d (rw off at h) in
        subst (λ x. validate_kubernetes crypto read_file x ≡ ok x) same (rw off refl)
    | inl on ↦
        let full = with_kubelet_defaults c in
        bind-ok_then (get_credentials crypto read_file full) _ (rw on at h) λ cred e h1.
          subst (λ x. validate_kubernetes crypto read_file x ≡ ok x) (ok_inj full d h1)
            (rw on (rw (with_kubelet_defaults-twice c) (rw e refl)))
  ]

  abbrev complete : CollectorsConfig → KubernetesCollectorConfig → CollectorsConfig
  complete c kubernetes = record (defaults c) {
    procfs = validate_procfs (defaults c).procfs;
    docker = validate_docker c.docker;
    kubernetes = kubernetes;
  }

  validate_procfs-enabled : (c : ProcfsCollectorConfig) → (validate_procfs c).enabled ≡ c.enabled
  unfolding validate_procfs
  validate_procfs-enabled c = elim (Bool-cases (pointer_to_bool c.enabled)) [
    | inl on ↦ rw on refl
    | inr off ↦ rw off refl
  ]

  procfs-twice :
      (c : ProcfsCollectorConfig)
      → let d = validate_procfs (record c { enabled = or_default false c.enabled }) in
        validate_procfs (record d { enabled = or_default false d.enabled }) ≡ d
  procfs-twice c =
      let c' : ProcfsCollectorConfig = record c { enabled = or_default false c.enabled } in
      let d = validate_procfs c' in
      let e = validate_procfs-enabled c' in
      ap (λ x. validate_procfs (record d { enabled = x }))
        (ap (or_default false) e ∙ or_default-twice false c.enabled ∙ sym e)
      ∙ validate_procfs-twice c'.enabled c'.extract_envs

  complete-twice :
      (c : CollectorsConfig) (k : KubernetesCollectorConfig)
      → complete (complete c k) k ≡ complete c k
  unfolding defaults
  complete-twice c k =
      let d = complete c k in
      let build : ProcfsCollectorConfig
          → Option Bool
          → Option Bool
          → DockerCollectorConfig
          → CollectorsConfig =
        λ p l s o. record d { procfs = p; linuxos = l; sysfsdmi = s; docker = o } in
      ap₂ (λ p l. build p l (or_default false d.sysfsdmi) (validate_docker d.docker))
        (procfs-twice c.procfs) (or_default-twice true c.linuxos)
      ∙ ap₂ (λ s o. build d.procfs d.linuxos s o) (or_default-twice false c.sysfsdmi)
          (validate_docker-twice c.docker.enabled c.docker.socket_path)

  validate_collectors-twice :
      (c d : CollectorsConfig)
      → validate_collectors crypto read_file c ≡ ok d
      → validate_collectors crypto read_file d ≡ ok d
  unfolding validate_collectors defaults
  validate_collectors-twice c d h =
      bind-ok_then (validate_kubernetes crypto read_file c.kubernetes) _ h λ k e h1.
        subst (λ x. validate_collectors crypto read_file x ≡ ok x) (ok_inj (complete c k) d h1)
          (rw (validate_kubernetes-twice c.kubernetes k e) (ap ok (complete-twice c k)))

  module _ (parse_duration : String → Fallible ℤ) where
    abbrev complete_agent : AgentConfig → ℤ → CollectorsConfig → AgentConfig
    complete_agent c d collectors = record (with_agent_defaults c) {
      default_cert_ttl_duration = d;
      metadata_collectors = collectors;
    }

    -- A configuration that was validated has a trust domain, a local address, and a certificate
    -- TTL that is the duration of its text; and validating it once more changes nothing.
    pub validate_agent-twice :
        (c d : AgentConfig)
        → validate_agent crypto read_file parse_duration c ≡ ok d
        → (d.trust_domain ≢ "")
          × (d.local_address ≢ "")
          × (parse_duration d.default_cert_ttl ≡ value d.default_cert_ttl_duration)
          × (validate_agent crypto read_file parse_duration d ≡ ok d)
    unfolding validate_agent
    validate_agent-twice c d h =
        let text = (with_agent_defaults c).default_cert_ttl in
        let parse = parse_duration text in
        bind-ok_then (wrap_if _ (lift parse)) _ h λ ttl e_ttl h1.
          bind-ok_then (validate_collectors crypto read_file c.metadata_collectors) _ h1
            λ cs e_cs h2.
              let parses = lift-ok parse ttl (wrap_if-ok _ (lift parse) e_ttl) in
              subst
                (λ x.
                  (x.trust_domain ≢ "")
                  × (x.local_address ≢ "")
                  × (parse_duration x.default_cert_ttl ≡ value x.default_cert_ttl_duration)
                  × (validate_agent crypto read_file parse_duration x ≡ ok x))
                (ok_inj (complete_agent c ttl cs) d h2)
                (
                  or_text-filled "camblet" c.trust_domain refl,
                  or_text-filled ":50600" c.local_address refl,
                  parses,
                  rw (or_text-twice "24h0m0s" c.default_cert_ttl refl) (
                      rw (parses) (
                        rw (validate_collectors-twice c.metadata_collectors cs e_cs) (
                          ap₂
                            (λ t a. ok (record (complete_agent c ttl cs) {
                              trust_domain = t;
                              local_address = a;
                            }))
                            (or_text-twice "camblet" c.trust_domain refl)
                            (or_text-twice ":50600" c.local_address refl)))),
                )
