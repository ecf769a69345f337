-- ===== src/Config/Tests.antt =====
-- The validation of a configuration on an example.
use camblet.Base.{◌≡◌, ◌≢◌, refl, [], ◌∷◌, map, All, none}
use camblet.Base.Result.{ok}
use camblet.Base.Fallible.{value}
use camblet.Base.Text.{join}
use camblet.Tls.Toy.{toy}
use camblet.Config.Environment.{bind_envs, config_shape}
use camblet.Config.Environment.Leaves.{leaves, all_or_panic, bind_envs-leaves}
use camblet.Config.Samples.{read_file, parse_duration, collectors, given, validated}
use camblet.Config.Kubernetes.{kubelet_options, validate_kubernetes}
use camblet.Config.Collectors.{
  linuxos_collector, docker_collector, get_metadata_collector, validate_collectors, validate_procfs,
  validate_docker, defaults,
}
use camblet.Config.Collectors.Enabled.{IsEnabled, get_metadata_collector-IsEnabled}
use camblet.Config.Settings.{validate_agent}
use camblet.Config.Settings.Valid.{validate_agent-twice}

given-validated : validate_agent toy read_file parse_duration given ≡ ok validated
unfolding validate_agent validate_collectors validate_procfs validate_docker validate_kubernetes
    defaults
given-validated = refl

validate_agent-twice_example :
    (validated.trust_domain ≢ "")
    × (validated.local_address ≢ "")
    × (parse_duration validated.default_cert_ttl ≡ value validated.default_cert_ttl_duration)
    × (validate_agent toy read_file parse_duration validated ≡ ok validated)
validate_agent-twice_example =
    validate_agent-twice toy read_file parse_duration given validated given-validated

collected :
    get_metadata_collector toy read_file (λ c. none) collectors
    ≡ ok (linuxos_collector ∷ docker_collector "unix:///var/run/docker.sock" ∷ [])
unfolding get_metadata_collector kubelet_options
collected = refl

get_metadata_collector-IsEnabled_example :
    All
      (IsEnabled toy read_file collectors)
      (linuxos_collector ∷ docker_collector "unix:///var/run/docker.sock" ∷ [])
get_metadata_collector-IsEnabled_example =
    get_metadata_collector-IsEnabled toy read_file collectors (λ c. none)
      (linuxos_collector ∷ docker_collector "unix:///var/run/docker.sock" ∷ []) collected

bound_keys :
    bind_envs (λ key. none) [] config_shape
    ≡ ok (
        "agent.localAddress" ∷ "agent.kernelModuleDevice"
        ∷ "agent.metadataCollectors.procfs.enabled" ∷ "agent.metadataCollectors.procfs.extractEnvs"
        ∷ "agent.metadataCollectors.linuxos.enabled" ∷ "agent.metadataCollectors.sysfsdmi.enabled"
        ∷ "agent.metadataCollectors.azure.enabled" ∷ "agent.metadataCollectors.ec2.enabled"
        ∷ "agent.metadataCollectors.gcp.enabled" ∷ "agent.metadataCollectors.docker.enabled"
        ∷ "agent.metadataCollectors.docker.socketPath"
        ∷ "agent.metadataCollectors.kubernetes.enabled"
        ∷ "agent.metadataCollectors.kubernetes.kubeletHost"
        ∷ "agent.metadataCollectors.kubernetes.kubeletPort"
        ∷ "agent.metadataCollectors.kubernetes.kubeletCA"
        ∷ "agent.metadataCollectors.kubernetes.skipKubeletVerification"
        ∷ "agent.metadataCollectors.kubernetes.credentials" ∷ "agent.trustDomain"
        ∷ "agent.defaultCertTTL" ∷ "agent.-" ∷ "agent.caPEMPath" ∷ "agent.policiesPath"
        ∷ "agent.servicesPath" ∷ [])
unfolding bind_envs
bound_keys = refl

bind_envs-leaves_example :
    bind_envs (λ key. none) [] config_shape
    ≡ all_or_panic (λ key. none) (map (join ".") (leaves config_shape))
bind_envs-leaves_example = bind_envs-leaves (λ key. none) config_shape
