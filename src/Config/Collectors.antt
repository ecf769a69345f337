-- ===== src/Config/Collectors.antt =====
-- pkg/config/metadata/collectors: the configurations of the collectors, their defaults and
-- validation, and the collectors that are put together.
pub mod Enabled
use camblet.Base.{
  Bool, true, false, List, [], ◌∷◌, ◌++◌, Option, none, some, String, ◌==◌, if◌then◌else◌,
}
use camblet.Base.Result.{Error, Result, ok, err, panics, ◌>>=◌}
use camblet.Base.Fallible.{Fallible, value, fails}
use camblet.Tls.Types.{Bytes, Crypto}
use camblet.Config.Kubernetes.{
  pointer_to_bool, or_default, or_text, KubernetesCollectorConfig, validate_kubernetes,
  ClientOption, kubelet_options,
}

pub record ProcfsCollectorConfig : Type 0 where
  pub enabled : Option Bool
  pub extract_envs : Option Bool

pub record DockerCollectorConfig : Type 0 where
  pub enabled : Option Bool
  pub socket_path : String

-- The configurations that have no field but `enabled` are that field.
pub record CollectorsConfig : Type 0 where
  pub procfs : ProcfsCollectorConfig
  pub linuxos : Option Bool
  pub sysfsdmi : Option Bool
  pub azure : Option Bool
  pub ec2 : Option Bool
  pub gcp : Option Bool
  pub docker : DockerCollectorConfig
  pub kubernetes : KubernetesCollectorConfig

unfoldable pub defaults : CollectorsConfig → CollectorsConfig
defaults c = record c {
  procfs = record c.procfs { enabled = or_default false c.procfs.enabled };
  linuxos = or_default true c.linuxos;
  sysfsdmi = or_default false c.sysfsdmi;
}

-- `Validate` of ProcFSCollectorConfig and of DockerCollectorConfig
unfoldable pub validate_procfs : ProcfsCollectorConfig → ProcfsCollectorConfig
validate_procfs c =
    if pointer_to_bool c.enabled
    then record c { extract_envs = or_default true c.extract_envs }
    else c

unfoldable pub validate_docker : DockerCollectorConfig → DockerCollectorConfig
validate_docker c =
    if pointer_to_bool c.enabled
    then record c { socket_path = or_text "unix:///var/run/docker.sock" c.socket_path }
    else c

-- What the collectors of metadatax are made of.
pub data Collector : Type 0 where
  sysfsdmi_collector linuxos_collector azure_collector : Collector
  ec2_collector gcp_collector : Collector
  procfs_collector : Bool → Collector
  docker_collector : String → Collector
  kubernetes_collector : List ClientOption → Collector

module _ (crypto : Crypto) (read_file : Bytes → Fallible Bytes) where
  -- `Validate` of Config
  unfoldable pub validate_collectors : CollectorsConfig → Result CollectorsConfig
  unfolding defaults validate_procfs validate_docker validate_kubernetes
  validate_collectors given = do
    let c = defaults given
    kubernetes ← validate_kubernetes crypto read_file c.kubernetes
    ok (record c {
      procfs = validate_procfs c.procfs;
      docker = validate_docker c.docker;
      kubernetes = kubernetes;
    })

  -- `Instantiate` of a collector that has no options, and of the others; `accepts` is what the
  -- constructors that can fail, those of ec2, docker and the kubelet client, do with it.
  abbrev pub instantiate : Option Bool → Collector → Result Collector
  instantiate enabled collector =
      if pointer_to_bool enabled then ok collector else err "collector is disabled"

  abbrev pub accepted : (Collector → Option Error) → Collector → Result Collector
  accepted accepts collector = elim (accepts collector) [ none ↦ ok collector | some e ↦ err e ]

  abbrev pub instantiate_all :
      (Collector → Option Error) → CollectorsConfig → List (Result Collector)
  instantiate_all accepts cfg =
      instantiate cfg.sysfsdmi sysfsdmi_collector
      ∷ instantiate cfg.procfs.enabled (procfs_collector (pointer_to_bool cfg.procfs.extract_envs))
      ∷ instantiate cfg.linuxos linuxos_collector
      ∷ instantiate cfg.azure azure_collector
      ∷ (instantiate cfg.ec2 ec2_collector >>= accepted accepts)
      ∷ instantiate cfg.gcp gcp_collector
      ∷ (instantiate cfg.docker.enabled (docker_collector cfg.docker.socket_path)
          >>= accepted accepts)
      ∷ (kubelet_options crypto read_file cfg.kubernetes >>= λ opts.
          accepted accepts (kubernetes_collector opts))
      ∷ []

  -- A collector whose construction fails is left out.
  abbrev pub added : List (Result Collector) → Result (List Collector)
  added [] = ok []
  added (ok c ∷ results) = added results >>= λ cs. ok (c ∷ cs)
  added (err e ∷ results) = added results
  added (panics ∷ results) = panics

  unfoldable pub get_metadata_collector :
      (Collector → Option Error) → CollectorsConfig → Result (List Collector)
  unfolding kubelet_options
  get_metadata_collector accepts cfg = added (instantiate_all accepts cfg)
