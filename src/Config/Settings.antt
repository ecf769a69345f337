-- ===== src/Config/Settings.antt =====
-- pkg/config/agent.go and config.go: the configuration of the agent.
pub mod Valid
use Prim.Native.Nat.{◌*◌, ◌^◌}
use camblet.Base.{ℕ, List, Option, none, some, String, ◌==◌, if◌then◌else◌}
use camblet.Base.Int.{ℤ, pos}
use camblet.Base.Result.{Result, ok, err, ◌>>=◌, wrap_if}
use camblet.Base.Fallible.{Fallible}
use camblet.Tls.Types.{Bytes, Crypto}
use camblet.Tls.Authority.Defs.{lift, hour}
use camblet.Config.Kubernetes.{or_text}
use camblet.Config.Collectors.{CollectorsConfig, validate_collectors}

pub record AgentConfig : Type 0 where
  pub local_address : String
  pub kernel_module_device : String
  pub metadata_collectors : CollectorsConfig
  pub trust_domain : String
  pub default_cert_ttl : String
  pub default_cert_ttl_duration : ℤ
  pub ca_pem_path : String
  pub policies_path : List String
  pub services_path : List String

-- The text of DefaultCertTTLDuration, a day.
abbrev pub default_cert_ttl_text : String
default_cert_ttl_text = "24h0m0s"

abbrev pub with_agent_defaults : AgentConfig → AgentConfig
with_agent_defaults c = record c {
  trust_domain = or_text "camblet" c.trust_domain;
  default_cert_ttl = or_text default_cert_ttl_text c.default_cert_ttl;
  local_address = or_text ":50600" c.local_address;
}

module _ (crypto : Crypto) (read_file : Bytes → Fallible Bytes)
    (parse_duration : String → Fallible ℤ) where
  -- `Validate` of Agent, which `Validate` of Config calls
  unfoldable pub validate_agent : AgentConfig → Result AgentConfig
  unfolding validate_collectors
  validate_agent given = do
    let c = with_agent_defaults given
    d ← wrap_if "invalid default certificate ttl" (lift (parse_duration c.default_cert_ttl))
    collectors ← validate_collectors crypto read_file c.metadata_collectors
    ok (record c { default_cert_ttl_duration = d; metadata_collectors = collectors })
