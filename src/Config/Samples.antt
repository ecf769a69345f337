-- ===== src/Config/Samples.antt =====
-- A configuration for the examples.
use camblet.Base.{true, false, [], none, some, String}
use camblet.Base.Int.{ℤ, pos}
use camblet.Base.Fallible.{Fallible, value, fails}
use camblet.Tls.Types.{Bytes}
use camblet.Config.Collectors.{CollectorsConfig}
use camblet.Config.Settings.{AgentConfig, default_cert_ttl_text}

abbrev pub read_file : Bytes → Fallible Bytes
read_file path = fails "no such file"

abbrev pub parse_duration : String → Fallible ℤ
parse_duration text = value (pos 86400)

abbrev pub collectors : CollectorsConfig
collectors = record {
  procfs = record { enabled = some false; extract_envs = none };
  linuxos = some true;
  sysfsdmi = some false;
  azure = none;
  ec2 = none;
  gcp = none;
  docker = record { enabled = some true; socket_path = "unix:///var/run/docker.sock" };
  kubernetes = record {
    enabled = none;
    kubelet_host = "";
    kubelet_port = pos 0;
    kubelet_ca = [];
    skip_kubelet_verification = none;
    credentials = [];
  };
}

-- The configuration with the defaults left out, and with them.
abbrev pub given : AgentConfig
given = record {
  local_address = "";
  kernel_module_device = "/dev/camblet";
  metadata_collectors = record collectors {
    procfs = record { enabled = none; extract_envs = none };
    linuxos = none;
    sysfsdmi = none;
    docker = record { enabled = some true; socket_path = "" };
  };
  trust_domain = "";
  default_cert_ttl = "";
  default_cert_ttl_duration = pos 0;
  ca_pem_path = "";
  policies_path = [];
  services_path = [];
}

abbrev pub validated : AgentConfig
validated = record given {
  local_address = ":50600";
  metadata_collectors = collectors;
  trust_domain = "camblet";
  default_cert_ttl = default_cert_ttl_text;
  default_cert_ttl_duration = pos 86400;
}
