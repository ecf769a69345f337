-- ===== src/Cli/Commander/Tests.antt =====
-- The handlers of an agent on an example.
use camblet.Base.{false, ◌≡◌, refl, [], ◌∷◌, none, String}
use camblet.Base.Assoc.{Assoc, lookup, insert}
use camblet.Base.Result.{ok}
use camblet.Base.Fallible.{value, fails}
use camblet.Tls.Toy.{toy_platform, loaded_ca}
use camblet.Tls.Parser.Keys.{
  convert_public_key, convert_private_key, convert_rsa_private_key, parse_x509_private_key,
}
use camblet.Tls.Parser.Certificates.{parse_x509_certificate_from_der, convert_x509_certificate}
use camblet.Tls.Parser.Blocks.{parse_pem, read_files}
use camblet.Tls.Authority.Defs.{Ca, load, first_ca, all_certificates, get_intermediates}
use camblet.Agent.Commands.Augment.{TtlCache}
use camblet.Config.Collectors.{linuxos_collector, docker_collector}
use camblet.Config.Samples.{read_file, validated}
use camblet.Cli.Ca.Samples.{keeping, fs, later}
use camblet.Cli.Commander.{CommanderParts, Registered, handlers_of, run_commander}
use camblet.Cli.Commander.Registers.{Started, run_commander-Started}

abbrev cache : TtlCache (Assoc String)
cache = record { delete_expired = λ s. s; get = λ k s. (lookup k s, s); set = insert }

abbrev parts : CommanderParts (Assoc String)
parts = record {
  config = record validated { ca_pem_path = "ca.pem" };
  crypto = keeping;
  platform = toy_platform;
  fs = fs;
  later = later;
  path_dir = λ path. ".";
  formats = record {
    unmarshal = λ text. fails "no JSON";
    parse_duration = λ text. fails "invalid duration";
    bytes = λ text. [];
    marshal = λ cert chain anchors. value "{}";
  };
  unmarshal_log = λ text. fails "no JSON";
  publish_error = none;
  read_content = read_file;
  accepts = λ collector. none;
  get_metadata = λ collectors pid. [];
  marshal_labels = λ labels. value "{}";
  ttl_cache = cache;
  new_cache = [];
  tolerated = λ e. false;
  processes = [];
}

abbrev ca : Ca
ca = record loaded_ca { pem = none; pem_file = "ca.pem" }

abbrev registered : Registered parts
registered = (
  handlers_of parts ca (linuxos_collector ∷ docker_collector "unix:///var/run/docker.sock" ∷ []),
  record { published = []; cache = [] },
)

run_commander-registered : (run_commander parts).0 ≡ ok registered
unfolding run_commander parse_x509_private_key convert_private_key convert_rsa_private_key
    parse_x509_certificate_from_der convert_x509_certificate convert_public_key read_files parse_pem
    load first_ca all_certificates get_intermediates
run_commander-registered = refl

run_commander-Started_example : Started parts registered (run_commander parts).1
run_commander-Started_example = run_commander-Started parts registered run_commander-registered
