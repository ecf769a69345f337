-- ===== src/Service/Samples.antt =====
-- Services and the addresses of the network, for the examples.
use camblet.Base.{true, false, List, [], ◌∷◌, some, String, ◌==◌}
use camblet.Base.Fallible.{value}
use camblet.Service.Convert.{RawService, Net}

-- Addresses are texts, and every text with a port is "h:80".
abbrev pub net : Net String
net = record {
  split_host_port = λ text. value ("h", "80");
  contains_colon = λ text. true;
  atoi = λ text. value 80;
  parse_addr = λ text. some text;
  lookup_ip = λ network host. [];
  is_4_in_6 = λ addr. false;
  is_loopback = λ addr. false;
  ipv6_loopback = "::1";
  same = λ a b. a == b;
  string_expanded = λ addr. addr;
}

abbrev pub services : List RawService
services =
    record {
      labels = ("app", "a") ∷ [];
      addresses = record { address = "h"; port = 80; tags = [] } ∷ [];
    }
    ∷ record {
      labels = ("app", "b") ∷ [];
      addresses = record { address = "h"; port = 80; tags = "prod" ∷ [] } ∷ [];
    }
    ∷ []
