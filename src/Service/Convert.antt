-- ===== src/Service/Convert.antt =====
-- internal/service/convert.go and service.go.
pub mod Merged
use Prim.Native.Nat.{◌%◌, ◌^◌}
use Prim.Native.String.{◌++◌ as concat}
use camblet.Base.{
  ℕ, Bool, true, false, not, ◌&&◌, ◌||◌, List, [], ◌∷◌, ◌++◌, Option, none, some, String, ◌==◌,
  if◌then◌else◌, nat_eq, any,
}
use camblet.Base.Assoc.{Assoc, lookup, insert}
use camblet.Base.Decimal.{itoa_nat}
use camblet.Base.Fallible.{Fallible, value, fails}

-- core.Service, with the fields that the code reads.
pub record ServiceAddress : Type 0 where
  pub address : String
  pub port : ℕ
  pub tags : List String

pub record RawService : Type 0 where
  pub labels : Assoc String
  pub addresses : List ServiceAddress

-- A service is its labels.
abbrev pub Services : Type 0
Services = Assoc (List String)

-- netip.AddrPort
pub record AddrPort {ℓ} (Addr : Type ℓ) : Type ℓ where
  pub addr : Addr
  pub port : ℕ

-- What the code takes from net, net/netip and strconv, for a type of addresses.
pub record Net (Addr : Type 0) : Type 0 where
  pub split_host_port : String → Fallible (String × String)
  pub contains_colon : String → Bool
  pub atoi : String → Fallible ℕ
  pub parse_addr : String → Option Addr
  pub lookup_ip : String → String → List Addr
  pub is_4_in_6 : Addr → Bool
  pub is_loopback : Addr → Bool
  pub ipv6_loopback : Addr
  pub same : Addr → Addr → Bool
  pub string_expanded : Addr → String

unfoldable pub flatten_labels : Assoc String → List String
flatten_labels [] = []
flatten_labels ((k, v) ∷ labels) = concat k (concat "=" v) ∷ flatten_labels labels

-- The tags of `withTags` are a set.
unfoldable pub filter_address_by_tag : List String → ServiceAddress → Bool
filter_address_by_tag with_tags address = elim address.tags [
  | [] ↦ true
  | tag ∷ tags ↦ elim with_tags [
    | [] ↦ true
    | w ∷ ws ↦ any (tag ∷ tags) (λ t. any (w ∷ ws) (λ x. x == t))
  ]
]

unfoldable pub merge_entries : Services → Services → Services
unfolding lookup insert
merge_entries l [] = l
merge_entries l ((k, e) ∷ r) = elim (lookup k l) [
  | none ↦ merge_entries (insert k e l) r
  | some labels ↦ merge_entries (insert k (labels ++ e) l) r
]

abbrev pub is_empty {ℓ} : {A : Type ℓ} → List A → Bool
is_empty [] = true
is_empty (x ∷ xs) = false

module _ {Addr : Type 0} (net : Net Addr) where
  unfoldable pub address_to_string : AddrPort Addr → String
  unfolding itoa_nat
  address_to_string addr =
      if nat_eq addr.port 0
      then net.string_expanded addr.addr
      else concat (net.string_expanded addr.addr) (concat ":" (itoa_nat addr.port))

  -- A set of addresses, in the order in which they were put in.
  abbrev pub add : List Addr → Addr → List Addr
  add addrs a = if any addrs (net.same a) then addrs else (addrs ++ a ∷ [])

  abbrev pub add_all : List Addr → List Addr → List Addr
  add_all addrs [] = addrs
  add_all addrs (a ∷ more) = add_all (add addrs a) more

  -- The addresses of the lookup "ip", with the loopback address of IPv6 beside one in its form.
  abbrev pub add_looked_up : List Addr → List Addr → List Addr
  add_looked_up addrs [] = addrs
  add_looked_up addrs (a ∷ more) =
      let with_loopback =
        if net.is_4_in_6 a && net.is_loopback a then add addrs net.ipv6_loopback else addrs in
      add_looked_up (add with_loopback a) more

  unfoldable pub host_addresses : String → List Addr
  host_addresses host = elim (net.parse_addr host) [
    | some addr ↦ addr ∷ []
    | none ↦ add_looked_up (add_all [] (net.lookup_ip "ip4" host)) (net.lookup_ip "ip" host)
  ]

  abbrev pub split : String → Option (String × String)
  split address =
      if net.contains_colon address
      then elim (net.split_host_port address) [ fails e ↦ none | value parts ↦ some parts ]
      else some (address, "")

  abbrev pub port_of : String → Option ℕ
  port_of port =
      if port == "" then some 0 else elim (net.atoi port) [ fails e ↦ none | value n ↦ some n ]

  abbrev pub with_port : ℕ → List Addr → List (AddrPort Addr)
  with_port port [] = []
  with_port port (a ∷ addrs) = record { addr = a; port = port % 2 ^ 16 } ∷ with_port port addrs

  unfoldable pub resolve_address : String → List (AddrPort Addr)
  unfolding host_addresses
  resolve_address address = elim (split address) [
    | none ↦ []
    | some (host, port) ↦ elim (port_of port) [
      | none ↦ []
      | some intport ↦ with_port intport (host_addresses host)
    ]
  ]

  abbrev pub resolved_of : ServiceAddress → List (AddrPort Addr)
  resolved_of address =
      resolve_address (concat address.address (concat ":" (itoa_nat address.port)))

  abbrev pub add_addrs : Assoc String → Services → List (AddrPort Addr) → Services
  add_addrs labels entries [] = entries
  add_addrs labels entries (addr ∷ addrs) =
      add_addrs labels
        (merge_entries entries ((address_to_string addr, flatten_labels labels) ∷ [])) addrs

  unfoldable pub add_addresses :
      List String → Assoc String → Services → List ServiceAddress → Services
  unfolding resolve_address filter_address_by_tag itoa_nat
  add_addresses with_tags labels entries [] = entries
  add_addresses with_tags labels entries (address ∷ addresses) =
      let resolved = resolved_of address in
      let with_it = add_addresses with_tags labels (add_addrs labels entries resolved) addresses in
      let without_it = add_addresses with_tags labels entries addresses in
      if filter_address_by_tag with_tags address then with_it else without_it

  unfoldable pub convert_services : List String → Services → List RawService → Services
  unfolding add_addresses
  convert_services with_tags entries [] = entries
  convert_services with_tags entries (svc ∷ svcs) =
      let with_it =
        convert_services with_tags (add_addresses with_tags svc.labels entries svc.addresses)
          svcs in
      let without_it = convert_services with_tags entries svcs in
      if is_empty svc.labels || is_empty svc.addresses then without_it else with_it

  unfoldable pub convert_entries : List RawService → List String → Services
  unfolding convert_services
  convert_entries raw_services with_tags = convert_services with_tags [] raw_services
