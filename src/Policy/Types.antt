-- ===== src/Policy/Types.antt =====
-- The messages of api/v1/core/policy.proto, and the types of internal/policy/policy.go.
use camblet.Base.{ℕ, Bool, List, [], ◌∷◌, Option, String}
use camblet.Base.Assoc.{Assoc}

-- structpb.Value and structpb.Struct. A number is the bits of its float64; the entries of a
-- struct stand in the order in which the run ranges over them.
mutual
  pub data Value : Type 0 where
    null_value : Value
    number_value : ℕ → Value
    string_value : String → Value
    bool_value : Bool → Value
    struct_value : Fields → Value
    list_value : Values → Value

  pub data Values : Type 0 where
    no_values : Values
    values : Value → Values → Values

  pub data Fields : Type 0 where
    no_fields : Fields
    field : String → Value → Fields → Fields

pub record Certificate : Type 0 where
  pub workload_id : String
  pub dns_names : List String
  pub ttl : Option ℕ

pub data MutualTlsMode : Type 0 where
  unset disable strict : MutualTlsMode

pub record Connection : Type 0 where
  pub mtls : MutualTlsMode
  pub passthrough : Option Bool
  pub allowed_spiffe_ids : List String

-- core.Policy: selectors, certificate, connection, egress.
mutual
  pub data RawPolicy : Type 0 where
    raw_policy : List Fields → Option Certificate → Option Connection → RawPolicies → RawPolicy

  pub data RawPolicies : Type 0 where
    no_raw : RawPolicies
    raws : RawPolicy → RawPolicies → RawPolicies

-- `map[string]bool`
abbrev pub Selector : Type 0
Selector = Assoc Bool

abbrev pub Selectors : Type 0
Selectors = List Selector

-- Policy: position, ID, selectors, certificate, connection, egress.
mutual
  pub data Policy : Type 0 where
    policy : ℕ → String → Selectors → Option Certificate → Option Connection → Policies → Policy

  pub data Policies : Type 0 where
    no_policies : Policies
    policies : Policy → Policies → Policies

abbrev pub raw_list : RawPolicies → List RawPolicy
raw_list no_raw = []
raw_list (raws p ps) = p ∷ raw_list ps

abbrev pub to_list : Policies → List Policy
to_list no_policies = []
to_list (policies p ps) = p ∷ to_list ps

abbrev pub of_list : List Policy → Policies
of_list [] = no_policies
of_list (p ∷ ps) = policies p (of_list ps)
