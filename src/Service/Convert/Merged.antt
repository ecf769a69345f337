-- ===== src/Service/Convert/Merged.antt =====
-- The services that the conversion gives, gathered by address.
use camblet.Base.{
  ◌≡◌, refl, sym, ap, ◌∙◌, ◌||◌, List, [], ◌∷◌, ◌++◌, append_assoc, map, Option, none, some, inl,
  inr, String, ◌==◌, eq_iff, Option-cases, Bool-cases, if◌then◌else◌,
}
use camblet.Base.Assoc.{Assoc, lookup, lookup-insert}
use camblet.Service.Convert.{
  ServiceAddress, RawService, Services, Net, AddrPort, flatten_labels, filter_address_by_tag,
  merge_entries, address_to_string, add_addrs, add_addresses, convert_services, convert_entries,
  is_empty, resolved_of,
}

abbrev pub Labels : Type 0
Labels = List String

-- The labels of both, if there are any.
abbrev pub joined : Option Labels → Option Labels → Option Labels
joined none b = b
joined (some a) none = some a
joined (some a) (some b) = some (a ++ b)

-- The labels that a sequence of addresses with labels gives to the address k, none if k is not
-- among them.
abbrev pub gather : String → List (String × Labels) → Option Labels
gather k [] = none
gather k ((j, labels) ∷ pairs) =
    let rest = gather k pairs in if j == k then joined (some labels) rest else rest

pub joined_assoc : (a b c : Option Labels) → joined (joined a b) c ≡ joined a (joined b c)
joined_assoc none b c = refl
joined_assoc (some a) none c = refl
joined_assoc (some a) (some b) none = refl
joined_assoc (some a) (some b) (some c) = ap some (append_assoc a b c)

pub joined-none : (a : Option Labels) → joined a none ≡ a
joined-none none = refl
joined-none (some a) = refl

pub gather-append :
    (k : String) (ps qs : List (String × Labels))
    → gather k (ps ++ qs) ≡ joined (gather k ps) (gather k qs)
gather-append k [] qs = refl
gather-append k ((j, labels) ∷ ps) qs = elim (Bool-cases (j == k)) [
  | inl e ↦
      rw (e, gather-append k ps qs) (sym (joined_assoc (some labels) (gather k ps) (gather k qs)))
  | inr e ↦ rw (e) (gather-append k ps qs)
]

put :
    (k j : String) (labels : Labels) (l : Services) (found : Option Labels)
    → lookup j l ≡ found
    → (if j == k then joined found (some labels) else lookup k l)
      ≡ joined (lookup k l) (if j == k then some labels else none)
put k j labels l found e = elim (Bool-cases (j == k)) [
  | inl same ↦
      rw same
        (ap (λ x. joined x (some labels)) (sym e ∙ ap (λ x. lookup x l) ((eq_iff j k).0 same)))
  | inr other ↦ rw other (sym (joined-none (lookup k l)))
]

pub lookup-merge_entries :
    (k j : String) (labels : Labels) (l : Services)
    → lookup k (merge_entries l ((j, labels) ∷ []))
      ≡ joined (lookup k l) (gather k ((j, labels) ∷ []))
unfolding merge_entries
lookup-merge_entries k j labels l = elim (Option-cases (lookup j l)) [
  | inl e ↦ rw (e, merge_entries) (lookup-insert j k labels l ∙ put k j labels l none e)
  | inr (old, e) ↦
      rw (e, merge_entries) (lookup-insert j k (old ++ labels) l ∙ put k j labels l (some old) e)
]

module _ {Addr : Type 0} (net : Net Addr) (with_tags : List String) where
  -- The addresses of the services in order, with the labels that each gets: those that an address
  -- resolves to, if it passes the filter, of each service that has labels and addresses.
  abbrev pub pairs_of : Assoc String → List (AddrPort Addr) → List (String × Labels)
  pairs_of labels addrs = map (λ a. (address_to_string net a, flatten_labels labels)) addrs

  abbrev pub address_pairs : Assoc String → List ServiceAddress → List (String × Labels)
  address_pairs labels [] = []
  address_pairs labels (address ∷ addresses) =
      let rest = address_pairs labels addresses in
      if filter_address_by_tag with_tags address
      then pairs_of labels (resolved_of net address) ++ rest
      else rest

  abbrev pub service_pairs : List RawService → List (String × Labels)
  service_pairs [] = []
  service_pairs (svc ∷ svcs) =
      let rest = service_pairs svcs in
      if is_empty svc.labels || is_empty svc.addresses
      then rest
      else (address_pairs svc.labels svc.addresses ++ rest)

  lookup-add_addrs :
      (k : String) (labels : Assoc String) (entries : Services) (addrs : List (AddrPort Addr))
      → lookup k (add_addrs net labels entries addrs)
        ≡ joined (lookup k entries) (gather k (pairs_of labels addrs))
  lookup-add_addrs k labels entries [] = sym (joined-none (lookup k entries))
  lookup-add_addrs k labels entries (addr ∷ addrs) =
      let pair : String × Labels = (address_to_string net addr, flatten_labels labels) in
      lookup-add_addrs k labels (merge_entries entries (pair ∷ [])) addrs
      ∙ ap (λ x. joined x (gather k (pairs_of labels addrs)))
          (lookup-merge_entries k pair.0 pair.1 entries)
      ∙ joined_assoc (lookup k entries) (gather k (pair ∷ [])) (gather k (pairs_of labels addrs))
      ∙ ap (joined (lookup k entries)) (sym (gather-append k (pair ∷ []) (pairs_of labels addrs)))

  -- One step of a loop that adds the pairs ps and goes on with the pairs qs.
  joined_steps :
      (k : String) (entries entries' : Services) (ps qs : List (String × Labels))
      (result : Option Labels)
      → lookup k entries' ≡ joined (lookup k entries) (gather k ps)
      → result ≡ joined (lookup k entries') (gather k qs)
      → result ≡ joined (lookup k entries) (gather k (ps ++ qs))
  joined_steps k entries entries' ps qs result h h' =
      h'
      ∙ ap (λ x. joined x (gather k qs)) h
      ∙ joined_assoc (lookup k entries) (gather k ps) (gather k qs)
      ∙ ap (joined (lookup k entries)) (sym (gather-append k ps qs))

  lookup-add_addresses :
      (k : String) (labels : Assoc String) (entries : Services) (addresses : List ServiceAddress)
      → lookup k (add_addresses net with_tags labels entries addresses)
        ≡ joined (lookup k entries) (gather k (address_pairs labels addresses))
  unfolding add_addresses
  lookup-add_addresses k labels entries [] = sym (joined-none (lookup k entries))
  lookup-add_addresses k labels entries (address ∷ addresses) =
      let resolved = resolved_of net address in
      let entries' = add_addrs net labels entries resolved in
      elim (Bool-cases (filter_address_by_tag with_tags address)) [
        | inl e ↦
            rw (e, add_addresses)
              (joined_steps k entries entries' (pairs_of labels resolved)
                (address_pairs labels addresses) _ (lookup-add_addrs k labels entries resolved)
                (lookup-add_addresses k labels entries' addresses))
        | inr e ↦ rw (e, add_addresses) (lookup-add_addresses k labels entries addresses)
      ]

  lookup-convert_services :
      (k : String) (entries : Services) (svcs : List RawService)
      → lookup k (convert_services net with_tags entries svcs)
        ≡ joined (lookup k entries) (gather k (service_pairs svcs))
  unfolding convert_services
  lookup-convert_services k entries [] = sym (joined-none (lookup k entries))
  lookup-convert_services k entries (svc ∷ svcs) =
      let entries' = add_addresses net with_tags svc.labels entries svc.addresses in
      elim (Bool-cases (is_empty svc.labels || is_empty svc.addresses)) [
        | inl e ↦ rw (e, convert_services) (lookup-convert_services k entries svcs)
        | inr e ↦
            rw (e, convert_services)
              (joined_steps k entries entries' (address_pairs svc.labels svc.addresses)
                (service_pairs svcs) _ (lookup-add_addresses k svc.labels entries svc.addresses)
                (lookup-convert_services k entries' svcs))
      ]

  -- The converted services have a service for exactly the addresses to which an address that
  -- passes the filter, of a service that has labels and addresses, resolves; its labels are those
  -- of all the services that have the address, one after the other in their order.
  pub convert_entries-gathers :
      (svcs : List RawService) (k : String)
      → lookup k (convert_entries net svcs with_tags) ≡ gather k (service_pairs svcs)
  unfolding convert_entries lookup
  convert_entries-gathers svcs k = lookup-convert_services k [] svcs
