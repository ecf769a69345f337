-- ===== src/Service/Loader/Gathered.antt =====
-- The services that the loader hands over, gathered by address over all files.
use camblet.Base.{
  ◌≡◌, refl, sym, ap, ◌∙◌, ◌||◌, Bool-cases, List, [], ◌∷◌, ◌++◌, Option, none, inl, inr, String,
  ◌==◌, eq_iff, Option-cases,
}
use camblet.Base.Assoc.{Assoc, IsMap, lookup, insert, insert-IsMap}
use camblet.Base.Result.{Error}
use camblet.Base.Fallible.{Fallible, value, fails}
use camblet.Files.{Bytes, valid_items}
use camblet.Service.Convert.{
  ServiceAddress, RawService, Services, Net, AddrPort, merge_entries, add_addrs, add_addresses,
  convert_services, convert_entries, is_empty, resolved_of, filter_address_by_tag,
  address_to_string, flatten_labels,
}
use camblet.Service.Convert.Merged.{
  Labels, joined, gather, gather-append, joined_assoc, joined-none, lookup-merge_entries,
  service_pairs, convert_entries-gathers,
}
use camblet.Service.Loader.{ServiceFormats, unmarshal, add_file, collect, run}

merge_entries-IsMap : (l r : Services) → IsMap l → IsMap (merge_entries l r)
unfolding merge_entries
merge_entries-IsMap l [] h = h
merge_entries-IsMap l ((k, e) ∷ r) h = elim (Option-cases (lookup k l)) [
  | inl absent ↦
      rw (absent, merge_entries) (merge_entries-IsMap (insert k e l) r (insert-IsMap k e l h))
  | inr (labels, present) ↦
      rw (present, merge_entries)
        (merge_entries-IsMap (insert k (labels ++ e) l) r (insert-IsMap k (labels ++ e) l h))
]

merge_entries-cons :
    (k : String) (e : Labels) (l r : Services)
    → merge_entries l ((k, e) ∷ r) ≡ merge_entries (merge_entries l ((k, e) ∷ [])) r
unfolding merge_entries
merge_entries-cons k e l r = elim (Option-cases (lookup k l)) [
  | inl absent ↦ rw (absent, merge_entries) refl
  | inr (labels, present) ↦ rw (present, merge_entries) refl
]

lookup-merge_all :
    (k : String) (l r : Services) → lookup k (merge_entries l r) ≡ joined (lookup k l) (gather k r)
unfolding merge_entries
lookup-merge_all k l [] = sym (joined-none (lookup k l))
lookup-merge_all k l ((j, e) ∷ r) =
    ap (lookup k) (merge_entries-cons j e l r)
    ∙ lookup-merge_all k (merge_entries l ((j, e) ∷ [])) r
    ∙ ap (λ x. joined x (gather k r)) (lookup-merge_entries k j e l)
    ∙ joined_assoc (lookup k l) (gather k ((j, e) ∷ [])) (gather k r)
    ∙ ap (joined (lookup k l)) (sym (gather-append k ((j, e) ∷ []) r))

-- In a map each key stands once, so that gathering is looking up.
gather-IsMap : (k : String) (m : Services) → IsMap m → gather k m ≡ lookup k m
unfolding lookup
gather-IsMap k [] h = refl
gather-IsMap k ((j, e) ∷ m) (fresh, h) = elim (Bool-cases (j == k)) [
  | inl same ↦
      let none_left : gather k m ≡ none =
        gather-IsMap k m h ∙ ap (λ x. lookup x m) (sym ((eq_iff j k).0 same)) ∙ fresh in
      rw (same, none_left) refl
  | inr other ↦ rw other (gather-IsMap k m h)
]

module _ {Addr : Type 0} (net : Net Addr) (with_tags : List String) where
  add_addrs-IsMap :
      (labels : Assoc String) (entries : Services) (addrs : List (AddrPort Addr))
      → IsMap entries
      → IsMap (add_addrs net labels entries addrs)
  add_addrs-IsMap labels entries [] h = h
  add_addrs-IsMap labels entries (addr ∷ addrs) h =
      let one : Services = (address_to_string net addr, flatten_labels labels) ∷ [] in
      add_addrs-IsMap labels (merge_entries entries one) addrs (merge_entries-IsMap entries one h)

  add_addresses-IsMap :
      (labels : Assoc String) (entries : Services) (addresses : List ServiceAddress)
      → IsMap entries
      → IsMap (add_addresses net with_tags labels entries addresses)
  unfolding add_addresses
  add_addresses-IsMap labels entries [] h = h
  add_addresses-IsMap labels entries (address ∷ addresses) h =
      elim (Bool-cases (filter_address_by_tag with_tags address)) [
        | inl e ↦
            let entries' = add_addrs net labels entries (resolved_of net address) in
            rw (e, add_addresses)
              (add_addresses-IsMap labels entries' addresses
                (add_addrs-IsMap labels entries (resolved_of net address) h))
        | inr e ↦ rw (e, add_addresses) (add_addresses-IsMap labels entries addresses h)
      ]

  convert_services-IsMap :
      (entries : Services) (svcs : List RawService)
      → IsMap entries
      → IsMap (convert_services net with_tags entries svcs)
  unfolding convert_services
  convert_services-IsMap entries [] h = h
  convert_services-IsMap entries (svc ∷ svcs) h =
      elim (Bool-cases (is_empty svc.labels || is_empty svc.addresses)) [
        | inl e ↦ rw (e, convert_services) (convert_services-IsMap entries svcs h)
        | inr e ↦
            let entries' = add_addresses net with_tags svc.labels entries svc.addresses in
            rw (e, convert_services)
              (convert_services-IsMap entries' svcs
                (add_addresses-IsMap svc.labels entries svc.addresses h))
      ]

  gather-convert_entries :
      (k : String) (svcs : List RawService)
      → gather k (convert_entries net svcs with_tags) ≡ gather k (service_pairs net with_tags svcs)
  unfolding convert_entries
  gather-convert_entries k svcs =
      gather-IsMap k (convert_entries net svcs with_tags) (convert_services-IsMap [] svcs tt)
      ∙ convert_entries-gathers net with_tags svcs k

module _ {Item : Type 0} {Addr : Type 0} (net : Net Addr) (parsers : ServiceFormats Item)
    (validator : Option (RawService → Option Error)) (with_tags : List String) where
  -- The addresses and labels of the valid services of the files that are parsed.
  abbrev pub item_pairs : Fallible (List Item) → List (String × Labels)
  item_pairs (fails e) = []
  item_pairs (value items) =
      service_pairs net with_tags (valid_items parsers.service validator items)

  abbrev pub file_pairs : Assoc Bytes → List (String × Labels)
  file_pairs [] = []
  file_pairs ((file, content) ∷ contents) = item_pairs (parsers.yaml content) ++ file_pairs contents

  lookup-add_file :
      (k : String) (services : Services) (content : Bytes)
      → lookup k (
          add_file net parsers validator with_tags services
            (unmarshal net parsers validator with_tags content))
        ≡ joined (lookup k services) (gather k (item_pairs (parsers.yaml content)))
  unfolding unmarshal
  lookup-add_file k services content = go (parsers.yaml content)
    where
      go :
          (items : Fallible (List Item))
          → lookup k (
              add_file net parsers validator with_tags services
                (elim items as (λ x. Fallible Services) [
                  | fails e ↦ fails e
                  | value is ↦
                      value
                        (convert_entries net (valid_items parsers.service validator is) with_tags)
                ]))
            ≡ joined (lookup k services) (gather k (item_pairs items))
      go (fails e) = sym (joined-none (lookup k services))
      go (value is) =
          let svcs = valid_items parsers.service validator is in
          lookup-merge_all k services (convert_entries net svcs with_tags)
          ∙ ap (joined (lookup k services)) (gather-convert_entries net with_tags k svcs)

  lookup-collect :
      (k : String) (services : Services) (contents : Assoc Bytes)
      → lookup k (collect net parsers validator with_tags services contents)
        ≡ joined (lookup k services) (gather k (file_pairs contents))
  unfolding collect
  lookup-collect k services [] = sym (joined-none (lookup k services))
  lookup-collect k services ((file, content) ∷ contents) =
      let added =
        add_file net parsers validator with_tags services
          (unmarshal net parsers validator with_tags content) in
      lookup-collect k added contents
      ∙ ap (λ x. joined x (gather k (file_pairs contents))) (lookup-add_file k services content)
      ∙ joined_assoc (lookup k services) (gather k (item_pairs (parsers.yaml content)))
          (gather k (file_pairs contents))
      ∙ ap (joined (lookup k services))
          (sym (gather-append k (item_pairs (parsers.yaml content)) (file_pairs contents)))

  -- The loader hands over a service for exactly the addresses of the valid services of the files
  -- that are parsed; its labels are those of all these services, of all files, that have the
  -- address, one after the other in the order of the files.
  pub run-gathers :
      (contents : Assoc Bytes) (k : String)
      → lookup k (run net parsers validator with_tags contents) ≡ gather k (file_pairs contents)
  unfolding run lookup
  run-gathers contents k = lookup-collect k [] contents
