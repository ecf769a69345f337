-- ===== src/Service/Loader.antt =====
-- internal/service/file_loader.go: the services of the files.
pub mod Gathered
use camblet.Base.{String, List, [], ◌∷◌, ◌++◌, Option, none, some}
use camblet.Base.Assoc.{Assoc}
use camblet.Base.Result.{Error}
use camblet.Base.Fallible.{Fallible, value, fails}
use camblet.Files.{Bytes, valid_items}
use camblet.Service.Convert.{RawService, Services, Net, convert_entries, merge_entries}

-- What the loader takes from yaml, encoding/json and protojson: the items of a file, and the
-- service that an item is.
pub record ServiceFormats (Item : Type 0) : Type 0 where
  pub yaml : Bytes → Fallible (List Item)
  pub service : Item → Fallible RawService

module _ {Item : Type 0} {Addr : Type 0} (net : Net Addr) (parsers : ServiceFormats Item)
    (validator : Option (RawService → Option Error)) (with_tags : List String) where
  unfoldable pub unmarshal : Bytes → Fallible Services
  unfolding convert_entries valid_items
  unmarshal content = elim (parsers.yaml content) [
    | fails e ↦ fails e
    | value items ↦
        value (convert_entries net (valid_items parsers.service validator items) with_tags)
  ]

  abbrev pub add_file : Services → Fallible Services → Services
  add_file services (fails e) = services
  add_file services (value entries) = merge_entries services entries

  -- The loop of `Run` over the contents
  unfoldable pub collect : Services → Assoc Bytes → Services
  unfolding unmarshal merge_entries
  collect services [] = services
  collect services ((file, content) ∷ contents) =
      collect (add_file services (unmarshal content)) contents

  -- What `Run` makes of the contents: the services that the handler gets.
  unfoldable pub run : Assoc Bytes → Services
  unfolding collect
  run contents = collect [] contents
