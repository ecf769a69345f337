-- ===== src/Policy/Loader.antt =====
-- internal/policy/file_loader.go and template.go: the policies of the files.
pub mod Valid
use camblet.Base.{Bool, List, [], ◌∷◌, ◌++◌, Option, none, some}
use camblet.Base.Assoc.{Assoc}
use camblet.Base.Result.{Error}
use camblet.Base.Fallible.{Fallible, value, fails}
use camblet.Files.{Bytes, valid_items}
use camblet.Policy.Types.{RawPolicy, RawPolicies, no_raw, raws, Policy, Policies, to_list, of_list}
use camblet.Policy.Convert.{Formats, convert_policies}
use camblet.Policy.Organize.{organize}

-- `Execute` of the templater, with what text/template makes of the content: the parsed template,
-- and its text for the values of the agent.
abbrev pub or_content : Bytes → Fallible Bytes → Bytes
or_content content (value rendered) = rendered
or_content content (fails e) = content

unfoldable pub execute :
    {Template : Type 0} → (Bytes → Fallible Template) → (Template → Fallible Bytes) → Bytes → Bytes
execute parse render content = elim (parse content) [
  | fails e ↦ content
  | value tpl ↦ or_content content (render tpl)
]

abbrev pub of_raw_list : List RawPolicy → RawPolicies
of_raw_list [] = no_raw
of_raw_list (p ∷ ps) = raws p (of_raw_list ps)

-- What the loader takes from yaml, encoding/json and protojson: the items of a file, and the
-- policy that an item is.
pub record PolicyFormats (Item : Type 0) : Type 0 where
  pub yaml : Bytes → Fallible (List Item)
  pub policy : Item → Fallible RawPolicy

module _ {Item : Type 0} (formats : Formats) (parsers : PolicyFormats Item)
    (template_func : Option (Bytes → Bytes)) (validator : Option (RawPolicy → Option Error)) where
  abbrev pub raw_policies : List Item → RawPolicies
  raw_policies items = of_raw_list (valid_items parsers.policy validator items)

  -- `unmarshal`: none is a panic of the conversion.
  unfoldable pub unmarshal : Bytes → Option (Fallible Policies)
  unfolding convert_policies valid_items
  unmarshal content = elim (parsers.yaml content) [
    | fails e ↦ some (fails e)
    | value items ↦ elim (convert_policies formats (raw_policies items)) [
      | none ↦ none
      | some ps ↦ some (value ps)
    ]
  ]

  abbrev pub templated : Bytes → Bytes
  templated content = elim template_func [ none ↦ content | some f ↦ f content ]

  -- A file that is not parsed is left out.
  abbrev pub add_file : Fallible Policies → List Policy → List Policy
  add_file (fails e) rest = rest
  add_file (value ps) rest = to_list ps ++ rest

  -- The loop of `Run` over the contents
  unfoldable pub collect : Assoc Bytes → Option (List Policy)
  unfolding unmarshal
  collect [] = some []
  collect ((file, content) ∷ contents) = elim (unmarshal (templated content)) [
    | none ↦ none
    | some loaded ↦ elim (collect contents) [
      | none ↦ none
      | some rest ↦ some (add_file loaded rest)
    ]
  ]

  -- What `Run` makes of the contents: the policies that the handler gets.
  unfoldable pub run :
      ((Policy → Policy → Bool) → List Policy → List Policy) → Assoc Bytes → Option Policies
  unfolding collect organize
  run slice_stable contents = elim (collect contents) [
    | none ↦ none
    | some ps ↦ some (organize slice_stable (of_list ps))
  ]
