-- ===== src/Policy/Loader/Valid.antt =====
-- The policies that the loader hands over.
use mathlib.Core.List.{Perm}
use mathlib.Core.Option.{some-injective}
use camblet.Base.{
  ◌≡◌, ◌⊎◌, ◌∙◌, refl, sym, ap, Bool, true, false, List, [], ◌∷◌, ◌++◌, Option, none, some, String,
  Option-cases, inl, inr,
}
use camblet.Base.Assoc.{Assoc}
use camblet.Base.Result.{Error}
use camblet.Base.Fallible.{Fallible, value, fails}
use camblet.Files.{Bytes, passes, keep, valid_items}
use camblet.Policy.Types.{RawPolicy, Policy, Policies, no_policies, policies, to_list, of_list}
use camblet.Policy.Organize.{less, organize}
use camblet.Policy.Organize.Numbered.{NumberedFrom, organize-NumberedFrom}
use camblet.Policy.Convert.{Formats}
use camblet.Policy.Convert.Total.{AreConverted, convert_policies-AreConverted}
use camblet.Policy.Loader.{PolicyFormats, of_raw_list, unmarshal, templated, collect, run}

-- A validator, if there is one, finds no error in the policy; or it finds one.
abbrev pub IsAccepted : Option (RawPolicy → Option Error) → RawPolicy → Type 0
IsAccepted validator p = (f : RawPolicy → Option Error) → validator ≡ some f → f p ≡ none

abbrev pub IsRejected : Option (RawPolicy → Option Error) → RawPolicy → Type 0
IsRejected validator p =
    (f : RawPolicy → Option Error) × (validator ≡ some f) × (e : Error) × (f p ≡ some e)

passes-cases :
    {Item : Type 0} (parse : Item → Fallible RawPolicy)
    (validator : Option (RawPolicy → Option Error)) (p : RawPolicy)
    → ((passes parse validator p ≡ true) × IsAccepted validator p)
      ⊎ ((passes parse validator p ≡ false) × IsRejected validator p)
passes-cases parse none p = inl (refl, λ f h. cc)
passes-cases parse (some f) p = elim (Option-cases (f p)) [
  | inl accepts ↦
      inl (rw (accepts, passes) refl, λ g h. ap (λ k. k p) (sym (some-injective f g h)) ∙ accepts)
  | inr (e, refuses) ↦ inr (rw (refuses, passes) refl, (f, refl, e, refuses))
]

-- What a file holds once the template function, if there is one, was applied to it.
pub data Rendered (template_func : Option (Bytes → Bytes)) (content : Bytes) : Bytes → Type 0 where
  as_it_is : template_func ≡ none → Rendered template_func content content
  by_template :
      (f : Bytes → Bytes) → template_func ≡ some f → Rendered template_func content (f content)

module _ {Item : Type 0} (parsers : PolicyFormats Item)
    (validator : Option (RawPolicy → Option Error)) where
  -- The policies of the items of a file: of each item that is a policy that is accepted, this
  -- policy; an item that is none, and one that is rejected, is passed over.
  pub data Holds : List Item → List RawPolicy → Type 0 where
    no_item : Holds [] []
    no_policy :
        (item : Item) (e : Error) {items : List Item} {ps : List RawPolicy}
        → parsers.policy item ≡ fails e
        → Holds items ps
        → Holds (item ∷ items) ps
    refused :
        (item : Item) (p : RawPolicy) {items : List Item} {ps : List RawPolicy}
        → parsers.policy item ≡ value p
        → IsRejected validator p
        → Holds items ps
        → Holds (item ∷ items) ps
    taken :
        (item : Item) (p : RawPolicy) {items : List Item} {ps : List RawPolicy}
        → parsers.policy item ≡ value p
        → IsAccepted validator p
        → Holds items ps
        → Holds (item ∷ items) (p ∷ ps)

  keep-Holds :
      (item : Item) (parsed : Fallible RawPolicy) (items : List Item) (ps : List RawPolicy)
      → parsers.policy item ≡ parsed
      → Holds items ps
      → Holds (item ∷ items) (keep parsers.policy validator parsed ps)
  keep-Holds item (fails e) items ps h rest = no_policy item e h rest
  keep-Holds item (value p) items ps h rest = elim (passes-cases parsers.policy validator p) [
    | inl (good, fine) ↦ rw good (taken item p h fine rest)
    | inr (bad, wrong) ↦ rw bad (refused item p h wrong rest)
  ]

  valid_items-Holds : (items : List Item) → Holds items (valid_items parsers.policy validator items)
  unfolding valid_items
  valid_items-Holds [] = no_item
  valid_items-Holds (item ∷ items) =
      keep-Holds item (parsers.policy item) items (valid_items parsers.policy validator items) refl
        (valid_items-Holds items)

  templated-Rendered :
      (formats : Formats) (template_func : Option (Bytes → Bytes)) (content : Bytes)
      → Rendered template_func content (templated formats parsers template_func validator content)
  templated-Rendered formats none content = as_it_is refl
  templated-Rendered formats (some f) content = by_template f refl

  module _ (formats : Formats) (template_func : Option (Bytes → Bytes)) where
    -- The policies of the files, one file after the other; a file that is not parsed is passed over.
    pub data Reads : Assoc Bytes → List RawPolicy → Type 0 where
      no_file : Reads [] []
      not_parsed :
          (file : String) (content text : Bytes) (e : Error) {contents : Assoc Bytes}
          {ps : List RawPolicy}
          → Rendered template_func content text
          → parsers.yaml text ≡ fails e
          → Reads contents ps
          → Reads ((file, content) ∷ contents) ps
      parsed :
          (file : String) (content text : Bytes) (items : List Item) (here : List RawPolicy)
          {contents : Assoc Bytes} {ps : List RawPolicy}
          → Rendered template_func content text
          → parsers.yaml text ≡ value items
          → Holds items here
          → Reads contents ps
          → Reads ((file, content) ∷ contents) (here ++ ps)

    AreConverted-append :
        (ps rest : List RawPolicy) (qs : Policies) (more : List Policy)
        → AreConverted formats (of_raw_list ps) qs
        → AreConverted formats (of_raw_list rest) (of_list more)
        → AreConverted formats (of_raw_list (ps ++ rest)) (of_list (to_list qs ++ more))
    AreConverted-append [] rest no_policies more h later = later
    AreConverted-append [] rest (policies q qs) more h later = elim h [ ]
    AreConverted-append (p ∷ ps) rest no_policies more h later = elim h [ ]
    AreConverted-append (p ∷ ps) rest (policies q qs) more (first, h) later =
        (first, AreConverted-append ps rest qs more h later)

    -- What the loop makes of contents: the conversions of the policies of the files.
    abbrev Collected : Assoc Bytes → Type 0
    Collected contents =
        (ps : List RawPolicy) × Reads contents ps
        × (found : List Policy) × AreConverted formats (of_raw_list ps) (of_list found)
        × (collect formats parsers template_func validator contents ≡ some found)

    collect-cons :
        (file : String) (content : Bytes) (contents : Assoc Bytes) (items : Fallible (List Item))
        → parsers.yaml (templated formats parsers template_func validator content) ≡ items
        → Collected contents
        → Collected ((file, content) ∷ contents)
    unfolding collect unmarshal
    collect-cons file content contents (fails e) h (ps, reads, found, converted, done) = (
      ps,
      not_parsed file content _ e (templated-Rendered formats template_func content) h reads,
      found,
      converted,
      rw (h, collect, unmarshal) (rw done refl),
    )
    collect-cons file content contents (value items) h (ps, reads, found, converted, done) =
        let here = valid_items parsers.policy validator items in
        let (qs, ok, each) = convert_policies-AreConverted formats (of_raw_list here) in
        (
          here ++ ps,
          parsed file content _ items here (templated-Rendered formats template_func content) h
              (valid_items-Holds items) reads,
          to_list qs ++ found,
          AreConverted-append here ps qs found each converted,
          rw (h, collect, unmarshal) (rw (ok, done) refl),
        )

    collect-Collected : (contents : Assoc Bytes) → Collected contents
    unfolding collect
    collect-Collected [] = ([], no_file, [], tt, refl)
    collect-Collected ((file, content) ∷ contents) =
        collect-cons file content contents _ refl (collect-Collected contents)

    module _ (slice_stable : (Policy → Policy → Bool) → List Policy → List Policy)
        (slice_stable-perm : (l : List Policy) → Perm (slice_stable less l) l) where
      -- If the sort permutes, the loader never panics, whatever the files hold: it hands over the
      -- organized form of the conversions, in their order, of exactly the policies of the files
      -- that are parsed in which the validator, if there is one, finds no error; and their
      -- positions count from 0 at every depth.
      pub run-Reads :
          (contents : Assoc Bytes)
          → (ps : List RawPolicy) × Reads contents ps
            × (found : List Policy) × AreConverted formats (of_raw_list ps) (of_list found)
            × (run formats parsers template_func validator slice_stable contents
                ≡ some (organize slice_stable (of_list found)))
            × NumberedFrom 0 (organize slice_stable (of_list found))
      unfolding run
      run-Reads contents =
          let (ps, reads, found, converted, done) = collect-Collected contents in
          (
            ps,
            reads,
            found,
            converted,
            rw (done, run) refl,
            organize-NumberedFrom slice_stable slice_stable-perm (of_list found),
          )
