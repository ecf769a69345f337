-- ===== src/Files/Contents.antt =====
-- What `load` hands over.
use camblet.Base.{
  ◌≡◌, refl, sym, ap, subst, ◌∙◌, List, [], ◌∷◌, All, some, inl, inr, String, ◌==◌, eq_iff, eq_refl,
  Bool-cases,
}
use camblet.Base.Assoc.{Assoc, lookup, insert, lookup-insert}
use camblet.Base.Fallible.{Fallible, value, fails, bind-value_then, value_inj}
use camblet.Files.{Bytes, Os, list_files, wrapped, read_all, load}

wrapped-value {ℓ} :
    {A : Type ℓ} (message : String) (m : Fallible A) (a : A)
    → wrapped message m ≡ value a
    → m ≡ value a
wrapped-value message (value b) a h = h
wrapped-value message (fails e) a h = cc

module _ (os : Os) where
  -- The content of a file is the one that it was read with.
  abbrev pub HasContent : Assoc Bytes → String → Type 0
  HasContent contents file =
      (content : Bytes) × (os.read_file file ≡ value content)
      × (lookup file contents ≡ some content)

  inserted :
      (other file : String) (content c : Bytes) (contents : Assoc Bytes)
      → os.read_file file ≡ value content
      → lookup file contents ≡ some content
      → os.read_file other ≡ value c
      → HasContent (insert other c contents) file
  inserted other file content c contents reads e reads' = elim (Bool-cases (other == file)) [
    | inl same ↦
        let is : other ≡ file = (eq_iff other file).0 same in
        (c, ap os.read_file (sym is) ∙ reads', lookup-insert other file c contents ∙ rw same refl)
    | inr differs ↦ (content, reads, lookup-insert other file c contents ∙ rw differs e)
  ]

  -- An entry that agrees with its file stays such an entry.
  read_all-HasContent :
      (file : String) (files : List String) (contents found : Assoc Bytes)
      → read_all os contents files ≡ value found
      → HasContent contents file
      → HasContent found file
  unfolding read_all
  read_all-HasContent file [] contents found h has =
      subst (λ m. HasContent m file) (value_inj contents found h) has
  read_all-HasContent file (other ∷ files) contents found h (content, reads, e) =
      bind-value_then (wrapped _ (os.read_file other)) _ h λ c e_c h'.
        read_all-HasContent file files (insert other c contents) found h' (
          inserted other file content c contents reads e
            (wrapped-value _ (os.read_file other) c e_c))

  read_all-All :
      (files : List String) (contents found : Assoc Bytes)
      → read_all os contents files ≡ value found
      → All (HasContent found) files
  unfolding read_all
  read_all-All [] contents found h = tt
  read_all-All (file ∷ files) contents found h =
      bind-value_then (wrapped _ (os.read_file file)) _ h λ c e_c h'.
        let reads = wrapped-value _ (os.read_file file) c e_c in
        let here : HasContent (insert file c contents) file =
          (c, reads, lookup-insert file file c contents ∙ rw eq_refl refl) in
        (
          read_all-HasContent file files (insert file c contents) found h' here,
          read_all-All files (insert file c contents) found h',
        )

  -- If the loader hands over contents, it could list the files of all paths, and it hands over the
  -- content of each of these files, as it was read.
  pub load-HasContent :
      (paths : List String) (contents : Assoc Bytes)
      → load os paths ≡ value contents
      → (files : List String) × (list_files os paths ≡ value files)
        × All (HasContent contents) files
  unfolding load
  load-HasContent paths contents h =
      bind-value_then (list_files os paths) _ h
        λ files e h'. (files, e, read_all-All files [] contents h')
