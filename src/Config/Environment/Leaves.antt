-- ===== src/Config/Environment/Leaves.antt =====
-- The keys that `bindEnvs` of pkg/config/configuration.go binds.
use camblet.Base.{
  ◌≡◌, refl, sym, ap, ◌∙◌, Bool, true, false, List, [], ◌∷◌, ◌++◌, map, map-append, append_assoc,
  any, any-append, Option, none, some, String, ◌==◌, if◌then◌else◌, inl, inr, Bool-cases,
}
use camblet.Base.Result.{Error, Result, ok, panics, ◌>>=◌}
use camblet.Base.Text.{join, before}
use camblet.Config.Environment.{
  Kind, value_kind, struct_kind, Shape, no_fields, field, bind_env, bind_field, bind_envs,
}

-- The paths from a type to the values that lie in it: by the names in the tags `json` of its fields,
-- through the fields that are structs, where one without a name leaves no trace.
unfoldable mutual
  pub kind_leaves : Kind → String → List (List String)
  kind_leaves value_kind name = (name ∷ []) ∷ []
  kind_leaves (struct_kind shape) name =
      let inner = leaves shape in if name == "" then inner else map (λ path. name ∷ path) inner

  pub leaves : Shape → List (List String)
  leaves no_fields = []
  leaves (field none kind rest) = leaves rest
  leaves (field (some tag) kind rest) = kind_leaves kind (before tag ",") ++ leaves rest

abbrev dotted : List String → List String → String
dotted parts path = join "." (parts ++ path)

map-dotted :
    (parts : List String) (name : String) (paths : List (List String))
    → map (dotted (parts ++ name ∷ [])) paths ≡ map (dotted parts) (map (λ path. name ∷ path) paths)
map-dotted parts name [] = refl
map-dotted parts name (path ∷ paths) =
    rw (append_assoc parts (name ∷ []) path, map-dotted parts name paths) refl

module _ (bind_error : String → Option Error) where
  abbrev pub is_refused : String → Bool
  is_refused key = elim (bind_error key) [ none ↦ false | some e ↦ true ]

  -- All keys, unless one is refused.
  abbrev pub all_or_panic : List String → Result (List String)
  all_or_panic keys = if any keys is_refused then panics else ok keys

  all_or_panic-append :
      (keys more : List String)
      → (all_or_panic keys >>= λ bound. all_or_panic more >>= λ others. ok (bound ++ others))
        ≡ all_or_panic (keys ++ more)
  all_or_panic-append keys more = elim (Bool-cases (any keys is_refused)) [
    | inl refused ↦ rw (any-append keys more is_refused, refused) refl
    | inr free ↦ elim (Bool-cases (any more is_refused)) [
      | inl refused ↦ rw (any-append keys more is_refused, free, refused) refl
      | inr free' ↦ rw (any-append keys more is_refused, free, free') refl
    ]
  ]

  bind_env_lem : (key : String) → bind_env bind_error key ≡ all_or_panic (key ∷ [])
  bind_env_lem key = go (bind_error key) refl
    where
      go :
          (e : Option Error)
          → bind_error key ≡ e
          → bind_env bind_error key ≡ all_or_panic (key ∷ [])
      go none h = rw (h, bind_env, is_refused) refl
      go (some e) h = rw (h, bind_env, is_refused) refl

  mutual
    unfolding bind_field bind_envs kind_leaves leaves

    bind_field-keys :
        (parts : List String) (kind : Kind) (name : String)
        → bind_field bind_error parts kind name
          ≡ all_or_panic (map (dotted parts) (kind_leaves kind name))
    bind_field-keys parts value_kind name = bind_env_lem (dotted parts (name ∷ []))
    bind_field-keys parts (struct_kind shape) name = elim (Bool-cases (name == "")) [
      | inl empty ↦ rw empty (bind_envs-keys parts shape)
      | inr named ↦ rw named (
          bind_envs-keys (parts ++ name ∷ []) shape
          ∙ ap all_or_panic (map-dotted parts name (leaves shape)))
    ]

    bind_envs-keys :
        (parts : List String) (shape : Shape)
        → bind_envs bind_error parts shape ≡ all_or_panic (map (dotted parts) (leaves shape))
    bind_envs-keys parts no_fields = refl
    bind_envs-keys parts (field none kind rest) = bind_envs-keys parts rest
    bind_envs-keys parts (field (some tag) kind rest) =
        rw (bind_field-keys parts kind (before tag ","), bind_envs-keys parts rest)
          (all_or_panic-append (map (dotted parts) (kind_leaves kind (before tag ",")))
            (map (dotted parts) (leaves rest)))
        ∙ ap all_or_panic
            (sym (map-append (dotted parts) (kind_leaves kind (before tag ",")) (leaves rest)))

  -- `bindEnvs` binds, in the order of the fields, the keys of the paths to the values that lie in
  -- the type, joined by dots; it panics exactly if one of these is refused.
  pub bind_envs-leaves :
      (shape : Shape) → bind_envs bind_error [] shape ≡ all_or_panic (map (join ".") (leaves shape))
  bind_envs-leaves shape = bind_envs-keys [] shape
