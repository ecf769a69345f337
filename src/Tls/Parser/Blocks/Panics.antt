-- ===== src/Tls/Parser/Blocks/Panics.antt =====
-- When `ParsePEMs` panics.
use camblet.Base.{
  ◌≡◌, ◌⊎◌, refl, ap, ◌∙◌, inl, inr, Bool-cases, Option-cases, List, [], ◌∷◌, Option, none, some,
  true, ◌==◌, ◌||◌, eq_iff, ℕ, String,
}
use camblet.Base.Result.{Error, Result, ok, err, panics, ◌>>=◌}
use camblet.Base.Fallible.{Fallible, value, fails}
use camblet.Tls.Types.{
  Bytes, Block, RsaPrivateKey, AnyPrivateKey, rsa_private, ecdsa_private, ed25519_private,
  other_private, PrivateKey, Container, Crypto,
}
use camblet.Tls.Parser.Keys.{
  parse_private_key, parse_x509_private_key, convert_private_key, convert_rsa_private_key,
  pointer_bytes,
}
use camblet.Tls.Parser.Blocks.{parse_pem, contain_private_key}
use camblet.Tls.Parser.Blocks.Loop.{outcome, and_block}

-- One of the numbers of a private RSA key is a nil pointer.
abbrev pub LacksNumber : RsaPrivateKey → Type 0
LacksNumber key =
    (key.prime_0 ≡ none)
    ⊎ ((key.prime_1 ≡ none) ⊎ ((key.dp ≡ none) ⊎ ((key.dq ≡ none) ⊎ (key.qinv ≡ none))))

abbrev pub IsKeyBlock : Block → Type 0
IsKeyBlock block =
    (block.type ≡ "PRIVATE KEY")
    ⊎ ((block.type ≡ "RSA PRIVATE KEY") ⊎ (block.type ≡ "EC PRIVATE KEY"))

abbrev pub SomeBlock : (Block → Type 0) → List Block → Type 0
SomeBlock P [] = ⊥
SomeBlock P (b ∷ bs) = P b ⊎ SomeBlock P bs

pointer_bytes-panics :
    {A : Type 0} (number : Option ℕ) (f : Bytes → Result A)
    → (pointer_bytes number >>= f) ≡ panics
    → (number ≡ none) ⊎ ((bytes : Bytes) × (f bytes ≡ panics))
pointer_bytes-panics none f h = inl refl
pointer_bytes-panics (some n) f h = inr (_, h)

convert_rsa_private_key-lacks :
    (key : RsaPrivateKey) → convert_rsa_private_key key ≡ panics → LacksNumber key
unfolding convert_rsa_private_key
convert_rsa_private_key-lacks key h = elim (pointer_bytes-panics key.prime_0 _ h) [
  | inl e ↦ inl e
  | inr (_, h1) ↦ elim (pointer_bytes-panics key.prime_1 _ h1) [
    | inl e ↦ inr (inl e)
    | inr (_, h2) ↦ elim (pointer_bytes-panics key.dp _ h2) [
      | inl e ↦ inr (inr (inl e))
      | inr (_, h3) ↦ elim (pointer_bytes-panics key.dq _ h3) [
        | inl e ↦ inr (inr (inr (inl e)))
        | inr (_, h4) ↦ elim (pointer_bytes-panics key.qinv _ h4) [
          | inl e ↦ inr (inr (inr (inr e)))
          | inr (_, h5) ↦ cc
        ]
      ]
    ]
  ]
]

-- A call before which some pointer is dereferenced.
panics_behind :
    {A : Type 0} (number : Option ℕ) (f : Bytes → Result A)
    → ((bytes : Bytes) → f bytes ≡ panics)
    → (pointer_bytes number >>= f) ≡ panics
panics_behind none f h = refl
panics_behind (some n) f h = h _

panics_at :
    {A : Type 0} (number : Option ℕ) (f : Bytes → Result A)
    → number ≡ none
    → (pointer_bytes number >>= f) ≡ panics
panics_at none f h = refl
panics_at (some n) f h = cc

convert_rsa_private_key-panics :
    (key : RsaPrivateKey) → LacksNumber key → convert_rsa_private_key key ≡ panics
unfolding convert_rsa_private_key
convert_rsa_private_key-panics key (inl e) = panics_at key.prime_0 _ e
convert_rsa_private_key-panics key (inr (inl e)) =
    panics_behind key.prime_0 _ λ _. panics_at key.prime_1 _ e
convert_rsa_private_key-panics key (inr (inr (inl e))) =
    panics_behind key.prime_0 _ λ _. panics_behind key.prime_1 _ λ _. panics_at key.dp _ e
convert_rsa_private_key-panics key (inr (inr (inr (inl e)))) =
    panics_behind key.prime_0 _
      λ _. panics_behind key.prime_1 _ λ _. panics_behind key.dp _ λ _. panics_at key.dq _ e
convert_rsa_private_key-panics key (inr (inr (inr (inr e)))) = panics_behind key.prime_0 _ λ _.
    panics_behind key.prime_1 _
      λ _. panics_behind key.dp _ λ _. panics_behind key.dq _ λ _. panics_at key.qinv _ e

convert_private_key-lacks :
    (x509key : AnyPrivateKey)
    → convert_private_key x509key ≡ panics
    → (key : RsaPrivateKey) × (x509key ≡ rsa_private key) × LacksNumber key
unfolding convert_private_key
convert_private_key-lacks (rsa_private key) h = (key, refl, convert_rsa_private_key-lacks key h)
convert_private_key-lacks (ecdsa_private key) h = cc
convert_private_key-lacks ed25519_private h = cc
convert_private_key-lacks other_private h = cc

bind-panics :
    {A B : Type 0} (m : Result A) (f : A → B) → (m >>= λ a. ok (f a)) ≡ panics → m ≡ panics
bind-panics (ok a) f h = cc
bind-panics (err e) f h = cc
bind-panics panics f h = refl

converted-lacks :
    (der : Bytes) (parsed : Fallible AnyPrivateKey)
    → (elim parsed as (λ _. Result PrivateKey) [
      | fails e ↦ err e
      | value x509key ↦ convert_private_key x509key >>= λ made. ok (record made { raw = der })
    ])
      ≡ panics
    → (key : RsaPrivateKey) × (parsed ≡ value (rsa_private key)) × LacksNumber key
converted-lacks der (fails e) h = cc
converted-lacks der (value x509key) h =
    let (key, is_rsa, lacks) =
      convert_private_key-lacks x509key (bind-panics (convert_private_key x509key) _ h) in
    (key, ap value is_rsa, lacks)

contain_private_key-panics : (r : Result PrivateKey) → contain_private_key r ≡ none → r ≡ panics
contain_private_key-panics (ok key) h = cc
contain_private_key-panics (err e) h = cc
contain_private_key-panics panics h = refl

module _ (crypto : Crypto) where
  -- A block of a private key that parses to an RSA key without one of its numbers.
  abbrev pub Panicking : Block → Type 0
  Panicking block =
      (key : RsaPrivateKey) × IsKeyBlock block
      × (parse_private_key crypto block.bytes ≡ value (rsa_private key))
      × LacksNumber key

  key_label :
      (t : String)
      → (t == "PRIVATE KEY" || t == "RSA PRIVATE KEY" || t == "EC PRIVATE KEY") ≡ true
      → (t ≡ "PRIVATE KEY") ⊎ ((t ≡ "RSA PRIVATE KEY") ⊎ (t ≡ "EC PRIVATE KEY"))
  key_label t h = elim (Bool-cases (t == "PRIVATE KEY")) [
    | inl e ↦ inl ((eq_iff t "PRIVATE KEY").0 e)
    | inr e1 ↦ elim (Bool-cases (t == "RSA PRIVATE KEY")) [
      | inl e ↦ inr (inl ((eq_iff t "RSA PRIVATE KEY").0 e))
      | inr e2 ↦ inr (inr ((eq_iff t "EC PRIVATE KEY").0 (rw (e1, e2) at h)))
    ]
  ]

  pub parse_pem-Panicking : (block : Block) → parse_pem crypto block ≡ none → Panicking block
  unfolding parse_pem parse_x509_private_key
  parse_pem-Panicking block h = elim (Bool-cases (block.type == "CERTIFICATE REQUEST")) [
    | inl e ↦ cc (rw e at h)
    | inr e1 ↦ elim (Bool-cases (block.type == "CERTIFICATE")) [
      | inl e ↦ cc (rw (e1, e) at h)
      | inr e2 ↦ elim (Bool-cases (block.type == "PUBLIC KEY")) [
        | inl e ↦ cc (rw (e1, e2, e) at h)
        | inr e3 ↦
            elim (Bool-cases (
              block.type == "PRIVATE KEY"
              || block.type == "RSA PRIVATE KEY"
              || block.type == "EC PRIVATE KEY")) [
                | inl e ↦
                    let (key, is_rsa, lacks) =
                      converted-lacks block.bytes (parse_private_key crypto block.bytes) (
                        contain_private_key-panics (parse_x509_private_key crypto block.bytes)
                          (rw (e1, e2, e3, e) at h)) in
                    (key, key_label block.type e, is_rsa, lacks)
                | inr e ↦ cc (rw (e1, e2, e3, e) at h)
              ]
      ]
    ]
  ]

  parse_pem-key_block :
      (block : Block)
      → IsKeyBlock block
      → parse_pem crypto block ≡ contain_private_key (parse_x509_private_key crypto block.bytes)
  unfolding parse_pem
  parse_pem-key_block block (inl e) = rw e refl
  parse_pem-key_block block (inr (inl e)) = rw e refl
  parse_pem-key_block block (inr (inr e)) = rw e refl

  parse_pem-panics : (block : Block) → Panicking block → parse_pem crypto block ≡ none
  unfolding parse_x509_private_key convert_private_key
  parse_pem-panics block (key, is_key, is_rsa, lacks) =
      parse_pem-key_block block is_key
      ∙ rw (is_rsa, parse_x509_private_key) (rw (convert_rsa_private_key-panics key lacks) refl)

  pub outcome-Panicking :
      (blocks : List Block) → outcome crypto blocks ≡ none → SomeBlock Panicking blocks
  outcome-Panicking [] h = cc
  outcome-Panicking (b ∷ bs) h = elim (Option-cases (parse_pem crypto b)) [
    | inl e ↦ inl (parse_pem-Panicking b e)
    | inr ((container, error), e) ↦ elim (Option-cases (outcome crypto bs)) [
      | inl none_later ↦ inr (outcome-Panicking bs none_later)
      | inr (found, later) ↦ cc (rw (e, later) at h)
    ]
  ]

  and_block-none :
      (parsed : Option (Option Container × Option Error)) → and_block crypto parsed none ≡ none
  and_block-none none = refl
  and_block-none (some (container, e)) = refl

  pub outcome-none :
      (blocks : List Block) → SomeBlock Panicking blocks → outcome crypto blocks ≡ none
  outcome-none [] h = elim h [ ]
  outcome-none (b ∷ bs) (inl h) =
      ap (λ p. and_block crypto p (outcome crypto bs)) (parse_pem-panics b h)
  outcome-none (b ∷ bs) (inr h) =
      ap (and_block crypto (parse_pem crypto b)) (outcome-none bs h)
      ∙ and_block-none (parse_pem crypto b)
