-- ===== src/Tls/Parser/Blocks/Encoded.antt =====
-- `ParsePEMs` on blocks that were encoded one after the other.
use camblet.Base.{◌<◌, ◌≡◌, refl, sym, ap, ap₂, ◌∙◌, subst, List, [], ◌∷◌, ◌++◌, All, some, length}
use mathlib.Core.Option.{some-injective}
use camblet.Tls.Types.{Bytes, Block, Crypto}
use camblet.Tls.Parser.Blocks.{parse_pem, parse_pems}
use camblet.Tls.Parser.Blocks.Loop.{
  Decodes, stop, next, outcome, and_block, decode_empty, parse_pems-Decodes,
}

module _ (crypto : Crypto) where
  -- The decoder gives an encoded block back, whatever follows it, but for the headers, which no
  -- parser reads.
  abbrev pub ReadsBack : Block → Type 0
  ReadsBack b =
      (rest : Bytes)
      → (b' : Block) × (crypto.pem_decode (crypto.pem_encode b ++ rest) ≡ some (b', rest))
        × (b'.type ≡ b.type)
        × (b'.bytes ≡ b.bytes)

  abbrev pub encode_all : List Block → Bytes
  encode_all [] = []
  encode_all (b ∷ bs) = crypto.pem_encode b ++ encode_all bs

  parse_pem-same :
      (b b' : Block)
      → b'.type ≡ b.type
      → b'.bytes ≡ b.bytes
      → parse_pem crypto b' ≡ parse_pem crypto b
  unfolding parse_pem
  parse_pem-same b b' t e = rw (t, e) refl

  -- What decoding again and again gives is determined.
  pub Decodes-unique :
      (content : Bytes) (bs cs : List Block)
      → Decodes crypto content bs
      → Decodes crypto content cs
      → bs ≡ cs
  Decodes-unique content [] [] (stop e) (stop e') = refl
  Decodes-unique content [] (c ∷ cs) (stop e) (next e' d') = cc
  Decodes-unique content (b ∷ bs) [] (next e d) (stop e') = cc
  Decodes-unique content (b ∷ bs) (c ∷ cs) (next {rest} e d) (next {rest = rest'} e' d') =
      let same : ◌≡◌ {A = Block × Bytes} (b, rest) (c, rest') = some-injective _ _ (sym e ∙ e') in
      ap₂ (λ x xs. x ∷ xs) (ap (λ p. p.0) same)
        (Decodes-unique rest' bs cs (subst (λ r. Decodes crypto r bs) (ap (λ p. p.1) same) d) d')

  module _
      (pem_decode_consumes : (content rest : Bytes) (block : Block)
        → crypto.pem_decode content ≡ some (block, rest)
        → length rest < length content) where
    decoded_blocks :
        (bs : List Block)
        → All ReadsBack bs
        → (blocks : List Block) × Decodes crypto (encode_all bs) blocks
          × (outcome crypto blocks ≡ outcome crypto bs)
    decoded_blocks [] all = ([], stop (decode_empty crypto pem_decode_consumes), refl)
    decoded_blocks (b ∷ bs) (back, all) =
        let (b', e, t, same) = back (encode_all bs) in
        let (blocks, d, same_outcome) = decoded_blocks bs all in
        let parses = parse_pem-same b b' t same in
        (b' ∷ blocks, next e d, ap₂ (and_block crypto) parses same_outcome)

    pub parse_pems-encode_all :
        (bs : List Block) → All ReadsBack bs → parse_pems crypto (encode_all bs) ≡ outcome crypto bs
    parse_pems-encode_all bs all =
        let (blocks, d, same_outcome) = decoded_blocks bs all in
        let (found, d', parses) = parse_pems-Decodes crypto pem_decode_consumes (encode_all bs) in
        let same = Decodes-unique (encode_all bs) found blocks d' d in
        parses ∙ ap (outcome crypto) same ∙ same_outcome
