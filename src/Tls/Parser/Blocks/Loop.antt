-- ===== src/Tls/Parser/Blocks/Loop.antt =====
-- `ParsePEMs` reads every block.
use camblet.Base.{
  ℕ, zero, suc, ◌<◌, ◌≡◌, refl, ap, subst, All, All-append, ◌∙◌, inl, inr, List, [], ◌∷◌, ◌++◌,
  Option, none, some, length, append-nil, append_assoc, Option-cases, arith, if◌then◌else◌,
}
use mathlib.Core.Option.{some-injective}
use camblet.Base.Result.{Error}
use camblet.Tls.Types.{Bytes, Block, Container, Crypto}
use camblet.Tls.Parser.Blocks.{is_empty, parse_pem, option_list, parse_loop, parse_pems}

module _ (crypto : Crypto) where
  -- Decoding the content again and again gives these blocks.
  pub data Decodes : Bytes → List Block → Type 0 where
    stop : {content : Bytes} → crypto.pem_decode content ≡ none → Decodes content []
    next :
        {content rest : Bytes} {block : Block} {blocks : List Block}
        → crypto.pem_decode content ≡ some (block, rest)
        → Decodes rest blocks
        → Decodes content (block ∷ blocks)

  abbrev pub parsed_block : Option Container → Option Error → List Container
  parsed_block container none = option_list container
  parsed_block container (some e) = []

  abbrev pub failure : Option Error → List Error
  failure none = []
  failure (some e) = e ∷ []

  abbrev pub and_block :
      Option (Option Container × Option Error)
      → Option (List Container × List Error)
      → Option (List Container × List Error)
  and_block none later = none
  and_block (some (container, e)) none = none
  and_block (some (container, e)) (some (cs, es)) =
      some (parsed_block container e ++ cs, failure e ++ es)

  -- The containers of the blocks that parse, and the errors of the others, in the blocks' order;
  -- `none` if the parser panics on one of them.
  abbrev pub outcome : List Block → Option (List Container × List Error)
  outcome [] = some ([], [])
  outcome (b ∷ bs) = and_block (parse_pem crypto b) (outcome bs)

  -- What holds of the container of every block that parses holds of all containers.
  module _ (P : Container → Type 0)
      (parsed-P : (block : Block) (c : Container)
        → parse_pem crypto block ≡ some (some c, none)
        → P c) where
    parsed_block-All :
        (block : Block) (container : Option Container) (e : Option Error)
        → parse_pem crypto block ≡ some (container, e)
        → All P (parsed_block container e)
    parsed_block-All block container (some e) h = tt
    parsed_block-All block none none h = tt
    parsed_block-All block (some c) none h = (parsed-P block c h, tt)

    and_block-All :
        (block : Block) (parsed : Option (Option Container × Option Error))
        (later : Option (List Container × List Error)) (found : List Container × List Error)
        → parse_pem crypto block ≡ parsed
        → ((cs : List Container × List Error) → later ≡ some cs → All P cs.0)
        → and_block parsed later ≡ some found
        → All P found.0
    and_block-All block none later found e all h = cc
    and_block-All block (some (container, error)) none found e all h = cc
    and_block-All block (some (container, error)) (some cs) found e all h =
        subst (λ f. All P f.0) (some-injective _ found h)
          (All-append P (parsed_block container error) cs.0
            (parsed_block-All block container error e) (all cs refl))

    pub outcome-All :
        (blocks : List Block) (found : List Container × List Error)
        → outcome blocks ≡ some found
        → All P found.0
    outcome-All [] found h = subst (λ f. All P f.0) (some-injective ([], []) found h) tt
    outcome-All (b ∷ bs) found h =
        and_block-All b (parse_pem crypto b) (outcome bs) found refl (outcome-All bs) h

  module _
      (pem_decode_consumes : (content rest : Bytes) (block : Block)
        → crypto.pem_decode content ≡ some (block, rest)
        → length rest < length content) where
    pub decode_empty : crypto.pem_decode [] ≡ none
    decode_empty = elim (Option-cases (crypto.pem_decode [])) [
      | inl e ↦ e
      | inr ((block, rest), e) ↦ absurd (omega (arith, pem_decode_consumes [] rest block e))
    ]

    abbrev behind :
        List Container
        → List Error
        → Option (List Container × List Error)
        → Option (List Container × List Error)
    behind cs es none = none
    behind cs es (some (cs', es')) = some (cs ++ cs', es ++ es')

    abbrev Reads : ℕ → Bytes → List Block → Type 0
    Reads fuel content blocks =
        (cs : List Container) (es : List Error)
        → parse_loop crypto fuel content cs es ≡ behind cs es (outcome blocks)

    behind-good :
        (cs : List Container) (es : List Error) (container : Option Container)
        (later : Option (List Container × List Error))
        → behind (cs ++ option_list container) es later
          ≡ behind cs es (and_block (some (container, none)) later)
    behind-good cs es container none = refl
    behind-good cs es container (some (cs', es')) =
        ap (λ fs. some (fs, es ++ es')) (append_assoc cs (option_list container) cs')

    behind-bad :
        (cs : List Container) (es : List Error) (container : Option Container) (e : Error)
        (later : Option (List Container × List Error))
        → behind cs (es ++ e ∷ []) later ≡ behind cs es (and_block (some (container, some e)) later)
    behind-bad cs es container e none = refl
    behind-bad cs es container e (some (cs', es')) =
        ap (λ fs. some (cs ++ cs', fs)) (append_assoc es (e ∷ []) es')

    -- Nothing follows the last block.
    no_blocks : (blocks : List Block) → Decodes [] blocks → blocks ≡ []
    no_blocks [] d = refl
    no_blocks (b ∷ bs) (next e d) = cc (decode_empty, e)

    good_round :
        (fuel : ℕ) (rest : Bytes) (blocks : List Block)
        → Decodes rest blocks
        → Reads fuel rest blocks
        → (cs : List Container) (es : List Error) (container : Option Container)
        → (if is_empty rest
            then some (cs ++ option_list container, es)
            else parse_loop crypto fuel rest (cs ++ option_list container) es)
          ≡ behind cs es (and_block (some (container, none)) (outcome blocks))
    good_round fuel [] blocks decodes reads cs es container =
        rw (no_blocks blocks decodes) (rw (append-nil (option_list container), append-nil es))
    good_round fuel (b ∷ rest) blocks decodes reads cs es container =
        reads (cs ++ option_list container) es ∙ behind-good cs es container (outcome blocks)

    -- One round on a block, when the rounds behind it read the rest.
    round-Reads :
        (fuel : ℕ) (content rest : Bytes) (block : Block) (blocks : List Block)
        → crypto.pem_decode content ≡ some (block, rest)
        → Decodes rest blocks
        → Reads fuel rest blocks
        → Reads (suc fuel) content (block ∷ blocks)
    unfolding parse_loop
    round-Reads fuel content rest block blocks e decodes reads cs es =
        elim (Option-cases (parse_pem crypto block)) [
          | inl panic ↦ rw (e, parse_loop) (rw (panic, parse_loop))
          | inr ((container, some error), bad) ↦
              rw (e, parse_loop)
                (rw (bad, parse_loop)
                  (reads cs (es ++ error ∷ []) ∙ behind-bad cs es container error (outcome blocks)))
          | inr ((container, none), good) ↦
              rw (e, parse_loop)
                (rw (good, parse_loop) (good_round fuel rest blocks decodes reads cs es container))
        ]

    parse_loop-Reads :
        (fuel : ℕ) (content : Bytes)
        → length content < fuel
        → (blocks : List Block) × Decodes content blocks × Reads fuel content blocks
    parse_loop-Reads zero content h = elim h [ ]
    parse_loop-Reads (suc fuel) content h = elim (Option-cases (crypto.pem_decode content)) [
      | inl e ↦ (
        [],
        stop e,
        λ cs es. unfold parse_loop in rw (e, parse_loop) (rw (append-nil cs, append-nil es)),
      )
      | inr ((block, rest), e) ↦
          let (blocks, decodes, reads) =
            parse_loop-Reads fuel rest (omega (arith, pem_decode_consumes content rest block e)) in
          (
            block ∷ blocks,
            next e decodes,
            round-Reads fuel content rest block blocks e decodes reads,
          )
    ]

    behind_nothing : (found : Option (List Container × List Error)) → behind [] [] found ≡ found
    behind_nothing none = refl
    behind_nothing (some found) = refl

    -- For a PEM decoder that consumes what it decodes, `ParsePEMs` ends: it panics exactly if
    -- parsing one of the blocks panics that decoding the content again and again gives, and else
    -- it returns the containers of exactly the blocks that parse and the errors of exactly the
    -- others, each in the order of the blocks.
    pub parse_pems-Decodes :
        (content : Bytes)
        → (blocks : List Block) × Decodes content blocks
          × (parse_pems crypto content ≡ outcome blocks)
    unfolding parse_pems
    parse_pems-Decodes content =
        let (blocks, decodes, reads) =
          parse_loop-Reads (suc (length content)) content (omega arith) in
        (blocks, decodes, reads [] [] ∙ behind_nothing (outcome blocks))
