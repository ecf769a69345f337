-- ===== src/Cli/Ca/Samples.antt =====
-- A system and libraries for the examples of authorities.
use camblet.Base.{◌≡◌, ap, sym, [], ◌∷◌, none, some, length, ◌<◌}
use camblet.Base.Fallible.{value, value_inj}
use camblet.Tls.Types.{Bytes, Block, Certificate, Crypto}
use camblet.Tls.Toy.{toy, toy_certificate, toy_pem_decode_consumes, toy_platform}
use camblet.Tls.Authority.Defs.{Platform}
use camblet.Cli.Authority.{FileSystem}

-- The stand-in, with a parser of certificates that keeps the DER.
abbrev pub keeping : Crypto
keeping = record toy { parse_certificate = λ der. value (record toy_certificate { raw = der }) }

pub keeping-raw :
    (der : Bytes) (cert : Certificate) → keeping.parse_certificate der ≡ value cert → cert.raw ≡ der
keeping-raw der cert h =
    ap (λ (c : Certificate). c.raw) (sym (value_inj (record toy_certificate { raw = der }) cert h))

pub keeping-consumes :
    (content rest : Bytes) (block : Block)
    → keeping.pem_decode content ≡ some (block, rest)
    → length rest < length content
keeping-consumes content rest block h = toy_pem_decode_consumes content rest block h

-- A system on which the file does not exist, and every call succeeds.
abbrev pub fs : FileSystem
fs = record {
  stat = λ path. some "no such file";
  chmod = λ path mode. none;
  create = λ path. none;
  write = λ path content. none;
}

-- The file is there later.
abbrev pub later : Platform
later = record toy_platform { read_file = λ file. value (2 ∷ 1 ∷ []) }
