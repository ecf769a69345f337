-- ===== src/Tls/Tests.antt =====
-- The parsers and the certificate authority on examples.
use camblet.Base.{none, ◌≡◌, ◌↔◌, refl, true, List, [], ◌∷◌, some, ◌*◌, ◌+◌}
use camblet.Base.Int.{pos, ◌+ℤ◌}
use camblet.Base.Result.{ok, panics}
use camblet.Base.Fallible.{value}
use camblet.Tls.Types.{Crypto, PrivateKey, Bytes, Block, rsa_public, rsa_private, RsaPrivateKey}
use camblet.Tls.Parser.Keys.{
  convert_rsa_public_key, convert_ecds_public_key, convert_ecds_private_key,
  convert_rsa_private_key, convert_private_key, convert_public_key, parse_x509_private_key,
  parse_private_key,
}
use camblet.Tls.Parser.Keys.Numbers.{from_bytes, convert_private_key_numbers}
use camblet.Tls.Parser.Certificates.{
  get_x509_certificate_type, self_signed, bytes_equal, convert_x509_certificate,
  parse_x509_certificate_from_der,
}
use camblet.Tls.Parser.Blocks.{
  read_files, parse_pem, parse_pems, parse_loop, read_pems, certificate_pem,
}
use camblet.Tls.Parser.Blocks.Loop.{Decodes, outcome, parse_pems-Decodes}
use camblet.Tls.Authority.Defs.{
  Platform, Ca, Template, itself, default_ca_certificate_ttl, with_pem, with_pem_file, init,
  new_certificate_authority, read_containers, load, first_ca, all_certificates, get_trust_anchor,
  get_intermediates, verify_ca, apply_options, empty_ca,
}
use camblet.Tls.Authority.Issue.{
  CertificateOptions, sign_certificate_request, create_ca_certificate,
  create_self_signed_ca_certificate, create_intermediate,
}
use camblet.Tls.Authority.Init.Panics.{HasPanicking, new_certificate_authority-panics_iff}
use camblet.Tls.Authority.Init.{IsReady, new_certificate_authority-IsReady}
use camblet.Tls.Authority.Sign.{
  IssuedLeaf, sign_certificate_request-IssuedLeaf, create_self_signed_ca_certificate-ok,
}
use camblet.Tls.Authority.Reload.{of_certificate, of_key}
use camblet.Tls.Authority.Ecdsa.{new_certificate_authority-panics_later}
use camblet.Tls.Toy.{
  toy_certificate, key_of_block, root_certificate, loaded_ca, toy, toy_platform, toy_request,
  toy_key, toy_public_key, toy_ecdsa_key, toy_point, toy_pem_decode_consumes,
}

convert_private_key_numbers_example :
    (r : PrivateKey) × (convert_rsa_private_key toy_key ≡ ok r)
    × (from_bytes 0 r.rsa_p ≡ 7)
    × (from_bytes 0 r.rsa_q ≡ 11)
    × (from_bytes 0 r.rsa_dp ≡ 1)
    × (from_bytes 0 r.rsa_dq ≡ 2)
    × (from_bytes 0 r.rsa_iq ≡ 3)
    × (r.public_key ≡ some (convert_rsa_public_key toy_public_key))
    × (from_bytes 0 (convert_rsa_public_key toy_public_key).rsa_n ≡ 77)
    × (from_bytes 0 (convert_rsa_public_key toy_public_key).rsa_e ≡ 3)
    × (from_bytes 0 (convert_ecds_private_key toy_ecdsa_key).ec_d ≡ 9)
convert_private_key_numbers_example =
    convert_private_key_numbers toy_public_key 7 11 1 2 3 toy_ecdsa_key

parse_pems-Decodes_example :
    (blocks : List Block) × Decodes toy (1 ∷ 9 ∷ []) blocks
    × (parse_pems toy (1 ∷ 9 ∷ []) ≡ outcome toy blocks)
parse_pems-Decodes_example = parse_pems-Decodes toy toy_pem_decode_consumes (1 ∷ 9 ∷ [])

loaded_ca-new :
    new_certificate_authority toy toy_platform (with_pem (1 ∷ 2 ∷ []) ∷ []) ≡ ok loaded_ca
unfolding new_certificate_authority init read_containers verify_ca load first_ca all_certificates
    get_trust_anchor get_intermediates certificate_pem parse_pem read_pems parse_pems parse_loop
    parse_x509_private_key parse_private_key parse_x509_certificate_from_der
    convert_x509_certificate get_x509_certificate_type self_signed bytes_equal convert_private_key
    convert_rsa_private_key convert_public_key root_certificate
loaded_ca-new = refl

new_certificate_authority-IsReady_example : IsReady toy toy_platform loaded_ca
new_certificate_authority-IsReady_example =
    new_certificate_authority-IsReady toy toy_platform (with_pem (1 ∷ 2 ∷ []) ∷ []) loaded_ca
      loaded_ca-new

-- The libraries on a key with equal primes, which has no Qinv.
abbrev equal_primes_toy : Crypto
equal_primes_toy = record toy {
  parse_pkcs1_private_key = λ der. some (record toy_key { prime_1 = some 7; qinv = none });
}

equal_primes-panics :
    new_certificate_authority equal_primes_toy toy_platform (with_pem_file "ca.pem" ∷ []) ≡ panics
unfolding new_certificate_authority init read_containers read_files read_pems parse_pems parse_loop
    parse_pem parse_x509_private_key parse_private_key convert_private_key convert_rsa_private_key
equal_primes-panics = refl

-- Without a fixed length, other coordinates give the same text.
shared_ec_q :
    (convert_ecds_public_key (record toy_point { x = 5 * 256 + 7; y = 8 })).ec_q
    ≡ (convert_ecds_public_key (record toy_point { y = 7 * 256 + 8 })).ec_q
unfolding convert_ecds_public_key
shared_ec_q = refl

new_certificate_authority-panics_iff_example :
    (new_certificate_authority equal_primes_toy toy_platform (with_pem_file "ca.pem" ∷ []) ≡ panics)
    ↔ HasPanicking equal_primes_toy toy_platform
        (apply_options empty_ca (with_pem_file "ca.pem" ∷ []))
new_certificate_authority-panics_iff_example =
    new_certificate_authority-panics_iff equal_primes_toy toy_platform toy_pem_decode_consumes
      (with_pem_file "ca.pem" ∷ [])

signed-ok :
    sign_certificate_request toy toy_platform loaded_ca (some toy_request) (pos 0)
    ≡ ok (root_certificate, [])
unfolding sign_certificate_request get_intermediates parse_x509_certificate_from_der
    convert_x509_certificate get_x509_certificate_type self_signed bytes_equal
    convert_rsa_private_key convert_public_key root_certificate
signed-ok = refl

sign_certificate_request-IssuedLeaf_example :
    IssuedLeaf toy toy_platform loaded_ca toy_request (pos 0) root_certificate
    × ([] ≡ get_intermediates loaded_ca.certificates)
sign_certificate_request-IssuedLeaf_example =
    sign_certificate_request-IssuedLeaf toy toy_platform loaded_ca toy_request (pos 0)
      root_certificate [] signed-ok

abbrev toy_options : CertificateOptions
toy_options = record {
  subject = "ca";
  ttl = pos 0;
  key_size = 0;
  dns_names = [];
  email_addresses = [];
  ip_addresses = [];
  uris = [];
}

-- The libraries on a file with a certificate and an ECDSA key.
abbrev ecdsa_toy : Crypto
ecdsa_toy = record toy {
  parse_pkcs1_private_key = λ der. none;
  parse_ec_private_key = λ der. some toy_ecdsa_key;
}

abbrev ecdsa_platform : Platform
ecdsa_platform = record toy_platform { read_file = λ file. value (2 ∷ 1 ∷ []) }

abbrev ecdsa_key : PrivateKey
ecdsa_key = record (convert_ecds_private_key toy_ecdsa_key) { raw = 1 ∷ [] }

abbrev ecdsa_ca : Ca
ecdsa_ca = record {
  pem = none;
  pem_file = "ca.pem";
  private_key = some ecdsa_key;
  certificate = some root_certificate;
  certificates = root_certificate ∷ [];
}

ecdsa_read :
    read_pems ecdsa_toy (2 ∷ 1 ∷ [])
    ≡ ok (of_certificate root_certificate ∷ of_key ecdsa_key ∷ [], [])
unfolding read_pems parse_pems parse_loop parse_pem parse_x509_private_key parse_private_key
    convert_private_key parse_x509_certificate_from_der convert_x509_certificate
    get_x509_certificate_type self_signed bytes_equal convert_public_key root_certificate
ecdsa_read = refl

ecdsa_accepted :
    new_certificate_authority ecdsa_toy ecdsa_platform (with_pem_file "ca.pem" ∷ []) ≡ ok ecdsa_ca
unfolding new_certificate_authority init read_containers read_files verify_ca load first_ca
    all_certificates get_trust_anchor get_intermediates certificate_pem parse_pem read_pems
    parse_pems parse_loop parse_x509_private_key parse_private_key parse_x509_certificate_from_der
    convert_x509_certificate get_x509_certificate_type self_signed bytes_equal convert_private_key
    convert_public_key root_certificate
ecdsa_accepted = refl

new_certificate_authority-panics_later_example :
    (sign_certificate_request ecdsa_toy ecdsa_platform ecdsa_ca (some toy_request) (pos 0) ≡ panics)
    × (create_intermediate ecdsa_toy ecdsa_platform ecdsa_ca toy_options ≡ panics)
unfolding convert_ecds_private_key root_certificate
new_certificate_authority-panics_later_example =
    new_certificate_authority-panics_later ecdsa_toy ecdsa_platform "ca.pem" (2 ∷ 1 ∷ [])
      root_certificate toy_certificate ecdsa_key toy_ecdsa_key [] ecdsa_ca refl refl refl refl
      ecdsa_read refl ecdsa_accepted (some toy_request) (pos 0) 4 toy_options refl

created-ok :
    create_self_signed_ca_certificate toy toy_platform toy_options
    ≡ ok (root_certificate, key_of_block)
unfolding create_self_signed_ca_certificate create_ca_certificate parse_x509_certificate_from_der
    convert_x509_certificate get_x509_certificate_type self_signed bytes_equal
    parse_x509_private_key parse_private_key convert_private_key convert_rsa_private_key
    convert_public_key root_certificate
created-ok = refl

create_self_signed_ca_certificate-ok_example :
    (t : Template) × (own : RsaPrivateKey) × (der : Bytes) × (t.is_ca ≡ true)
    × (t.not_after ≡ (pos 101 +ℤ default_ca_certificate_ttl))
    × (toy_platform.generate_rsa_key 2048 ≡ value own)
    × (toy_platform.create_certificate t (itself t) (rsa_public own.public_key) (rsa_private own)
        ≡ value der)
    × (parse_x509_certificate_from_der toy der ≡ value root_certificate)
    × (parse_x509_private_key toy (toy_platform.marshal_pkcs1 own) ≡ ok key_of_block)
create_self_signed_ca_certificate-ok_example =
    create_self_signed_ca_certificate-ok toy toy_platform toy_options root_certificate key_of_block
      created-ok
