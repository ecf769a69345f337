-- ===== src/Cli/Ca/Tests.antt =====
-- Authorities that are created, written and loaded again, on examples.
use camblet.Base.{◌≡◌, refl, [], ◌∷◌, ◌++◌, none, some}
use camblet.Base.Result.{ok}
use camblet.Base.Fallible.{value}
use camblet.Tls.Toy.{toy_certificate, toy_platform, key_of_block, root_certificate, loaded_ca}
use camblet.Tls.Parser.Keys.{
  convert_public_key, convert_rsa_private_key, convert_private_key, parse_x509_private_key,
}
use camblet.Tls.Parser.Certificates.{
  parse_x509_certificate_from_der, convert_x509_certificate, get_x509_certificate_type, self_signed,
  bytes_equal,
}
use camblet.Tls.Parser.Blocks.{certificate_pem, parse_pem, parse_pems, parse_loop, read_pems}
use camblet.Tls.Authority.Defs.{
  Platform, with_pem_file, with_pem, new_certificate_authority, verify_ca, init, load, first_ca,
  read_containers, get_trust_anchor, get_intermediates, all_certificates,
}
use camblet.Tls.Authority.Issue.{
  create_self_signed_ca_certificate, create_ca_certificate, create_intermediate,
}
use camblet.Cli.Ca.Samples.{keeping, keeping-raw, keeping-consumes, fs, later}
use camblet.Cli.Authority.{root_ca_options, ensure_ca_certificate}
use camblet.Cli.Authority.Reloaded.{ensure_ca_certificate-reloads}
use camblet.Cli.Ca.{print_intermediate, print_chain}
use camblet.Cli.Ca.Reloads.{print_intermediate-reloads}

root-created :
    create_self_signed_ca_certificate keeping toy_platform root_ca_options
    ≡ ok (root_certificate, key_of_block)
unfolding create_self_signed_ca_certificate parse_x509_certificate_from_der convert_x509_certificate
    get_x509_certificate_type self_signed bytes_equal convert_public_key root_certificate
    parse_x509_private_key convert_rsa_private_key convert_private_key
root-created = refl

ensure_ca_certificate-reloads_example :
    new_certificate_authority keeping later (with_pem_file "ca.pem" ∷ [])
    ≡ verify_ca keeping later (record {
      pem = none;
      pem_file = "ca.pem";
      private_key = some key_of_block;
      certificate = some root_certificate;
      certificates = root_certificate ∷ [];
    })
unfolding ensure_ca_certificate create_self_signed_ca_certificate parse_x509_certificate_from_der
    convert_x509_certificate get_x509_certificate_type self_signed bytes_equal convert_public_key
    root_certificate parse_x509_private_key convert_rsa_private_key convert_private_key
    certificate_pem
ensure_ca_certificate-reloads_example =
    ensure_ca_certificate-reloads keeping toy_platform fs "ca.pem" keeping-consumes keeping-raw
      root_certificate toy_certificate key_of_block (2 ∷ 1 ∷ []) later root-created refl
      (λ rest. (_, refl, refl, refl), ((λ rest. (_, refl, refl, refl)), tt)) refl refl refl refl

abbrev later_intermediate : Platform
later_intermediate = record toy_platform { read_file = λ file. value (2 ∷ 1 ∷ 2 ∷ []) }

authority-loaded :
    new_certificate_authority keeping toy_platform (with_pem (1 ∷ 2 ∷ []) ∷ []) ≡ ok loaded_ca
unfolding new_certificate_authority init load first_ca read_containers read_pems parse_pems
    parse_loop parse_pem parse_x509_certificate_from_der convert_x509_certificate
    get_x509_certificate_type self_signed bytes_equal convert_public_key root_certificate
    parse_x509_private_key convert_rsa_private_key convert_private_key certificate_pem verify_ca
    get_trust_anchor get_intermediates all_certificates
authority-loaded = refl

intermediate-created :
    create_intermediate keeping toy_platform loaded_ca root_ca_options
    ≡ ok ((root_certificate, key_of_block), [])
unfolding create_intermediate create_ca_certificate parse_x509_certificate_from_der
    convert_x509_certificate get_x509_certificate_type self_signed bytes_equal convert_public_key
    root_certificate parse_x509_private_key convert_rsa_private_key convert_private_key
    get_intermediates
intermediate-created = refl

print_intermediate-reloads_example :
    new_certificate_authority keeping later_intermediate (with_pem_file "int.pem" ∷ [])
    ≡ verify_ca keeping later_intermediate (record {
      pem = none;
      pem_file = "int.pem";
      private_key = some key_of_block;
      certificate = some root_certificate;
      certificates =
          root_certificate ∷ (get_intermediates loaded_ca.certificates ++ root_certificate ∷ []);
    })
unfolding print_intermediate print_chain certificate_pem get_trust_anchor root_certificate
    convert_x509_certificate get_x509_certificate_type self_signed bytes_equal convert_public_key
print_intermediate-reloads_example =
    print_intermediate-reloads keeping keeping-consumes keeping-raw toy_platform
      (with_pem (1 ∷ 2 ∷ []) ∷ []) loaded_ca root_ca_options root_certificate toy_certificate
      key_of_block [] root_certificate (2 ∷ 1 ∷ 2 ∷ []) later_intermediate "int.pem"
      authority-loaded intermediate-created refl refl
      (
        λ rest. (_, refl, refl, refl),
        ((λ rest. (_, refl, refl, refl)), ((λ rest. (_, refl, refl, refl)), tt)),
      )
      refl refl refl refl
