-- ===== src/Tls/Parser/Keys.antt =====
-- The keys of pkg/tls/parser.go.
pub mod Numbers
use Prim.Native.Nat.{◌*◌, ◌/◌, ◌%◌}
use mathlib.Core.List.{replicate as unary_replicate}
use camblet.Base.{
  ℕ, zero, suc, ◌+◌, List, [], ◌∷◌, ◌++◌, Option, none, some, length, nat_eq, if◌then◌else◌,
}
use camblet.Base.Int.{ℤ, int32}
use camblet.Base.Fallible.{Fallible, value, fails, or_fails, ◌>>=◌ as and_then}
use camblet.Base.Result.{Result, ok, err, ◌>>=◌, deref}
use camblet.Tls.Types.{
  Bytes, RsaPublicKey, EcdsaPublicKey, RsaPrivateKey, EcdsaPrivateKey, AnyPublicKey, rsa_public,
  ecdsa_public, other_public, AnyPrivateKey, rsa_private, ecdsa_private, ed25519_private,
  other_private, PublicKey, PrivateKey, no_public_key, no_private_key, Crypto,
}

-- big.Int.Bytes: the bytes of n from the highest, with no leading zero. The fuel n is enough.
unfoldable pub bytes_onto : ℕ → ℕ → Bytes → Bytes
bytes_onto zero n low = low
bytes_onto (suc fuel) n low =
    let higher = bytes_onto fuel (n / 256) ((n % 256) ∷ low) in if nat_eq n 0 then low else higher

unfoldable pub big_bytes : ℕ → Bytes
unfolding bytes_onto
big_bytes n = bytes_onto n n []

-- rsa.PublicKey.Size: the length of the modulus in bytes
unfoldable pub rsa_size : RsaPublicKey → ℕ
unfolding big_bytes
rsa_size key = length (big_bytes key.n)

unfoldable pub convert_rsa_public_key : RsaPublicKey → PublicKey
unfolding rsa_size
convert_rsa_public_key key = record no_public_key {
  type = "RSA";
  bit_size = int32 (rsa_size key * 8);
  rsa_n = big_bytes key.n;
  rsa_e = big_bytes key.e;
  key = some (rsa_public key);
}

unfoldable pub convert_ecds_public_key : EcdsaPublicKey → PublicKey
unfolding big_bytes
convert_ecds_public_key key = record no_public_key {
  type = "ECDSA";
  bit_size = int32 key.curve_bit_size;
  curve = key.curve_name;
  ec_q = 4 ∷ (big_bytes key.x ++ big_bytes key.y);
  key = some (ecdsa_public key);
}

-- the type switch of `parseX509PublicKey`
unfoldable pub convert_public_key : AnyPublicKey → Fallible PublicKey
convert_public_key (rsa_public key) = value (convert_rsa_public_key key)
convert_public_key (ecdsa_public key) = value (convert_ecds_public_key key)
convert_public_key other_public = fails "unsupported public key"

-- `Bytes` on a number that is a pointer; on nil it panics.
abbrev pub pointer_bytes : Option ℕ → Result Bytes
pointer_bytes number = deref number >>= λ n. ok (big_bytes n)

unfoldable pub convert_rsa_private_key : RsaPrivateKey → Result PrivateKey
unfolding rsa_size
convert_rsa_private_key key = do
  p ← pointer_bytes key.prime_0
  q ← pointer_bytes key.prime_1
  dp ← pointer_bytes key.dp
  dq ← pointer_bytes key.dq
  iq ← pointer_bytes key.qinv
  ok (record no_private_key {
    type = "RSA";
    size = rsa_size key.public_key * 8;
    rsa_p = p;
    rsa_q = q;
    rsa_dp = dp;
    rsa_dq = dq;
    rsa_iq = iq;
    public_key = some (convert_rsa_public_key key.public_key);
    key = some (rsa_private key);
  })

unfoldable pub convert_ecds_private_key : EcdsaPrivateKey → PrivateKey
convert_ecds_private_key key = record no_private_key {
  type = "ECDSA";
  curve = key.public_key.curve_name;
  ec_d = big_bytes key.d;
  public_key = some (convert_ecds_public_key key.public_key);
  key = some (ecdsa_private key);
}

-- the type switch of `parseX509PrivateKey`
unfoldable pub convert_private_key : AnyPrivateKey → Result PrivateKey
convert_private_key (rsa_private key) = convert_rsa_private_key key
convert_private_key (ecdsa_private key) = ok (convert_ecds_private_key key)
convert_private_key ed25519_private = err "unsupported private key"
convert_private_key other_private = err "unsupported private key"

module _ (crypto : Crypto) where
  -- `parsePublicKey`: PKCS#1, then PKIX
  unfoldable pub parse_public_key : Bytes → Fallible AnyPublicKey
  parse_public_key der = elim (crypto.parse_pkcs1_public_key der) [
    | some key ↦ value (rsa_public key)
    | none ↦ or_fails "tls: failed to parse public key" (crypto.parse_pkix_public_key der)
  ]

  unfoldable pub parse_x509_public_key : Bytes → Fallible PublicKey
  unfolding parse_public_key
  parse_x509_public_key der =
      and_then (parse_public_key der)
        λ x509key. and_then (convert_public_key x509key) λ pk. value (record pk { raw = der })

  -- the inner type switch of `parsePrivateKey`
  abbrev known_pkcs8 : AnyPrivateKey → Fallible AnyPrivateKey
  known_pkcs8 (rsa_private key) = value (rsa_private key)
  known_pkcs8 (ecdsa_private key) = value (ecdsa_private key)
  known_pkcs8 ed25519_private = value ed25519_private
  known_pkcs8 other_private = fails "found unknown private key type in PKCS#8 wrapping"

  abbrev ecdsa_or_error : Option EcdsaPrivateKey → Fallible AnyPrivateKey
  ecdsa_or_error (some key) = value (ecdsa_private key)
  ecdsa_or_error none = fails "unsupported private key"

  -- `parsePrivateKey`: PKCS#1, then PKCS#8, then SEC 1
  unfoldable pub parse_private_key : Bytes → Fallible AnyPrivateKey
  parse_private_key der = elim (crypto.parse_pkcs1_private_key der) [
    | some key ↦ value (rsa_private key)
    | none ↦ elim (crypto.parse_pkcs8_private_key der) [
      | some key ↦ known_pkcs8 key
      | none ↦ ecdsa_or_error (crypto.parse_ec_private_key der)
    ]
  ]

  unfoldable pub parse_x509_private_key : Bytes → Result PrivateKey
  unfolding parse_private_key
  parse_x509_private_key der = elim (parse_private_key der) [
    | fails e ↦ err e
    | value x509key ↦ convert_private_key x509key >>= λ pk. ok (record pk { raw = der })
  ]
