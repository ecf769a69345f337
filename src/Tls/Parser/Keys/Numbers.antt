-- ===== src/Tls/Parser/Keys/Numbers.antt =====
-- The numbers of the keys as byte texts.
use Prim.Native.Nat.{◌*◌, ◌/◌, ◌%◌}
use camblet.Base.{
  ℕ, zero, suc, ◌+◌, ◌≤◌, ◌<◌, ◌≡◌, refl, sym, ap, ◌∙◌, [], ◌∷◌, arith, nat_eq, Bool-cases, inl,
  inr, some, false,
}
use camblet.Base.Result.{ok}
use camblet.Tls.Types.{Bytes, RsaPublicKey, RsaPrivateKey, EcdsaPrivateKey, PrivateKey}
use camblet.Tls.Parser.Keys.{
  bytes_onto, big_bytes, convert_rsa_public_key, convert_rsa_private_key, convert_ecds_private_key,
}

bytes_onto_zero : (f : ℕ) (low : Bytes) → bytes_onto f 0 low ≡ low
unfolding bytes_onto
bytes_onto_zero zero low = refl
bytes_onto_zero (suc f) low = refl

-- The fuel n is enough for n.
bytes_onto_enough :
    (f g n : ℕ) (low : Bytes) → n ≤ f → n ≤ g → bytes_onto f n low ≡ bytes_onto g n low
unfolding bytes_onto
bytes_onto_enough zero g n low hf hg =
    let e : n ≡ 0 = omega arith in rw e (sym (bytes_onto_zero g low))
bytes_onto_enough (suc f) zero n low hf hg =
    let e : n ≡ 0 = omega arith in rw e (bytes_onto_zero (suc f) low)
bytes_onto_enough (suc f) (suc g) n low hf hg = elim (Bool-cases (nat_eq n 0)) [
  | inl e ↦ rw e
  | inr e ↦ rw e (bytes_onto_enough f g (n / 256) ((n % 256) ∷ low) (ground arith) (ground arith))
]

bytes_onto_step :
    (n : ℕ) (low : Bytes)
    → 0 < n
    → bytes_onto n n low ≡ bytes_onto (n / 256) (n / 256) ((n % 256) ∷ low)
unfolding bytes_onto
bytes_onto_step zero low h = elim h [ ]
bytes_onto_step (suc n) low h =
    let nonzero : nat_eq (suc n) 0 ≡ false = ground arith in
    rw nonzero (
      bytes_onto_enough n (suc n / 256) (suc n / 256) ((suc n % 256) ∷ low) (omega arith)
        (omega arith))

-- big.Int.SetBytes
abbrev pub from_bytes : ℕ → Bytes → ℕ
from_bytes acc [] = acc
from_bytes acc (b ∷ bs) = from_bytes (acc * 256 + b) bs

from_bytes-bytes_onto :
    (f n : ℕ) (low : Bytes) → n ≤ f → from_bytes 0 (bytes_onto f n low) ≡ from_bytes n low
unfolding bytes_onto
from_bytes-bytes_onto zero n low h = let e : n ≡ 0 = omega arith in rw e
from_bytes-bytes_onto (suc f) n low h = elim (Bool-cases (nat_eq n 0)) [
  | inl e ↦ let z : n ≡ 0 = ground arith in rw z
  | inr e ↦ rw e (
      from_bytes-bytes_onto f (n / 256) ((n % 256) ∷ low) (ground arith)
      ∙ ap (λ m. from_bytes m low) (omega arith))
]

pub from_bytes-big_bytes : (n : ℕ) → from_bytes 0 (big_bytes n) ≡ n
unfolding big_bytes
from_bytes-big_bytes n = from_bytes-bytes_onto n n [] (omega arith)

-- A private RSA key whose primes and CRT numbers are all there is converted without a panic. The
-- converted private keys hold, as big-endian byte texts, the numbers of the key, and the public key
-- that a converted RSA key carries holds its modulus and exponent.
pub convert_private_key_numbers :
    (public_key : RsaPublicKey) (prime_0 prime_1 dp dq qinv : ℕ) (ec : EcdsaPrivateKey)
    → let rsa : RsaPrivateKey = record {
      public_key = public_key;
      prime_0 = some prime_0;
      prime_1 = some prime_1;
      dp = some dp;
      dq = some dq;
      qinv = some qinv;
    } in
      let p = convert_rsa_public_key public_key in
      (r : PrivateKey) × (convert_rsa_private_key rsa ≡ ok r)
      × (from_bytes 0 r.rsa_p ≡ prime_0)
      × (from_bytes 0 r.rsa_q ≡ prime_1)
      × (from_bytes 0 r.rsa_dp ≡ dp)
      × (from_bytes 0 r.rsa_dq ≡ dq)
      × (from_bytes 0 r.rsa_iq ≡ qinv)
      × (r.public_key ≡ some p)
      × (from_bytes 0 p.rsa_n ≡ public_key.n)
      × (from_bytes 0 p.rsa_e ≡ public_key.e)
      × (from_bytes 0 (convert_ecds_private_key ec).ec_d ≡ ec.d)
unfolding convert_rsa_private_key convert_rsa_public_key convert_ecds_private_key
convert_private_key_numbers public_key prime_0 prime_1 dp dq qinv ec = (
  _,
  refl,
  from_bytes-big_bytes _,
  from_bytes-big_bytes _,
  from_bytes-big_bytes _,
  from_bytes-big_bytes _,
  from_bytes-big_bytes _,
  refl,
  from_bytes-big_bytes _,
  from_bytes-big_bytes _,
  from_bytes-big_bytes _,
)
