-- ===== src/Tls/Parser/Blocks/Reparse.antt =====
-- A private key that is written back as PEM.
use camblet.Base.{◌≡◌, sym, ap}
use camblet.Base.Result.{Result, ok, err, ◌>>=◌, bind-ok_then, ok_inj}
use camblet.Base.Fallible.{Fallible, value, fails}
use camblet.Tls.Types.{Bytes, PrivateKey, AnyPrivateKey, Crypto}
use camblet.Tls.Parser.Keys.{parse_x509_private_key, parse_private_key, convert_private_key}

-- `parseX509PrivateKey` behind the parsing.
converted-raw :
    (der : Bytes) (parsed : Fallible AnyPrivateKey) (pk : PrivateKey)
    → (elim parsed as (λ _. Result PrivateKey) [
      | fails e ↦ err e
      | value x509key ↦ convert_private_key x509key >>= λ made. ok (record made { raw = der })
    ])
      ≡ ok pk
    → pk.raw ≡ der
converted-raw der (fails e) pk h = cc
converted-raw der (value x509key) pk h =
    bind-ok_then (convert_private_key x509key) _ h
      λ made _ is_pk. sym (ap (λ k. k.raw) (ok_inj _ pk is_pk))

module _ (crypto : Crypto) where
  pub parse_x509_private_key-raw :
      (der : Bytes) (pk : PrivateKey) → parse_x509_private_key crypto der ≡ ok pk → pk.raw ≡ der
  unfolding parse_x509_private_key
  parse_x509_private_key-raw der pk h = converted-raw der (parse_private_key crypto der) pk h
