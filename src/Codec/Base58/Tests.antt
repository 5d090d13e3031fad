-- ===== src/Codec/Base58/Tests.antt =====
-- The base 58 codec on small inputs.
use mwc.Prelude.{◌≡◌, refl, [], ◌∷◌, ◌++◌, some, Bytes, codes, replicate, take, ok, panic, arith}
use mwc.Samples.{sample_hash}
use mwc.Codec.Base58.{
  to_base58, carry_loop, encode_loop, from_base58, decode_loop, mul_add, word_bytes, cut_zeros,
  to_base58_check, from_base58_check, check_payload, split_version,
}
use mwc.Codec.Base58.Written.{Written, to_base58-Written}
use mwc.Codec.Base58.RoundTrip.{from_base58-to_base58, from_base58_ones}
use mwc.Codec.Base58.Check.{from_base58_check-to_base58_check, check_payload-eq_ok}

abbrev hello : Bytes
hello = 0 ∷ 0 ∷ codes "Hello World!"

hello_written : to_base58 100 hello ≡ some (codes "112NEpo7TZRRrLZSi2U")
unfolding to_base58 carry_loop encode_loop
hello_written = refl

hello_read : from_base58 (codes "112NEpo7TZRRrLZSi2U") ≡ ok hello
unfolding from_base58 decode_loop mul_add word_bytes cut_zeros
hello_read = refl

to_base58-Written_example : Written hello (to_base58 100 hello)
to_base58-Written_example = to_base58-Written 100 hello (omega arith) (omega arith)

from_base58-to_base58_example :
    (s : Bytes) × (to_base58 100 hello ≡ some s) × (from_base58 s ≡ ok hello)
from_base58-to_base58_example =
    from_base58-to_base58 100 hello (omega arith) (omega arith) (omega arith)

from_base58_ones_example : from_base58 (replicate 133 b'1') ≡ panic
from_base58_ones_example = from_base58_ones 133 (omega arith)

from_base58_check-to_base58_check_example :
    (s : Bytes) × (to_base58_check sample_hash 200 (5 ∷ 6 ∷ []) (1 ∷ 69 ∷ []) ≡ some s)
    × (from_base58_check sample_hash s 2 ≡ ok (1 ∷ 69 ∷ [], 5 ∷ 6 ∷ []))
from_base58_check-to_base58_check_example =
    from_base58_check-to_base58_check sample_hash (λ p. (omega arith, omega arith)) 200
      (1 ∷ 69 ∷ []) (5 ∷ 6 ∷ []) (omega arith) (omega arith) (omega arith) (omega arith)
      (omega arith)

abbrev version : Bytes
version = 1 ∷ 69 ∷ []

accepted : check_payload sample_hash (1 ∷ 69 ∷ 5 ∷ 7 ∷ 7 ∷ 7 ∷ 7 ∷ []) 2 ≡ ok (1 ∷ 69 ∷ [], 5 ∷ [])
unfolding check_payload split_version
accepted = refl

check_payload-eq_ok_example :
    (take 4 (sample_hash (1 ∷ 69 ∷ 5 ∷ [])) ≡ 7 ∷ 7 ∷ 7 ∷ 7 ∷ [])
    × (version ≡ take 2 (1 ∷ 69 ∷ 5 ∷ []))
    × (version ++ 5 ∷ [] ≡ 1 ∷ 69 ∷ 5 ∷ [])
check_payload-eq_ok_example =
    check_payload-eq_ok sample_hash (1 ∷ 69 ∷ 5 ∷ []) (7 ∷ 7 ∷ 7 ∷ 7 ∷ []) 2 (omega arith) refl
      accepted
