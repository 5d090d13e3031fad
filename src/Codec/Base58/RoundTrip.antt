-- ===== src/Codec/Base58/RoundTrip.antt =====
-- `from_base58` undoes `to_base58` (src/common/base58.rs).
use native.Mathlib.Nat.{pow-le-pow_right}
use mwc.Prelude.{
  ℕ, ◌+◌, ◌-◌, ◌^◌, ◌<◌, ◌≤◌, ◌≡◌, refl, sym, ◌∙◌, false, List, [], ◌++◌, arith, length, replicate,
  Bytes, Option, ok, ◌>>=◌, panic, append-nil, some, length-append, length-replicate, All-replicate,
  All-append, ltb,
}
use mwc.Codec.Base58.{
  leading, buffer_size, to_base58, from_base58, decode_loop, word_bytes, cut_zeros,
}
use mwc.Codec.Base58.Value.{scale, value, Below, value-injective, value-zeros, value-lt-scale}
use mwc.Codec.Base58.Size.{scale-pow}
use mwc.Codec.Base58.Decode.{decode_loop-Decoded}
use mwc.Codec.Base58.Layout.{
  symbols, Stops, leading_more, drop_run, symbols-Stops, word_bytes_value, length-word_bytes,
  word_bytes-Below,
}
use mwc.Codec.Base58.Written.{Written, to_base58-Written}

cut_run :
    (pad : ℕ) (bytes : Bytes) → cut_zeros (leading 0 bytes) (replicate pad 0 ++ bytes) ≡ ok bytes
unfolding cut_zeros
cut_run pad bytes =
    let enough : ltb (pad + leading 0 bytes) (leading 0 bytes) ≡ false = ground arith in
    let back : pad + leading 0 bytes - leading 0 bytes ≡ pad = omega arith in
    rw (leading_more 0 pad bytes, enough, back, drop_run 0 pad bytes)

read_written :
    (z : ℕ) (s : Bytes)
    → Stops b'1' s
    → from_base58 (replicate z b'1' ++ s)
      ≡ (decode_loop z s (replicate 33 0) >>= λ out. cut_zeros z (word_bytes out))
unfolding from_base58
read_written z s h =
    let count : leading b'1' (replicate z b'1' ++ s) ≡ z =
      leading_more b'1' z s ∙ (rw h (omega arith)) in
    rw (count, drop_run b'1' z s)

-- The 132 bytes that hold the number of `bytes`, cut behind their zeros.
cut_padded :
    (bytes bin : Bytes)
    → length bytes ≤ 132
    → Below 256 bytes
    → length bin ≡ 132
    → Below 256 bin
    → value 256 bin ≡ value 256 bytes
    → cut_zeros (leading 0 bytes) bin ≡ ok bytes
cut_padded bytes bin fits hb hn hbin e =
    let pad = 132 - length bytes in
    let padded : bin ≡ replicate pad 0 ++ bytes =
      value-injective 256 bin (replicate pad 0 ++ bytes)
        (omega (arith, length-append (replicate pad 0) bytes, length-replicate {A = ℕ} pad 0)) hbin
        (All-append _ (replicate pad 0) bytes (All-replicate _ pad 0 (omega arith)) hb)
        (e ∙ sym (value-zeros 256 pad bytes)) in
    rw padded (cut_run pad bytes)

pub from_base58-Written :
    (bytes : Bytes) {r : Option Bytes}
    → Written bytes r
    → length bytes ≤ 132
    → Below 256 bytes
    → (s : Bytes) → r ≡ some s
    → from_base58 s ≡ ok bytes
from_base58-Written bytes w fits hb s h =
    let z = leading 0 bytes in
    let same : s ≡ replicate z b'1' ++ symbols w.digits = let e = w.result in cc in
    let small : value 58 w.digits < scale (2 ^ 32) (replicate 33 0) =
      let k = value-lt-scale 256 bytes hb in
      let l : scale 256 bytes ≤ 256 ^ 132 =
        rw (scale-pow 256 bytes) (pow-le-pow_right (omega arith) fits) in
      let n = w.number in omega arith in
    let clear : Below (2 ^ 32) (replicate 33 0) = omega arith in
    let d = decode_loop-Decoded z w.digits (replicate 33 0) w.below clear (omega arith) in
    rw (same, read_written z (symbols w.digits) (symbols-Stops w.digits w.below w.stops), d.result)
      (cut_padded bytes (word_bytes d.words) fits hb
        (omega (arith, length-word_bytes d.words, d.full)) (word_bytes-Below d.words)
        (word_bytes_value d.words d.digits ∙ d.number ∙ omega (arith, w.number)))

-- Every byte vector of at most 132 bytes is written in base 58 without an endless loop, given as
-- many rounds for the inner loop as the buffer has cells and one more, and is read back unchanged,
-- leading zeros included.
pub from_base58-to_base58 :
    (fuel : ℕ) (bytes : Bytes)
    → buffer_size bytes < fuel
    → Below 256 bytes
    → length bytes ≤ 132
    → (s : Bytes) × (to_base58 fuel bytes ≡ some s) × (from_base58 s ≡ ok bytes)
from_base58-to_base58 fuel bytes hf hb fits =
    let w = to_base58-Written fuel bytes hf hb in
    let s = replicate (leading 0 bytes) b'1' ++ symbols w.digits in
    (s, w.result, from_base58-Written bytes w fits hb s w.result)

decode_nil : (z : ℕ) (out : List ℕ) → decode_loop z [] out ≡ ok out
unfolding decode_loop
decode_nil z out = refl

cut_short : (n : ℕ) → 132 < n → cut_zeros n (word_bytes (replicate 33 0)) ≡ panic
unfolding cut_zeros word_bytes
cut_short n h = ground arith

-- A text of more than 132 characters `1` and no others makes `from_base58` panic.
pub from_base58_ones : (n : ℕ) → 132 < n → from_base58 (replicate n b'1') ≡ panic
from_base58_ones n h =
    rw
      (
        ← append-nil {A = ℕ} (replicate n b'1'),
        read_written n [] refl,
        decode_nil n (replicate 33 0),
      )
      (cut_short n h)
