-- ===== src/Codec/Base58/Written.antt =====
-- What `to_base58` of src/common/base58.rs writes, for every length.
use mathlib.Core.Path.{subst₂}
use mwc.Prelude.{
  ℕ, zero, suc, ◌+◌, ◌-◌, ◌*◌, ◌/◌, ◌^◌, ◌≤◌, ◌≡◌, inl, refl, sym, ap, ◌∙◌, List, [], ◌++◌, arith,
  length, replicate, Bytes, Option, some, drop, length-replicate, All-drop, All-replicate,
}
use mwc.Codec.Base58.{leading, buffer_size, to_base58, encode_loop}
use mwc.Codec.Base58.Value.{scale, value, low, Below, Zeros, onto, value-zeros, low-Zeros}
use mwc.Codec.Base58.Size.{bytes_fit, all_but_one_fit, scale-pow}
use mwc.Codec.Base58.Buffer.{Encoded, Ready, encode_loop-Encoded}
use mwc.Codec.Base58.Layout.{symbols, Stops, leading_split, length-drop, leading-Stops}

onto_zeros : (n k : ℕ) → onto (replicate n 0) (replicate k 0) ≡ replicate (n + k) 0
onto_zeros zero k = ap (λ m. replicate m 0) (let e : k ≡ 0 + k = omega arith in e)
onto_zeros (suc n) k =
    onto_zeros n (suc k)
    ∙ ap (λ m. replicate m 0) (let e : n + suc k ≡ suc n + k = omega arith in e)

-- What `to_base58` writes: a `1` for each leading zero byte, and the digits of the number.
pub record Written (bytes : Bytes) (r : Option Bytes) : Type 0 where
  pub digits : List ℕ
  pub result : r ≡ some (replicate (leading 0 bytes) b'1' ++ symbols digits)
  pub below : Below 58 digits
  pub stops : Stops 0 digits
  pub number : value 58 digits ≡ value 256 bytes

pub value_behind : (b : ℕ) (xs : List ℕ) → value b (drop (leading 0 xs) xs) ≡ value b xs
value_behind b xs =
    sym (value-zeros b (leading 0 xs) (drop (leading 0 xs) xs)) ∙ ap (value b) (leading_split 0 xs)

onto_zeros_nil : (n : ℕ) → onto (replicate n 0) [] ≡ replicate n 0
onto_zeros_nil n = onto_zeros n 0 ∙ ap (λ m. replicate m 0) (let e : n + 0 ≡ n = omega arith in e)

-- The zeroed buffer.
start-Ready :
    (bytes : Bytes)
    → let m = (length bytes - leading 0 bytes) * 138 / 100 in
      Ready m m (drop (leading 0 bytes) bytes) (replicate (suc m) 0)
start-Ready bytes =
    let rest = drop (leading 0 bytes) bytes in
    let m = (length bytes - leading 0 bytes) * 138 / 100 in
    let none_set : Zeros (replicate (suc m) 0) = All-replicate _ (suc m) 0 refl in
    let weight : scale 256 rest ≡ 256 ^ (length bytes - leading 0 bytes) =
      scale-pow 256 rest ∙ ap (λ k. 256 ^ k) (length-drop (leading 0 bytes) bytes) in
    record {
      full = length-replicate (suc m) 0;
      digits = All-replicate _ (suc m) 0 (omega arith);
      zeros = inl (All-drop _ (m - m) (replicate (suc m) 0) none_set);
      room =
          rw (low-Zeros 58 _ none_set, weight)
            (omega (arith, bytes_fit (length bytes - leading 0 bytes)));
      first_free =
          rw (low-Zeros 58 _ none_set, weight)
            (omega (arith, all_but_one_fit (length bytes - leading 0 bytes)));
    }

start-Encoded :
    (fuel : ℕ) (bytes : Bytes)
    → suc (buffer_size bytes) ≤ fuel
    → Below 256 bytes
    → Encoded ((length bytes - leading 0 bytes) * 138 / 100) (value 256 bytes) (
        encode_loop fuel
          (buffer_size bytes)
          (buffer_size bytes - 1)
          (drop (leading 0 bytes) bytes)
          (replicate (buffer_size bytes) 0))
start-Encoded fuel bytes hf hb =
    let rest = drop (leading 0 bytes) bytes in
    let m = (length bytes - leading 0 bytes) * 138 / 100 in
    let at_end : m + 1 - 1 ≡ m = omega arith in
    let size : m + 1 ≡ suc m = omega arith in
    let total : low 58 (replicate (suc m) 0) * scale 256 rest + value 256 rest ≡ value 256 bytes =
      rw
        (
          low-Zeros 58 (replicate (suc m) 0) (All-replicate _ (suc m) 0 refl),
          value_behind 256 bytes,
        )
        (omega arith) in
    rw (at_end, size)
      (subst₂ (λ t c. Encoded m t (encode_loop fuel (suc m) m rest c)) total
        (onto_zeros_nil (suc m))
        (encode_loop-Encoded fuel m m rest (replicate (suc m) 0) (omega arith)
          (All-drop _ (leading 0 bytes) bytes hb) (start-Ready bytes)))

-- With one round more than the buffer has cells for the inner loop, `to_base58` ends on every byte
-- vector: it writes a `1` for each leading zero byte, and then the base-58 digits of the vector's
-- number without leading zeros.
pub to_base58-Written :
    (fuel : ℕ) (bytes : Bytes)
    → suc (buffer_size bytes) ≤ fuel
    → Below 256 bytes
    → Written bytes (to_base58 fuel bytes)
unfolding to_base58
to_base58-Written fuel bytes hf hb =
    let e = start-Encoded fuel bytes hf hb in
    record {
      digits = drop (leading 0 e.buffer) e.buffer;
      result = rw (e.result, to_base58) refl;
      below = All-drop _ (leading 0 e.buffer) e.buffer e.digits;
      stops = leading-Stops 0 e.buffer;
      number = value_behind 58 e.buffer ∙ e.number;
    }
