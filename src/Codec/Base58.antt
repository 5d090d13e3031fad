-- ===== src/Codec/Base58.antt =====
-- The base58 codec of src/common/base58.rs, loop by loop. Vectors are lists; `buffer[j]` reads by
-- `get_or` and writes by `set`. SHA-256 is not under src/: it is a parameter of the `check` forms.
pub mod Value
pub mod Tables
pub mod Size
pub mod Encode
pub mod Buffer
pub mod Decode
pub mod Layout
pub mod Written
pub mod RoundTrip
pub mod Check
mod Tests
use mwc.Prelude.{
  ℕ, zero, suc, ◌+◌, ◌-◌, ◌*◌, ◌/◌, ◌%◌, ◌^◌, Bool, true, false, not, ◌||◌, List, [], ◌∷◌, ◌++◌,
  map, Option, none, some, Bytes, codes, bytes_eq, length, get_or, set, take, drop, replicate, ltb,
  ◌==◌, if◌then◌else◌, Outcome, ok, err, panic, ◌>>=◌,
}
use mwc.ErrorKind.{
  ErrorKind, invalid_base58_character, invalid_base58_length, invalid_base58_checksum,
}

abbrev pub alphabet : Bytes
alphabet = codes "123456789ABCDEFGHJKLMNPQRSTUVWXYZabcdefghijkmnopqrstuvwxyz"

-- Entries are `i8` bit patterns: 255 is -1.
abbrev pub digits_map : List ℕ
digits_map =
    replicate 49 255
    ++ (0 ∷ 1 ∷ 2 ∷ 3 ∷ 4 ∷ 5 ∷ 6 ∷ 7 ∷ 8 ∷ [])
    ++ replicate 7 255
    ++ (9 ∷ 10 ∷ 11 ∷ 12 ∷ 13 ∷ 14 ∷ 15 ∷ 16 ∷ 255 ∷ [])
    ++ (17 ∷ 18 ∷ 19 ∷ 20 ∷ 21 ∷ 255 ∷ [])
    ++ (22 ∷ 23 ∷ 24 ∷ 25 ∷ 26 ∷ 27 ∷ 28 ∷ 29 ∷ 30 ∷ 31 ∷ 32 ∷ [])
    ++ replicate 6 255
    ++ (33 ∷ 34 ∷ 35 ∷ 36 ∷ 37 ∷ 38 ∷ 39 ∷ 40 ∷ 41 ∷ 42 ∷ 43 ∷ 255 ∷ [])
    ++ (44 ∷ 45 ∷ 46 ∷ 47 ∷ 48 ∷ 49 ∷ 50 ∷ 51 ∷ 52 ∷ 53 ∷ 54 ∷ 55 ∷ 56 ∷ 57 ∷ [])
    ++ replicate 5 255

-- `iter().take_while(|x| **x == a).count()`
abbrev pub leading : ℕ → List ℕ → ℕ
leading a [] = 0
leading a (x ∷ xs) = if x == a then suc (leading a xs) else 0

-- The inner loop of `to_base58`: the last position and the buffer, or `none` when the fuel is used
-- up. `j - 1` stops at 0, as the source's `if j > 0` does; `carry` is a u32.
unfoldable pub carry_loop : ℕ → ℕ → ℕ → ℕ → List ℕ → Option (ℕ × List ℕ)
carry_loop zero high j carry buffer = none
carry_loop (suc fuel) high j carry buffer =
    let total = (carry + 256 * get_or buffer j 0) % 2 ^ 32 in
    let rest = carry_loop fuel high (j - 1) (total / 58) (set buffer j (total % 58)) in
    if ltb high j || not (carry == 0) then rest else some (j, buffer)

-- The outer loop over the bytes behind the leading zeros.
unfoldable pub encode_loop : ℕ → ℕ → ℕ → Bytes → List ℕ → Option (List ℕ)
encode_loop fuel size high [] buffer = some buffer
encode_loop fuel size high (b ∷ bs) buffer = elim (carry_loop fuel high (size - 1) b buffer) [
  | none ↦ none
  | some (j, next) ↦ encode_loop fuel size j bs next
]

abbrev pub buffer_size : Bytes → ℕ
buffer_size bytes = (length bytes - leading 0 bytes) * 138 / 100 + 1

-- `none`: the inner loop does not end within `fuel` rounds.
unfoldable pub to_base58 : ℕ → Bytes → Option Bytes
to_base58 fuel bytes =
    let zcount = leading 0 bytes in
    let size = buffer_size bytes in
    elim (encode_loop fuel size (size - 1) (drop zcount bytes) (replicate size 0)) [
      | none ↦ none
      | some buffer ↦
          some (
            replicate zcount b'1'
            ++ map (λ d. get_or alphabet d 0) (drop (leading 0 buffer) buffer))
    ]

-- The inner loop of `from_base58` on the words `out`, from the last to the first: the words and the
-- carry. `(t & 0x3f00000000) >> 32` is the six bits of `t` from bit 32 on.
pub mul_add : List ℕ → ℕ → List ℕ × ℕ
mul_add [] c = ([], c)
mul_add (w ∷ ws) c =
    let (rest, c') = mul_add ws c in let t = w * 58 + c' in (t % 2 ^ 32 ∷ rest, t / 2 ^ 32 % 64)

-- The loop over the characters from position `i` on. The source's second length test is against
-- `zeromask`, which is 0 because 132 is a multiple of 4.
pub decode_loop : ℕ → Bytes → List ℕ → Outcome ErrorKind (List ℕ)
decode_loop i [] out = ok out
decode_loop i (b ∷ bs) out =
    let (next, carry) = mul_add out (get_or digits_map b 255) in
    let rest = decode_loop (i + 1) bs next in
    if b / 2 ^ 7 % 2 == 1
    then err (invalid_base58_character b i)
    else if get_or digits_map b 255 == 255
    then err (invalid_base58_character b i)
    else if not (carry == 0)
    then err invalid_base58_length
    else rest

-- `bin[i]` to `bin[i + 3]` for each word.
pub word_bytes : List ℕ → Bytes
word_bytes [] = []
word_bytes (w ∷ ws) =
    (w / 2 ^ 24 % 256) ∷ (w / 2 ^ 16 % 256) ∷ (w / 2 ^ 8 % 256) ∷ (w % 256) ∷ word_bytes ws

-- The slice of the 132 bytes from `leading_zeros - zcount` on; the subtraction panics below 0.
pub cut_zeros : ℕ → Bytes → Outcome ErrorKind Bytes
cut_zeros zcount bin =
    let leading_zeros = leading 0 bin in
    if ltb leading_zeros zcount then panic else ok (drop (leading_zeros - zcount) bin)

pub from_base58 : Bytes → Outcome ErrorKind Bytes
unfolding cut_zeros
from_base58 s =
    let zcount = leading b'1' s in
    do out ← decode_loop zcount (drop zcount s) (replicate 33 0); cut_zeros zcount (word_bytes out)

-- The forms with a version and a checksum.
module _ (double_sha256 : Bytes → Bytes) where
  unfoldable pub to_base58_check : ℕ → Bytes → Bytes → Option Bytes
  to_base58_check fuel bytes version =
      let payload = version ++ bytes in to_base58 fuel (payload ++ take 4 (double_sha256 payload))

  -- `payload[..version_bytes]` panics beyond the end.
  pub split_version : Bytes → ℕ → Outcome ErrorKind (Bytes × Bytes)
  split_version payload version_bytes =
      if ltb (length payload) version_bytes
      then panic
      else ok (take version_bytes payload, drop version_bytes payload)

  pub check_payload : Bytes → ℕ → Outcome ErrorKind (Bytes × Bytes)
  unfolding split_version
  check_payload payload version_bytes =
      if ltb (length payload) 5
      then err invalid_base58_checksum
      else (let checksum_index = length payload - 4 in
          let body = take checksum_index payload in
          if bytes_eq (take 4 (double_sha256 body)) (drop checksum_index payload)
          then split_version body version_bytes
          else err invalid_base58_checksum)

  pub from_base58_check : Bytes → ℕ → Outcome ErrorKind (Bytes × Bytes)
  from_base58_check s version_bytes = do
    payload ← from_base58 s
    check_payload payload version_bytes
