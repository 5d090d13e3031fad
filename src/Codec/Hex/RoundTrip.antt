-- ===== src/Codec/Hex/RoundTrip.antt =====
-- Every non-empty byte vector is read back from its hexadecimal text (src/common/crypto.rs).
use mwc.Prelude.{
  ℕ, ◌+◌, ◌-◌, ◌*◌, ◌/◌, ◌%◌, ◌^◌, ◌<◌, ◌≡◌, ◌≢◌, refl, ap, Bool, true, false, ◌&&◌, List, [], ◌∷◌,
  Option, none, some, Bytes, IsByte, All, length, all_below, all_below_sound, ◌==◌, ==_iff, ok,
  panic, arith,
}
use mwc.Codec.Hex.{
  hex_digit, to_hex, parse_byte, is_space, trim, trim_end, split_rounds, split_n, parse_bytes,
  drop_0x, from_hex,
}

abbrev reads_back : ℕ → Bool
reads_back b = elim (parse_byte (hex_digit (b / 16)) (hex_digit (b % 16))) [
  | none ↦ false
  | some c ↦ c == b
]

byte_table : all_below 256 reads_back ≡ true
byte_table = refl

found_same :
    (o : Option ℕ) (b : ℕ) → (elim o [ none ↦ false | some c ↦ c == b ]) ≡ true → o ≡ some b
found_same none b h = cc
found_same (some c) b h = ap some ((==_iff c b).0 h)

byte_back : (b : ℕ) → b < 256 → parse_byte (hex_digit (b / 16)) (hex_digit (b % 16)) ≡ some b
byte_back b h = found_same _ b (all_below_sound 256 reads_back b byte_table h)

and_false : (b : Bool) → (b && false) ≡ false
and_false true = refl
and_false false = refl

digit_plain : (d : ℕ) → d < 16 → is_space (hex_digit d) ≡ false
digit_plain d h = ground arith

digit_not_x : (d : ℕ) → d < 16 → (hex_digit d == b'x') ≡ false
digit_not_x d h = ground arith

to_hex-length : (bs : Bytes) → length (to_hex bs) ≡ 2 * length bs
unfolding to_hex
to_hex-length [] = refl
to_hex-length (b ∷ bs) = omega (arith, to_hex-length bs)

-- No white space stands at the end of a text.
plain_end : (bs : Bytes) → All IsByte bs → trim_end (to_hex bs) ≡ to_hex bs
unfolding to_hex
plain_end [] h = refl
plain_end (b ∷ bs) h =
    rw
      (
        digit_plain (b / 16) (omega (arith, h.0)),
        digit_plain (b % 16) (omega arith),
        plain_end bs h.1,
      )
      refl

plain : (bs : Bytes) → All IsByte bs → trim (to_hex bs) ≡ to_hex bs
unfolding to_hex
plain [] h = refl
plain (b ∷ bs) h = rw (digit_plain (b / 16) (omega (arith, h.0))) (plain_end (b ∷ bs) h)

abbrev pairs : Bytes → List (ℕ × ℕ)
pairs [] = []
pairs (b ∷ bs) = (hex_digit (b / 16), hex_digit (b % 16)) ∷ pairs bs

split_rounds-to_hex : (bs : Bytes) → split_rounds (length bs) (to_hex bs) ≡ ok (pairs bs)
unfolding split_rounds to_hex
split_rounds-to_hex [] = refl
split_rounds-to_hex (b ∷ bs) = rw (split_rounds-to_hex bs) refl

parse_bytes-pairs : (bs : Bytes) → All IsByte bs → parse_bytes (pairs bs) ≡ ok bs
unfolding parse_bytes
parse_bytes-pairs [] h = refl
parse_bytes-pairs (b ∷ bs) h = rw (byte_back b h.0, parse_bytes-pairs bs h.1) refl

length-pos : (bs : Bytes) → bs ≢ [] → 0 < length bs
length-pos [] h = absurd (h refl)
length-pos (b ∷ bs) h = omega arith

rounds_lem : (n : ℕ) → 0 < n → n < 2 ^ 62 → (2 * n + 2 ^ 64 - 2 + 1) % 2 ^ 64 / 2 + 1 ≡ n
rounds_lem n pos h = omega arith

even_length : (n : ℕ) → (2 * n % 2 == 1) ≡ false
even_length n = ground arith

no_prefix : (bs : Bytes) → bs ≢ [] → All IsByte bs → drop_0x (to_hex bs) ≡ ok (to_hex bs)
unfolding to_hex
no_prefix [] hn h = absurd (hn refl)
no_prefix (b ∷ bs) hn h =
    rw (digit_not_x (b % 16) (omega arith), and_false (hex_digit (b / 16) == b'0')) refl

split_n-to_hex : (bs : Bytes) → bs ≢ [] → length bs < 2 ^ 62 → split_n (to_hex bs) ≡ ok (pairs bs)
unfolding split_n
split_n-to_hex bs hn h =
    let rounds : (length (to_hex bs) + 2 ^ 64 - 2 + 1) % 2 ^ 64 / 2 + 1 ≡ length bs =
      rw (to_hex-length bs) (rounds_lem (length bs) (length-pos bs hn) h) in
    rw rounds (split_rounds-to_hex bs)

-- Every byte vector that is not empty, of fewer than 2 ^ 62 bytes, is read back from its text.
pub from_hex-to_hex :
    (bs : Bytes) → bs ≢ [] → All IsByte bs → length bs < 2 ^ 62 → from_hex (to_hex bs) ≡ ok bs
unfolding from_hex
from_hex-to_hex bs hn hb hl =
    rw
      (
        to_hex-length bs,
        even_length (length bs),
        no_prefix bs hn hb,
        plain bs hb,
        split_n-to_hex bs hn hl,
      )
      (parse_bytes-pairs bs hb)

-- The text of the empty byte vector makes the reader panic.
pub from_hex_empty : from_hex (to_hex []) ≡ panic
unfolding from_hex to_hex
from_hex_empty = refl
