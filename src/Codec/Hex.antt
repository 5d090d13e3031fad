-- ===== src/Codec/Hex.antt =====
-- The hexadecimal codec of src/common/crypto.rs, on ASCII texts.
pub mod RoundTrip
mod Tests
use mwc.Prelude.{
  ℕ, zero, suc, ◌+◌, ◌-◌, ◌*◌, ◌/◌, ◌%◌, ◌^◌, Bool, true, false, not, ◌&&◌, ◌||◌, List, [], ◌∷◌,
  ◌++◌, Option, none, some, Bytes, codes, bytes_eq, length, take, drop, leb, ltb, ◌==◌,
  if◌then◌else◌, Outcome, ok, err, panic, ◌>>=◌, ◌>>◌, guard, ok_or,
}
use mwc.ErrorKind.{ErrorKind, number_parsing_error}

abbrev pub hex_digit : ℕ → ℕ
hex_digit d = if ltb d 10 then b'0' + d else b'a' + (d - 10)

-- `{:02x}` of each byte
unfoldable pub to_hex : Bytes → Bytes
to_hex [] = []
to_hex (b ∷ bs) = hex_digit (b / 16) ∷ hex_digit (b % 16) ∷ to_hex bs

abbrev pub digit_value : ℕ → Option ℕ
digit_value c =
    if leb b'0' c && leb c b'9'
    then some (c - b'0')
    else if leb b'a' c && leb c b'f'
    then some (c - b'a' + 10)
    else if leb b'A' c && leb c b'F'
    then some (c - b'A' + 10)
    else none

-- `u8::from_str_radix(b, 16)` of two characters, where the first may be a plus sign
abbrev pub parse_byte : ℕ → ℕ → Option ℕ
parse_byte c d = elim (digit_value d) [
  | none ↦ none
  | some low ↦
      if c == b'+'
      then some low
      else elim (digit_value c) [ none ↦ none | some high ↦ some (high * 16 + low) ]
]

abbrev pub is_space : ℕ → Bool
is_space c = leb 9 c && leb c 13 || c == 32

abbrev pub trim_start : Bytes → Bytes
trim_start [] = []
trim_start (c ∷ s) = let rest = trim_start s in if is_space c then rest else c ∷ s

abbrev pub all_spaces : Bytes → Bool
all_spaces [] = true
all_spaces (c ∷ s) = is_space c && all_spaces s

abbrev pub trim_end : Bytes → Bytes
trim_end [] = []
trim_end (c ∷ s) = let rest = trim_end s in if all_spaces (c ∷ s) then [] else c ∷ rest

abbrev pub trim : Bytes → Bytes
trim s = trim_end (trim_start s)

-- `split_n(s, 2)` in the given rounds: the slice panics where two characters are not there.
unfoldable pub split_rounds : ℕ → Bytes → Outcome ErrorKind (List (ℕ × ℕ))
split_rounds zero s = ok []
split_rounds (suc rounds) [] = panic
split_rounds (suc rounds) (c ∷ []) = panic
split_rounds (suc rounds) (c ∷ d ∷ s) = do rest ← split_rounds rounds s; ok ((c, d) ∷ rest)

unfoldable pub split_n : Bytes → Outcome ErrorKind (List (ℕ × ℕ))
unfolding split_rounds
split_n s = split_rounds ((length s + 2 ^ 64 - 2 + 1) % 2 ^ 64 / 2 + 1) s

-- `.map(..).collect::<Result<Vec<u8>, Error>>()`
unfoldable pub parse_bytes : List (ℕ × ℕ) → Outcome ErrorKind Bytes
parse_bytes [] = ok []
parse_bytes (p ∷ ps) = do
  b ← ok_or (parse_byte p.0 p.1) number_parsing_error
  bs ← parse_bytes ps
  ok (b ∷ bs)

-- `&hex_str[..2]`
abbrev pub drop_0x : Bytes → Outcome ErrorKind Bytes
drop_0x [] = panic
drop_0x (c ∷ []) = panic
drop_0x (c ∷ d ∷ s) = if c == b'0' && d == b'x' then ok s else ok (c ∷ d ∷ s)

unfoldable pub from_hex : Bytes → Outcome ErrorKind Bytes
unfolding split_n parse_bytes
from_hex hex_str = do
  guard (not (length hex_str % 2 == 1)) number_parsing_error
  hex_trim ← drop_0x hex_str
  pairs ← split_n (trim hex_trim)
  parse_bytes pairs
