-- ===== src/Codec/Base58/Tables.antt =====
-- The two tables of src/common/base58.rs undo each other.
use mwc.Prelude.{
  ℕ, ◌<◌, ◌/◌, ◌%◌, ◌^◌, ◌≡◌, ◌≢◌, refl, ◌&&◌, ◌||◌, Bool, true, not, arith, ◌==◌, get_or,
  all_below, all_below_sound,
}
use mwc.Codec.Base58.{alphabet, digits_map}

-- The character is ASCII, and stands for this digit.
abbrev pub IsDigitOf : ℕ → ℕ → Type 0
IsDigitOf c d = (c / 2 ^ 7 % 2 ≡ 0) × (get_or digits_map c 255 ≡ d) × (d < 58)

abbrev symbol : ℕ → ℕ
symbol d = get_or alphabet d 0

abbrev checked : ℕ → Bool
checked d =
    symbol d / 2 ^ 7 % 2 == 0
    && get_or digits_map (symbol d) 255 == d
    && (d == 0 || not (symbol d == b'1'))

table : all_below 58 checked ≡ true
table = refl

pub symbol-IsDigitOf : (d : ℕ) → d < 58 → IsDigitOf (get_or alphabet d 0) d
symbol-IsDigitOf d h = let c = all_below_sound 58 checked d table h in ground arith

-- Only the digit 0 is written as `1`.
pub symbol-ne-one : (d : ℕ) → d < 58 → d ≢ 0 → get_or alphabet d 0 ≢ b'1'
symbol-ne-one d h k = let c = all_below_sound 58 checked d table h in ground arith
