-- ===== src/Contacts/Address/Port.antt =====
-- A port is printed and read back (src/contacts/types.rs).
use native.Mathlib.Nat.{pow-suc}
use native.Mathlib.Decide.{dec_lt}
use mwc.Prelude.{
  ℕ, zero, suc, ◌+◌, ◌-◌, ◌*◌, ◌/◌, ◌%◌, ◌^◌, ◌<◌, ◌≤◌, ◌≡◌, ◌≢◌, refl, ap, ◌∙◌, [], ◌∷◌, ◌++◌,
  arith, All-append, Bytes, some, ok,
}
use mwc.Contacts.Address.{is_digit, u16_digits, parse_u16, decimal, show_u16, read_port}
use mwc.Contacts.Address.Chars.{Of}

u16_digits-append :
    (xs : Bytes) (n m d : ℕ)
    → u16_digits n xs ≡ some m
    → m * 10 + d < 65536
    → u16_digits n (xs ++ (b'0' + d) ∷ []) ≡ some (m * 10 + d)
unfolding u16_digits
u16_digits-append [] n m d h fits = ground arith
u16_digits-append (x ∷ xs) n m d h fits =
    ground (arith, u16_digits-append xs (n * 10 + (x - b'0')) m d)

one_digit : (n : ℕ) → n < 10 → u16_digits 0 ((b'0' + n) ∷ []) ≡ some n
unfolding u16_digits
one_digit n h = ground arith

decimal_short : (f n : ℕ) → n < 10 → decimal (suc f) n ≡ (b'0' + n) ∷ []
unfolding decimal
decimal_short f n h = ground arith

decimal_long : (f n : ℕ) → 10 ≤ n → decimal (suc f) n ≡ decimal f (n / 10) ++ (b'0' + n % 10) ∷ []
unfolding decimal
decimal_long f n h = ground arith

fewer_digits : (f n : ℕ) → n < 10 ^ suc f → n / 10 < 10 ^ f
fewer_digits f n h = omega (arith, pow-suc 10 f)

u16_digits-decimal :
    (f n : ℕ) → n < 10 ^ suc f → n < 65536 → u16_digits 0 (decimal (suc f) n) ≡ some n
u16_digits-decimal zero n h fits = rw (decimal_short 0 n (omega arith)) (one_digit n (omega arith))
u16_digits-decimal (suc f) n h fits = elim (dec_lt n 10) [
  | yes small ↦ rw (decimal_short (suc f) n small) (one_digit n small)
  | no large ↦
      let back : n / 10 * 10 + n % 10 ≡ n = omega arith in
      let ih = u16_digits-decimal f (n / 10) (fewer_digits (suc f) n h) (omega arith) in
      let whole =
        u16_digits-append (decimal (suc f) (n / 10)) 0 (n / 10) (n % 10) ih (omega arith) in
      rw (decimal_long (suc f) n (omega arith)) (whole ∙ ap some back)
]

decimal-Of : (f n : ℕ) → Of is_digit (decimal f n)
unfolding decimal
decimal-Of zero n = tt
decimal-Of (suc f) n = elim (dec_lt n 10) [
  | yes small ↦ rw (decimal_short f n small) (ground arith, tt)
  | no large ↦
      rw (decimal_long f n (omega arith))
        (All-append _ (decimal f (n / 10)) _ (decimal-Of f (n / 10)) (ground arith, tt))
]

pub show_u16-Of : (n : ℕ) → Of is_digit (show_u16 n)
unfolding show_u16
show_u16-Of n = decimal-Of 5 n

parse-digits : (s : Bytes) (n : ℕ) → s ≢ [] → u16_digits 0 s ≡ some n → parse_u16 s ≡ some n
unfolding parse_u16
parse-digits [] n h e = absurd (h refl)
parse-digits (c ∷ s) n h e = e

append-ne-nil : (xs : Bytes) (c : ℕ) → xs ++ c ∷ [] ≢ []
append-ne-nil [] c h = cc
append-ne-nil (x ∷ xs) c h = cc

show_u16-ne-nil : (n : ℕ) → show_u16 n ≢ []
unfolding show_u16
show_u16-ne-nil n = elim (dec_lt n 10) [
  | yes small ↦ rw (decimal_short 4 n small) (cc)
  | no large ↦
      rw (decimal_long 4 n (omega arith)) (append-ne-nil (decimal 4 (n / 10)) (b'0' + n % 10))
]

-- Every u16 is read back from its print.
pub parse_u16-show_u16 : (n : ℕ) → n < 65536 → parse_u16 (show_u16 n) ≡ some n
parse_u16-show_u16 n h =
    parse-digits (show_u16 n) n (show_u16-ne-nil n)
      (unfold show_u16 in u16_digits-decimal 4 n (omega arith) h)

pub read_port-show_u16 : (n : ℕ) → n < 65536 → read_port (some (show_u16 n)) ≡ ok (some n)
unfolding read_port
read_port-show_u16 n h = rw (parse_u16-show_u16 n h)
