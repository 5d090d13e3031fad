-- ===== src/Codec/Base58/Size.antt =====
-- The buffer size of `to_base58` in src/common/base58.rs, 138 digits for 100 bytes and one more,
-- is enough for every length.
use native.Mathlib.Nat.{pow-suc, pow-zero, mul_comm}
use mathlib.Core.Path.{subst₂}
use mwc.Prelude.{
  ℕ, zero, suc, ◌+◌, ◌*◌, ◌/◌, ◌%◌, ◌^◌, ◌≤◌, ◌≡◌, refl, ap, sym, ◌∙◌, Bool, true, List, [], ◌∷◌,
  arith, leb, length, all_below, all_below_sound,
}
use mwc.Codec.Base58.Value.{scale}

pub scale-pow : (b : ℕ) (xs : List ℕ) → scale b xs ≡ b ^ length xs
scale-pow b [] = sym (pow-zero b)
scale-pow b (x ∷ xs) =
    ap (λ k. b * k) (scale-pow b xs) ∙ mul_comm b (b ^ length xs) ∙ sym (pow-suc b (length xs))

pow-add : (b m n : ℕ) → b ^ (m + n) ≡ b ^ m * b ^ n
pow-add b m zero = let e : m + 0 ≡ m = omega arith in rw (e, pow-zero) (omega arith)
pow-add b m (suc n) =
    let e : m + suc n ≡ suc (m + n) = omega arith in
    rw (e, pow-suc b (m + n), pow-suc b n, pow-add b m n) (omega arith)

leb→le : (a b : ℕ) → leb a b ≡ true → a ≤ b
leb→le a b h = ground arith

abbrev fits : ℕ → ℕ → Bool
fits k r = leb (256 ^ r) (k * 58 ^ (r * 138 / 100))

first_table : all_below 50 (fits 58) ≡ true
first_table = refl

second_table : all_below 50 (fits 256) ≡ true
second_table = refl

pub mul_mono : (a b c d : ℕ) → a ≤ b → c ≤ d → a * c ≤ b * d
mul_mono a b c d h k = grind arith

-- Fifty bytes more want at most 69 digits more.
fifty : 256 ^ 50 ≤ 58 ^ 69
fifty = omega arith

regroup : (a b c d k : ℕ) → a ≤ b → c ≤ k * d → a * c ≤ k * (b * d)
regroup a b c d k h l = omega (arith, mul_mono a b c (k * d) h l)

periodic : (k r m : ℕ) → 256 ^ r ≤ k * 58 ^ m → (q : ℕ) → 256 ^ (50 * q + r) ≤ k * 58 ^ (69 * q + m)
periodic k r m h zero =
    let e : 50 * 0 + r ≡ r = omega arith in let f : 69 * 0 + m ≡ m = omega arith in rw (e, f) h
periodic k r m h (suc q) =
    let e : 50 * suc q + r ≡ 50 + (50 * q + r) = omega arith in
    let f : 69 * suc q + m ≡ 69 + (69 * q + m) = omega arith in
    rw (e, f, pow-add 256 50 (50 * q + r), pow-add 58 69 (69 * q + m))
      (regroup (256 ^ 50) (58 ^ 69) (256 ^ (50 * q + r)) (58 ^ (69 * q + m)) k fifty
        (periodic k r m h q))

-- The number of whole periods and the rest of them.
periods : (n : ℕ) → 50 * (n / 50) + n % 50 ≡ n
periods n = omega arith

digits_needed : (n : ℕ) → 69 * (n / 50) + n % 50 * 138 / 100 ≡ n * 138 / 100
digits_needed n = omega arith

-- All bytes fit the buffer.
pub bytes_fit : (n : ℕ) → 256 ^ n ≤ 58 * 58 ^ (n * 138 / 100)
bytes_fit n =
    subst₂ (λ k l. 256 ^ k ≤ 58 * 58 ^ l) (periods n) (digits_needed n)
      (periodic 58 (n % 50) (n % 50 * 138 / 100)
        (leb→le _ _ (all_below_sound 50 (fits 58) (n % 50) first_table (omega arith))) (n / 50))

-- All bytes but one leave the first cell of the buffer free.
pub all_but_one_fit : (n : ℕ) → 256 ^ n ≤ 256 * 58 ^ (n * 138 / 100)
all_but_one_fit n =
    subst₂ (λ k l. 256 ^ k ≤ 256 * 58 ^ l) (periods n) (digits_needed n)
      (periodic 256 (n % 50) (n % 50 * 138 / 100)
        (leb→le _ _ (all_below_sound 50 (fits 256) (n % 50) second_table (omega arith))) (n / 50))
