-- ===== src/Broker/Grinbox/Backoff.antt =====
-- The waiting times of the MWCMQ listener (src/broker/grinbox.rs).
use native.Mathlib.Nat.{pow-suc}
use native.Mathlib.Decide.{dec_lt}
use mwc.Prelude.{
  ℕ, zero, suc, ◌+◌, ◌-◌, ◌%◌, ◌^◌, ◌<◌, ◌≤◌, ◌≡◌, refl, ap, sym, ◌∙◌, arith, ◌⊎◌, inl, inr, true,
  ◌==◌, all_below, all_below_sound, ==_iff, if◌then◌else◌, ltb,
}
use mwc.Broker.Grinbox.{backoff}

small_table : all_below 5 (λ r. backoff r == 2 ^ r) ≡ true
unfolding backoff
small_table = refl

large_table : all_below 64 (λ r. if◌then◌else◌ (ltb r 5) true (backoff r == 32)) ≡ true
unfolding backoff
large_table = refl

mid : (r : ℕ) → ¬ (r < 5) → (if ltb r 5 then true else backoff r == 32) ≡ true → backoff r ≡ 32
mid r h e = ground arith

wrapped_from : (k : ℕ) → 2 ^ (k + 64) % 2 ^ 64 ≡ 0
wrapped_from zero = refl
wrapped_from (suc k) =
    let e : suc k + 64 ≡ suc (k + 64) = omega arith in
    let twice : 2 ^ (suc k + 64) ≡ 2 ^ suc (k + 64) = ap (λ n. 2 ^ n) e in
    omega (arith, wrapped_from k, pow-suc 2 (k + 64), twice)

wrapped : (r : ℕ) → 64 ≤ r → 2 ^ r % 2 ^ 64 ≡ 0
wrapped r h =
    let e : r - 64 + 64 ≡ r = omega arith in
    ap (λ n. 2 ^ n % 2 ^ 64) (sym e) ∙ wrapped_from (r - 64)

-- The seconds that the listener waits for every number of retries: they double up to 16, stay at 32
-- from the fifth retry to the 63rd, and are 0 from the 64th on, where the power wraps around.
pub backoff_lem :
    (r : ℕ)
    → ((r < 5) × (backoff r ≡ 2 ^ r))
      ⊎ (((5 ≤ r) × (r < 64) × (backoff r ≡ 32)) ⊎ ((64 ≤ r) × (backoff r ≡ 0)))
unfolding backoff
backoff_lem r = elim (dec_lt r 5) [
  | yes small ↦
      inl (small, (==_iff _ _).0 (all_below_sound 5 (λ x. backoff x == 2 ^ x) r small_table small))
  | no large ↦ elim (dec_lt r 64) [
    | yes inside ↦ inr (
        inl (
          omega arith,
          inside,
          mid r large (
              all_below_sound 64 (λ x. if ltb x 5 then true else backoff x == 32) r large_table
                inside),
        ))
    | no outside ↦ inr (inr (omega arith, rw (wrapped r (omega arith)) refl))
  ]
]
