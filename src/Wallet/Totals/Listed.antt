-- ===== src/Wallet/Totals/Listed.antt =====
-- The totals of a list of outputs (src/wallet/wallet.rs).
use mwc.Prelude.{
  ℕ, suc, ◌+◌, ◌%◌, ◌^◌, ◌<◌, ◌≡◌, ◌≢◌, refl, ap, ◌∙◌, inl, inr, Bool, true, false, Bool-cases,
  Option-cases, List, [], ◌∷◌, none, some, Bytes, length, filter, All, ok, arith,
}
use mwc.Wallet.Ledger.{OutputData}
use mwc.Wallet.Totals.{any_equal, counts, value_loop, total_value, count_loop, output_count}

-- Whether the output's commit is on the list.
abbrev pub listed : List Bytes → OutputData → Bool
listed ol o = elim o.commit [ none ↦ false | some commit ↦ any_equal ol commit ]

abbrev pub HasCommit : OutputData → Type 0
HasCommit o = o.commit ≢ none

abbrev pub sum_of : List OutputData → ℕ
sum_of [] = 0
sum_of (o ∷ os) = o.value + sum_of os

counts-listed :
    (ol : List Bytes) (o : OutputData) → HasCommit o → counts (some ol) o ≡ ok (listed ol o)
unfolding counts
counts-listed ol o h = elim (Option-cases o.commit) [
  | inl broken ↦ absurd (h broken)
  | inr (commit, has) ↦ rw has refl
]

counts_all : (o : OutputData) → counts none o ≡ ok true
unfolding counts
counts_all o = refl

module _ (eligible_to_spend : OutputData → Bool) where
  value_listed :
      (ol : List Bytes) (os : List OutputData) (value : ℕ)
      → All HasCommit os
      → value_loop eligible_to_spend (some ol) os value
        ≡ value_loop eligible_to_spend none (filter (listed ol) os) value
  unfolding value_loop
  value_listed ol [] value h = refl
  value_listed ol (o ∷ os) value h = elim (Bool-cases (eligible_to_spend o)) [
    | inr no' ↦ elim (Bool-cases (listed ol o)) [
      | inl on' ↦ rw (no', on', no') (value_listed ol os value h.1)
      | inr off ↦ rw (no', off) (value_listed ol os value h.1)
    ]
    | inl yes' ↦ elim (Bool-cases (listed ol o)) [
      | inl on' ↦
          rw (yes', counts-listed ol o h.0, on', yes', counts_all o)
            (value_listed ol os ((value + o.value) % 2 ^ 64) h.1)
      | inr off ↦ rw (yes', counts-listed ol o h.0, off) (value_listed ol os value h.1)
    ]
  ]

  count_listed :
      (ol : List Bytes) (os : List OutputData) (n : ℕ)
      → All HasCommit os
      → count_loop eligible_to_spend (some ol) os n
        ≡ count_loop eligible_to_spend none (filter (listed ol) os) n
  unfolding count_loop
  count_listed ol [] n h = refl
  count_listed ol (o ∷ os) n h = elim (Bool-cases (eligible_to_spend o)) [
    | inr no' ↦ elim (Bool-cases (listed ol o)) [
      | inl on' ↦ rw (no', on', no') (count_listed ol os n h.1)
      | inr off ↦ rw (no', off) (count_listed ol os n h.1)
    ]
    | inl yes' ↦ elim (Bool-cases (listed ol o)) [
      | inl on' ↦
          rw (yes', counts-listed ol o h.0, on', yes', counts_all o)
            (count_listed ol os (n + 1) h.1)
      | inr off ↦ rw (yes', counts-listed ol o h.0, off) (count_listed ol os n h.1)
    ]
  ]

  count_all :
      (os : List OutputData) (n : ℕ)
      → count_loop eligible_to_spend none os n ≡ ok (n + length (filter eligible_to_spend os))
  unfolding count_loop
  count_all [] n = ap (λ (m : ℕ). ok m) (let e : n ≡ n + 0 = omega arith in e)
  count_all (o ∷ os) n = elim (Bool-cases (eligible_to_spend o)) [
    | inr no' ↦ rw no' (count_all os n)
    | inl yes' ↦
        let k = length (filter eligible_to_spend os) in
        let e : n + 1 + k ≡ n + suc k = omega arith in
        rw (yes', counts_all o) (count_all os (n + 1) ∙ ap (λ (m : ℕ). ok m) e)
  ]

  -- The modulus stays outside of a sum of u64 values.
  value_all :
      (os : List OutputData) (value : ℕ)
      → value < 2 ^ 64
      → value_loop eligible_to_spend none os value
        ≡ ok ((value + sum_of (filter eligible_to_spend os)) % 2 ^ 64)
  unfolding value_loop
  value_all [] value h =
      ap (λ (m : ℕ). ok m) (let e : value ≡ (value + 0) % 2 ^ 64 = omega arith in e)
  value_all (o ∷ os) value h = elim (Bool-cases (eligible_to_spend o)) [
    | inr no' ↦ rw no' (value_all os value h)
    | inl yes' ↦
        let k = sum_of (filter eligible_to_spend os) in
        let e : ((value + o.value) % 2 ^ 64 + k) % 2 ^ 64 ≡ (value + (o.value + k)) % 2 ^ 64 =
          omega arith in
        rw (yes', counts_all o)
          (value_all os ((value + o.value) % 2 ^ 64) (omega arith) ∙ ap (λ (m : ℕ). ok m) e)
  ]

  -- Where every output has a commit, the totals over a list of commits return: the value is the sum, as
  -- a u64, of the outputs that may be spent and are on the list, and the count is their number.
  pub totals_listed :
      (ol : List Bytes) (os : List OutputData)
      → All HasCommit os
      → (total_value eligible_to_spend (some ol) os
          ≡ ok (sum_of (filter eligible_to_spend (filter (listed ol) os)) % 2 ^ 64))
        × (output_count eligible_to_spend (some ol) os
            ≡ ok (length (filter eligible_to_spend (filter (listed ol) os))))
  unfolding total_value output_count
  totals_listed ol os h = (
    value_listed ol os 0 h
        ∙ value_all (filter (listed ol) os) 0 (omega arith)
        ∙ ap (λ (m : ℕ). ok m)
            (let e : (0 + sum_of (filter eligible_to_spend (filter (listed ol) os))) % 2 ^ 64
                  ≡ sum_of (filter eligible_to_spend (filter (listed ol) os)) % 2 ^ 64 =
                omega arith in
              e),
    count_listed ol os 0 h
        ∙ count_all (filter (listed ol) os) 0
        ∙ ap (λ (m : ℕ). ok m)
            (let e : 0 + length (filter eligible_to_spend (filter (listed ol) os))
                  ≡ length (filter eligible_to_spend (filter (listed ol) os)) =
                omega arith in
              e),
  )
