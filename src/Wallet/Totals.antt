-- ===== src/Wallet/Totals.antt =====
-- `total_value` and `output_count` of src/wallet/wallet.rs, on the outputs that the node library
-- retrieves. Whether an output may be spent is not decided under src/.
pub mod Listed
use mwc.Prelude.{
  ℕ, ◌+◌, ◌%◌, ◌^◌, Bool, true, false, List, [], ◌∷◌, Option, none, some, Bytes, bytes_eq,
  if◌then◌else◌, Outcome, ok, ◌>>=◌, unwrap,
}
use mwc.ErrorKind.{ErrorKind}
use mwc.Wallet.Ledger.{OutputData}

-- `ol.iter().any(|e| *e == commit_str)`
abbrev pub any_equal : List Bytes → Bytes → Bool
any_equal [] commit = false
any_equal (e ∷ es) commit = if bytes_eq e commit then true else any_equal es commit

-- Whether an output that may be spent counts: its commit is asked for only where a list is given.
pub counts : Option (List Bytes) → OutputData → Outcome ErrorKind Bool
counts none o = ok true
counts (some ol) o = do commit_str ← unwrap o.commit; ok (any_equal ol commit_str)

module _ (eligible_to_spend : OutputData → Bool) where
  -- The loops of `total_value`; the value is a u64.
  pub value_loop : Option (List Bytes) → List OutputData → ℕ → Outcome ErrorKind ℕ
  value_loop list [] value = ok value
  value_loop list (o ∷ os) value = do
    yes' ← (if eligible_to_spend o then counts list o else ok false)
    value_loop list os (if yes' then (value + o.value) % 2 ^ 64 else value)

  pub total_value : Option (List Bytes) → List OutputData → Outcome ErrorKind ℕ
  total_value list outputs = value_loop list outputs 0

  -- The loops of `output_count`
  pub count_loop : Option (List Bytes) → List OutputData → ℕ → Outcome ErrorKind ℕ
  count_loop list [] count = ok count
  count_loop list (o ∷ os) count = do
    yes' ← (if eligible_to_spend o then counts list o else ok false)
    count_loop list os (if yes' then count + 1 else count)

  pub output_count : Option (List Bytes) → List OutputData → Outcome ErrorKind ℕ
  output_count list outputs = count_loop list outputs 0
