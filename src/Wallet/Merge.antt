-- ===== src/Wallet/Merge.antt =====
-- `calc_best_merge` of src/wallet/api/api.rs: the wallet's outputs are dealt out to the transactions
-- that may have created them. Sums are of u64 and differences of u32, which wrap around.
pub mod Runs
pub mod Step
pub mod Deal
use mwc.Prelude.{
  ℕ, zero, suc, ◌+◌, ◌-◌, ◌%◌, ◌^◌, Bool, true, false, not, ◌&&◌, List, [], ◌∷◌, ◌++◌, Option, none,
  some, length, get_elem?, ltb, leb, ◌==◌, if◌then◌else◌, is_empty, Outcome, ok, panic, ◌>>=◌, ◌>>◌,
  unwrap,
}
use mwc.ErrorKind.{ErrorKind}
use mwc.Wallet.Ledger.{OutputData, TxLogEntry}

-- A row of the result: a transaction, the outputs found for it, and whether that went well.
pub record Row : Type 0 where
  pub tx : TxLogEntry
  pub outputs : List OutputData
  pub success : Bool

-- The variables of the loop over the transactions.
pub record Merge : Type 0 where
  pub outputs : List OutputData
  pub res : List Row
  pub next_cancelled : Bool

abbrev pub last? : List OutputData → Option OutputData
last? [] = none
last? (o ∷ []) = some o
last? (o ∷ o2 ∷ os) = last? (o2 ∷ os)

-- `VecDeque::remove`
abbrev pub remove : ℕ → List OutputData → Option (OutputData × List OutputData)
remove i [] = none
remove zero (o ∷ os) = some (o, os)
remove (suc i) (o ∷ os) = elim (remove i os) [
  | none ↦ none
  | some found ↦ some (found.0, o ∷ found.1)
]

-- `for k in 0..tx.num_outputs { amount += outputs[k+i].value; }`
unfoldable pub amount_at : List OutputData → ℕ → ℕ → ℕ → Outcome ErrorKind ℕ
amount_at outputs i zero amount = ok amount
amount_at outputs i (suc n) amount = do
  o ← unwrap (get_elem? outputs i)
  amount_at outputs (suc i) n ((amount + o.value) % 2 ^ 64)

-- `for _ in 0..tx.num_outputs { res_outs.push( outputs.remove(i).unwrap() ); }`
unfoldable pub remove_run :
    List OutputData → ℕ → ℕ → Outcome ErrorKind (List OutputData × List OutputData)
remove_run outputs i zero = ok ([], outputs)
remove_run outputs i (suc n) = do
  (o, left) ← unwrap (remove i outputs)
  (run, rest) ← remove_run left i n
  ok (o ∷ run, rest)

-- The first `i` of the loop whose run of outputs has the amount.
unfoldable pub find_run : List OutputData → ℕ → ℕ → ℕ → ℕ → Outcome ErrorKind (Option ℕ)
unfolding amount_at
find_run outputs n credited i zero = ok none
find_run outputs n credited i (suc rounds) = do
  amount ← amount_at outputs i n 0
  if amount == credited then ok (some i) else find_run outputs n credited (suc i) rounds

-- `next_canlelled` behind a run that is found: whether child keys are missing between the run and
-- the output that follows it.
unfoldable pub gap_follows : List OutputData → ℕ → List OutputData → Outcome ErrorKind Bool
gap_follows outputs i run = elim (get_elem? outputs i) [
  | none ↦ ok true
  | some o2 ↦ do
    last ← unwrap (last? run)
    ok (ltb 1 ((o2.n_child + 2 ^ 32 - last.n_child) % 2 ^ 32))
]

abbrev pub push : Merge → TxLogEntry → List OutputData → Bool → Merge
push m tx outputs success = record m {
  res = m.res ++ record { tx = tx; outputs = outputs; success = success } ∷ [];
}

-- The body of the loop behind `assert!(tx.num_outputs>0)`
unfoldable pub take_run : Merge → TxLogEntry → Outcome ErrorKind Merge
unfolding find_run remove_run gap_follows
take_run m tx =
    if leb tx.num_outputs (length m.outputs)
    then (do
      found ←
          find_run m.outputs tx.num_outputs tx.amount_credited 0
            (length m.outputs - (tx.num_outputs - 1))
      elim found [
        | none ↦ ok (push m tx [] false)
        | some i ↦ do
          (run, rest) ← remove_run m.outputs i tx.num_outputs
          next_cancelled ← gap_follows rest i run
          ok (push (record m { outputs = rest; next_cancelled = next_cancelled }) tx run true)
      ])
    else ok m

module _ (is_cancelled : TxLogEntry → Bool) where
  -- The first row decides whether a cancelled transaction may have outputs.
  unfoldable pub cancelled_next : Merge → TxLogEntry → Outcome ErrorKind Bool
  cancelled_next m tx =
      if is_cancelled tx && is_empty m.res
      then (do front ← unwrap (get_elem? m.outputs 0); ok (not (tx.amount_credited == front.value)))
      else ok m.next_cancelled

  -- The body of the loop over the transactions.
  unfoldable pub merge_step : Merge → TxLogEntry → Outcome ErrorKind Merge
  unfolding cancelled_next take_run
  merge_step m tx =
      if is_empty m.outputs
      then ok (push m tx [] false)
      else if tx.num_outputs == 0
      then ok (push m tx [] true)
      else (do
        next ← cancelled_next m tx
        let m' : Merge = record m { next_cancelled = next }
        if is_cancelled tx && next
            then ok (push m' tx [] true)
            else if ltb 0 tx.num_outputs
            then take_run m' tx
            else panic)

  unfoldable pub merge_loop : Merge → List TxLogEntry → Outcome ErrorKind Merge
  unfolding merge_step
  merge_loop m [] = ok m
  merge_loop m (tx ∷ txs) = do m' ← merge_step m tx; merge_loop m' txs

  unfoldable pub calc_best_merge :
      List OutputData → List TxLogEntry → Outcome ErrorKind (List Row × List OutputData)
  unfolding merge_loop
  calc_best_merge outputs transactions = do
    m ← merge_loop (record { outputs = outputs; res = []; next_cancelled = true }) transactions
    ok (m.res, m.outputs)
