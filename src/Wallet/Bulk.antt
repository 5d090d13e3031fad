-- ===== src/Wallet/Bulk.antt =====
-- `txs_bulk_validate` of src/wallet/api/api.rs, up to its report: the transactions with their outputs
-- are looked up in the node's dumps, whose lines are given.
pub mod Gather
pub mod Mark
pub mod Spent
pub mod Sound
use mwc.Prelude.{
  ℕ, zero, suc, Bool, true, false, not, ◌&&◌, ◌||◌, List, [], ◌∷◌, ◌++◌, Option, none, some, length,
  get_elem?, set, filter, ◌==◌, if◌then◌else◌, is_empty, Bytes, codes, bytes_eq, Outcome, ok, panic,
  ◌>>=◌, unwrap,
}
use mwc.ErrorKind.{ErrorKind}
use mwc.Wallet.Ledger.{
  OutputData, TxLogEntry, TxType, is_type, confirmed_coinbase, tx_received, tx_sent,
  tx_received_cancelled, tx_sent_cancelled,
}
use mwc.Wallet.Merge.{Row, calc_best_merge}

pub record TransactionInfo : Type 0 where
  pub tx_log : TxLogEntry
  pub tx_kernels : List Bytes
  pub tx_outputs : List OutputData
  pub validated : Bool
  pub validation_flags : Bytes
  pub warnings : List Bytes

-- The variables of the loops. A map is a list of its insertions, the latest first.
pub record Bulk : Type 0 where
  pub txs : List TransactionInfo
  pub kernel_to_tx : List (Bytes × ℕ)
  pub output_to_tx : List (Bytes × ℕ)
  pub tx_id_to_tx : List (ℕ × ℕ)

abbrev pub nothing_yet : Bulk
nothing_yet = record { txs = []; kernel_to_tx = []; output_to_tx = []; tx_id_to_tx = [] }

abbrev pub find_line : List (Bytes × ℕ) → Bytes → Option ℕ
find_line [] line = none
find_line (e ∷ es) line = if bytes_eq e.0 line then some e.1 else find_line es line

abbrev pub find_id : List (ℕ × ℕ) → ℕ → Option ℕ
find_id [] id = none
find_id (e ∷ es) id = if e.0 == id then some e.1 else find_id es id

abbrev pub is_some : Option Bytes → Bool
is_some none = false
is_some (some b) = true

abbrev pub warn : Bool → Bytes → List Bytes
warn b text = if b then text ∷ [] else []

-- `for kernel in &tx_info.tx_kernels { kernel_to_tx.insert(..) }`
abbrev pub insert_kernels : List Bytes → ℕ → List (Bytes × ℕ) → List (Bytes × ℕ)
insert_kernels [] idx m = m
insert_kernels (k ∷ ks) idx m = insert_kernels ks idx ((k, idx) ∷ m)

-- `for out in &tx_info.tx_outputs { if let Some(commit) .. }`
abbrev pub insert_outputs : List OutputData → ℕ → List (Bytes × ℕ) → List (Bytes × ℕ)
insert_outputs [] idx m = m
insert_outputs (o ∷ os) idx m = elim o.commit [
  | none ↦ insert_outputs os idx m
  | some commit ↦ insert_outputs os idx ((commit, idx) ∷ m)
]

abbrev pub broken_outputs : List OutputData → List Bytes
broken_outputs [] = []
broken_outputs (o ∷ os) =
    warn (not (is_some o.commit)) (codes "Has Output without commit record") ++ broken_outputs os

-- `txs[*tx_idx].validated = true; txs[*tx_idx].validation_flags += flag`
pub mark : Bytes → ℕ → List TransactionInfo → Outcome ErrorKind (List TransactionInfo)
mark flag idx txs = do
  t ← unwrap (get_elem? txs idx)
  ok (set txs idx (record t { validated = true; validation_flags = t.validation_flags ++ flag }))

-- The pass over a dump's lines.
pub mark_lines :
    Bytes
    → List (Bytes × ℕ)
    → List Bytes
    → List TransactionInfo
    → Outcome ErrorKind (List TransactionInfo)
unfolding mark
mark_lines flag m [] txs = ok txs
mark_lines flag m (line ∷ lines) txs = do
  txs' ← elim (find_line m line) [ none ↦ ok txs | some idx ↦ mark flag idx txs ]
  mark_lines flag m lines txs'

abbrev pub is_send : TransactionInfo → Bool
is_send t = is_type t.tx_log.tx_type tx_sent || is_type t.tx_log.tx_type tx_sent_cancelled

-- `for out in &t.tx_outputs`: whether a send that is validated is named by an output.
pub is_spent : List TransactionInfo → List (ℕ × ℕ) → List OutputData → Bool → Outcome ErrorKind Bool
is_spent txs ids [] validated = ok validated
is_spent txs ids (out ∷ outs) validated = do
  next ← elim out.tx_log_entry [
    | none ↦ ok validated
    | some entry ↦ elim (find_id ids entry) [
      | none ↦ ok validated
      | some idx ↦ do
        info ← unwrap (get_elem? txs idx)
        ok (if is_send info && info.validated then true else validated)
    ]
  ]
  is_spent txs ids outs next

-- The body of `for i in 0..txs.len()`
pub spent_step : List (ℕ × ℕ) → ℕ → List TransactionInfo → Outcome ErrorKind (List TransactionInfo)
unfolding mark is_spent
spent_step ids i txs = do
  t ← unwrap (get_elem? txs i)
  if t.validated then ok txs else (do
    validated ← is_spent txs ids t.tx_outputs false
    if validated then mark (codes "S") i txs else ok txs)

-- The rounds from `i` on.
pub spent_pass :
    List (ℕ × ℕ) → ℕ → ℕ → List TransactionInfo → Outcome ErrorKind (List TransactionInfo)
unfolding spent_step
spent_pass ids i zero txs = ok txs
spent_pass ids i (suc rounds) txs = do
  txs' ← spent_step ids i txs
  spent_pass ids (suc i) rounds txs'

-- The two dumps and the spent outputs.
pub validate : Bulk → List Bytes → List Bytes → Outcome ErrorKind (List TransactionInfo)
unfolding mark_lines spent_pass
validate s kernels outputs = do
  by_kernel ← mark_lines (codes "K") s.kernel_to_tx kernels s.txs
  by_output ← mark_lines (codes "O") s.output_to_tx outputs by_kernel
  spent_pass s.tx_id_to_tx 0 (length by_output) by_output

-- The stored transactions (their kernels in hex, by slate id) and the hex printer are not under src/.
module _ (stored_kernels : Bytes → Option (List Bytes)) (to_hex : Bytes → Bytes) where
  -- The kernels of a transaction that is not received.
  pub kernels_of : TxLogEntry → List Bytes
  kernels_of tx =
      if not (is_type tx.tx_type tx_received) && not (is_type tx.tx_type tx_received_cancelled)
      then elim tx.tx_slate_id [
        | none ↦ []
        | some uuid ↦ elim (stored_kernels uuid) [ none ↦ [] | some kernels ↦ kernels ]
      ]
        ++ elim tx.kernel_excess [ none ↦ [] | some kernel ↦ to_hex kernel ∷ [] ]
      else []

  abbrev pub slate_missing : TxLogEntry → Bool
  slate_missing tx = elim tx.tx_slate_id [
    | none ↦ false
    | some uuid ↦ elim (stored_kernels uuid) [
      | none ↦ is_type tx.tx_type tx_sent
      | some kernels ↦ false
    ]
  ]

  -- A row of the merge as a `TransactionInfo`, with the warnings in their order.
  pub info_of : Row → TransactionInfo
  unfolding kernels_of
  info_of row =
      let tx = row.tx in
      let kernels = kernels_of tx in
      record {
        tx_log = tx;
        tx_kernels = kernels;
        tx_outputs = row.outputs;
        validated = false;
        validation_flags = [];
        warnings =
            warn (not row.success) (codes "Failed to descover outputs")
            ++ warn
                ((is_type tx.tx_type confirmed_coinbase || is_type tx.tx_type tx_received)
                  && (tx.num_outputs == 0))
                (codes "Tx Has no outputs")
            ++ warn
                (is_type tx.tx_type tx_sent
                  && not (is_some tx.tx_slate_id)
                  && not (is_some tx.kernel_excess))
                (codes "Transaction doesn't have UUID")
            ++ warn (slate_missing tx) (codes "Transaction slate not found")
            ++ warn (is_type tx.tx_type tx_sent && is_empty kernels) (codes "No Kernels found")
            ++ broken_outputs row.outputs;
      }

  -- The loop over the rows.
  pub gather : List Row → Bulk → Bulk
  unfolding info_of
  gather [] s = s
  gather (row ∷ rows) s =
      let info = info_of row in
      let idx = length s.txs in
      gather rows (record {
        txs = s.txs ++ info ∷ [];
        kernel_to_tx = insert_kernels info.tx_kernels idx s.kernel_to_tx;
        output_to_tx = insert_outputs info.tx_outputs idx s.output_to_tx;
        tx_id_to_tx = (info.tx_log.id, idx) ∷ s.tx_id_to_tx;
      })

  pub txs_bulk_validate :
      (is_cancelled : TxLogEntry → Bool) (parent_key_id : Bytes) (wallet_outputs : List OutputData)
      (wallet_transactions : List TxLogEntry) (kernels outputs : List Bytes)
      → Outcome ErrorKind (List TransactionInfo)
  unfolding gather validate
  txs_bulk_validate is_cancelled parent_key_id wallet_outputs wallet_transactions kernels outputs =
      do
        (rows, outstanding) ←
            calc_best_merge is_cancelled
              (filter (λ o. bytes_eq o.root_key_id parent_key_id && is_some o.commit)
                wallet_outputs)
              (filter (λ t. bytes_eq t.parent_key_id parent_key_id) wallet_transactions)
        validate (gather rows nothing_yet) kernels outputs
