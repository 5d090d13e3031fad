-- ===== src/Wallet/Tests.antt =====
-- The merge and the validation on a small wallet.
use mwc.Prelude.{
  ℕ, ◌≡◌, refl, Bool, true, false, List, [], ◌∷◌, Option, none, some, Bytes, codes, filter, ok, ◌%◌,
  ◌^◌, ◌++◌, length, get_elem?,
}
use mwc.Wallet.Ledger.{OutputData, TxLogEntry, tx_received}
use mwc.Wallet.Merge.{
  Row, Merge, merge_step, merge_loop, calc_best_merge, take_run, find_run, amount_at, remove_run,
  gap_follows, cancelled_next,
}
use mwc.Wallet.Merge.Step.{Stepped, merge_step-Stepped}
use mwc.Wallet.Merge.Deal.{Dealt, calc_best_merge-Dealt}
use mwc.Wallet.Totals.{total_value, output_count}
use mwc.Wallet.Totals.Listed.{sum_of, listed, totals_listed}
use mwc.Wallet.Scan.{ChainOutput, PubKeyInfo, scan_page, scan_keys, scan_outputs}
use mwc.Wallet.Scan.Complete.{serve, scan_outputs-serve}

abbrev output_of : ℕ → ℕ → Bytes → OutputData
output_of value n_child commit = record {
  root_key_id = codes "m";
  value = value;
  n_child = n_child;
  commit = some commit;
  tx_log_entry = some 1;
}

abbrev received : ℕ → ℕ → ℕ → TxLogEntry
received id count amount = record {
  parent_key_id = codes "m";
  id = id;
  tx_type = tx_received;
  num_outputs = count;
  amount_credited = amount;
  tx_slate_id = none;
  kernel_excess = none;
}

abbrev outputs : List OutputData
outputs = output_of 5 0 (codes "a") ∷ output_of 2 1 (codes "b") ∷ output_of 3 2 (codes "c") ∷ []

abbrev transactions : List TxLogEntry
transactions = received 0 2 5 ∷ received 1 1 9 ∷ []

abbrev never : TxLogEntry → Bool
never t = false

-- The second and the third output are dealt to the first transaction; nothing is found for the other.
dealt :
    calc_best_merge never outputs transactions
    ≡ ok (
      record {
        tx = received 0 2 5;
        outputs = output_of 2 1 (codes "b") ∷ output_of 3 2 (codes "c") ∷ [];
        success = true;
      }
          ∷ record { tx = received 1 1 9; outputs = []; success = false }
          ∷ [],
      output_of 5 0 (codes "a") ∷ [],
    )
unfolding calc_best_merge merge_loop merge_step take_run find_run amount_at remove_run gap_follows
    cancelled_next
dealt = refl

abbrev start : Merge
start = record { outputs = outputs; res = []; next_cancelled = true }

-- A transaction that counts more outputs than are left has no row at all.
dropped : calc_best_merge never outputs (received 7 4 1 ∷ []) ≡ ok ([], outputs)
unfolding calc_best_merge merge_loop merge_step take_run cancelled_next
dropped = refl

calc_best_merge-Dealt_example :
    (rows : List Row) × (rest : List OutputData) × (calc_best_merge never outputs transactions
      ≡ ok (rows, rest))
    × Dealt outputs rows rest
calc_best_merge-Dealt_example = calc_best_merge-Dealt never outputs transactions

merge_step-Stepped_example :
    (m' : Merge) × (merge_step never start (received 0 2 5) ≡ ok m')
    × Stepped never start (received 0 2 5) m'
merge_step-Stepped_example = merge_step-Stepped never start (received 0 2 5)

abbrev no_slates : Bytes → Option (List Bytes)
no_slates uuid = none

abbrev plain_hex : Bytes → Bytes
plain_hex s = s

abbrev any : OutputData → Bool
any o = true

totals_listed_example :
    (total_value any (some (codes "a" ∷ codes "c" ∷ [])) outputs
      ≡ ok (sum_of (filter any (filter (listed (codes "a" ∷ codes "c" ∷ [])) outputs)) % 2 ^ 64))
    × (output_count any (some (codes "a" ∷ codes "c" ∷ [])) outputs
        ≡ ok (length (filter any (filter (listed (codes "a" ∷ codes "c" ∷ [])) outputs))))
totals_listed_example = totals_listed any (codes "a" ∷ codes "c" ∷ []) outputs (cc, (cc, (cc, tt)))

abbrev chain : List ChainOutput
chain =
    record { commit = codes "x"; proof = 5 ∷ []; height = 1; mmr_index = 1 }
    ∷ record { commit = codes "y"; proof = []; height = 2; mmr_index = 2 }
    ∷ []

abbrev key : PubKeyInfo
key = record { pub_key_hex = codes "02"; rewind_hash = codes "h" }

abbrev nonce_of : Bytes → Bytes → Option Bytes
nonce_of commit hash = some (commit ++ hash)

-- A proof that starts with a value is rewound to it.
abbrev rewind : Bytes → Bytes → Bytes → Option ℕ
rewind commit nonce proof = get_elem? proof 0

scan_outputs-serve_example :
    scan_outputs nonce_of rewind (codes "error") (serve chain) (key ∷ []) 3
    ≡ scan_page nonce_of rewind (codes "error") (key ∷ []) chain
scan_outputs-serve_example = scan_outputs-serve nonce_of rewind (codes "error") chain (key ∷ [])

first_found :
    scan_page nonce_of rewind (codes "error") (key ∷ []) chain
    ≡ ok (
        record {
          pub_key_hex = codes "02";
          commit = codes "x";
          amount = 5;
          height = 1;
          mmr_index = 1;
        }
        ∷ [])
unfolding scan_page scan_keys
first_found = refl
