-- ===== src/Wallet/Merge/Deal.antt =====
-- The result of `calc_best_merge`: no output is lost or dealt twice, and the runs have the amounts.
use mathlib.Core.List.{Perm, perm_append_comm}
use mathlib.Core.List.Perm
use mathlib.Core.Path.{subst}
use mwc.Prelude.{
  ℕ, ◌≡◌, refl, ap, sym, ◌∙◌, ◌⊎◌, inl, inr, Bool, true, false, List, [], ◌∷◌, ◌++◌, append_assoc,
  append-nil, length, ok, All, All-append,
}
use mwc.Wallet.Ledger.{OutputData, TxLogEntry}
use mwc.Wallet.Merge.{Merge, Row, merge_loop, calc_best_merge}
use mwc.Wallet.Merge.Runs.{total, Window}
use mwc.Wallet.Merge.Step.{Stepped, merge_step-Stepped}

-- The outputs of all rows.
abbrev pub dealt_outputs : List Row → List OutputData
dealt_outputs [] = []
dealt_outputs (r ∷ rs) = r.outputs ++ dealt_outputs rs

-- A row has no outputs, or as many as its transaction, with its amount.
pub RowFits : Row → Type 0
RowFits r =
    (r.outputs ≡ [])
    ⊎ ((r.success ≡ true)
        × (length r.outputs ≡ r.tx.num_outputs)
        × (total 0 r.outputs ≡ r.tx.amount_credited))

pub record Dealt (outputs : List OutputData) (rows : List Row) (rest : List OutputData)
    : Type 0 where
  pub conserved : Perm outputs (dealt_outputs rows ++ rest)
  pub fits : All RowFits rows

dealt-append :
    (rows : List Row) (r : Row) → dealt_outputs (rows ++ r ∷ []) ≡ dealt_outputs rows ++ r.outputs
dealt-append [] r = append-nil r.outputs
dealt-append (x ∷ rows) r =
    ap (λ t. x.outputs ++ t) (dealt-append rows r)
    ∙ sym (append_assoc x.outputs (dealt_outputs rows) r.outputs)

-- A row without outputs changes nothing.
empty_row :
    (outputs : List OutputData) (m : Merge) (tx : TxLogEntry) (success : Bool)
    → Dealt outputs m.res m.outputs
    → Dealt outputs (m.res ++ record { tx = tx; outputs = []; success = success } ∷ []) m.outputs
unfolding RowFits
empty_row outputs m tx success d = record {
  conserved =
      subst (λ os. Perm outputs (os ++ m.outputs))
        (sym (dealt-append m.res _ ∙ append-nil (dealt_outputs m.res))) d.conserved;
  fits = All-append RowFits m.res _ d.fits (inl refl, tt);
}

move_run :
    (front run rest : List OutputData) → Perm (front ++ (run ++ rest)) (run ++ (front ++ rest))
move_run front run rest =
    subst (λ os. Perm os (run ++ (front ++ rest))) (append_assoc front run rest)
      (subst (λ os. Perm ((front ++ run) ++ rest) os) (append_assoc run front rest)
        (Perm.append_right rest (perm_append_comm front run)))

run_row :
    (outputs : List OutputData) (m : Merge) (tx : TxLogEntry) (j : ℕ)
    (w : Window m.outputs tx.num_outputs j)
    → total 0 w.run ≡ tx.amount_credited
    → Dealt outputs m.res m.outputs
    → Dealt outputs
        (m.res ++ record { tx = tx; outputs = w.run; success = true } ∷ [])
        (w.front ++ w.rest)
unfolding RowFits
run_row outputs m tx j w sum d = record {
  conserved =
      let before = dealt_outputs m.res in
      let split = subst (λ os. Perm outputs (before ++ os)) w.split d.conserved in
      let moved = Perm.trans split (Perm.append_left before (move_run w.front w.run w.rest)) in
      subst (λ os. Perm outputs (os ++ (w.front ++ w.rest))) (sym (dealt-append m.res _))
        (subst (λ os. Perm outputs os) (sym (append_assoc before w.run (w.front ++ w.rest))) moved);
  fits = All-append RowFits m.res _ d.fits (inr (refl, w.long, sum), tt);
}

module _ (is_cancelled : TxLogEntry → Bool) where
  step_deals :
      (outputs : List OutputData) (m : Merge) (tx : TxLogEntry) (m' : Merge)
      → Stepped is_cancelled m tx m'
      → Dealt outputs m.res m.outputs
      → Dealt outputs m'.res m'.outputs
  step_deals outputs m tx _ (Stepped.no_outputs_left h) d = empty_row outputs m tx false d
  step_deals outputs m tx _ (Stepped.needs_none l h) d = empty_row outputs m tx true d
  step_deals outputs m tx _ (Stepped.cancelled l p g f) d = empty_row outputs m tx true d
  step_deals outputs m tx _ (Stepped.too_few b f g l h) d = d
  step_deals outputs m tx _ (Stepped.not_found b f g p e h) d = empty_row outputs m tx false d
  step_deals outputs m tx _ (Stepped.dealt b gap j w f g p sum h) d = run_row outputs m tx j w sum d

  loop_deals :
      (outputs : List OutputData) (m : Merge) (txs : List TxLogEntry)
      → Dealt outputs m.res m.outputs
      → (m' : Merge) × (merge_loop is_cancelled m txs ≡ ok m') × Dealt outputs m'.res m'.outputs
  unfolding merge_loop
  loop_deals outputs m [] d = (m, refl, d)
  loop_deals outputs m (tx ∷ txs) d =
      let (m1, e, how) = merge_step-Stepped is_cancelled m tx in
      let (m2, e2, d2) = loop_deals outputs m1 txs (step_deals outputs m tx m1 how d) in
      (m2, rw (e) e2, d2)

  -- For all outputs and all transactions `calc_best_merge` returns without a panic. The outputs of the
  -- rows and those left over are together the outputs given, each as often; a row has no outputs, or
  -- it is a success with as many as its transaction counts, which sum up to its amount as a u64.
  pub calc_best_merge-Dealt :
      (outputs : List OutputData) (transactions : List TxLogEntry)
      → (rows : List Row) × (rest : List OutputData) × (calc_best_merge is_cancelled outputs
            transactions
          ≡ ok (rows, rest))
        × Dealt outputs rows rest
  unfolding calc_best_merge
  calc_best_merge-Dealt outputs transactions =
      let (m, e, d) =
        loop_deals outputs (record { outputs = outputs; res = []; next_cancelled = true })
          transactions (record { conserved = Perm.refl outputs; fits = tt }) in
      (m.res, m.outputs, rw e refl, d)
