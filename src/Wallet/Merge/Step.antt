-- ===== src/Wallet/Merge/Step.antt =====
-- One transaction of `calc_best_merge`: the loop's body always returns, in one of six ways.
use mathlib.Core.Path.{subst}
use mwc.Prelude.{
  ℕ, ◌+◌, ◌-◌, ◌%◌, ◌^◌, not, ◌∙◌, ◌≤◌, ◌<◌, ◌≡◌, ◌≢◌, refl, sym, inl, inr, Bool, true, false, ◌&&◌,
  List, [], ◌∷◌, ◌++◌, Option, none, some, length, get_elem?, ◌==◌, leb, ltb, Bool-cases, ok, arith,
  is_empty,
}
use mwc.Wallet.Ledger.{OutputData, TxLogEntry}
use mwc.Wallet.Merge.{
  Merge, push, last?, gap_follows, take_run, find_run, remove_run, cancelled_next, merge_step,
}
use mwc.Wallet.Merge.Runs.{total, Window, Found, find_run_lem, remove_run_lem}

last_some : (o : OutputData) (os : List OutputData) → (l : OutputData) × (last? (o ∷ os) ≡ some l)
last_some o [] = (o, refl)
last_some o (o2 ∷ os) = last_some o2 os

-- Whether child keys are missing between a run and the outputs that follow it, or none follows.
pub data Gap (run : List OutputData) : List OutputData → Bool → Type 0 where
  at_end : Gap run [] true
  before :
      (o last : OutputData) (os : List OutputData)
      → last? run ≡ some last
      → Gap run (o ∷ os) (ltb 1 ((o.n_child + 2 ^ 32 - last.n_child) % 2 ^ 32))

get_behind :
    (front rest : List OutputData) → get_elem? (front ++ rest) (length front) ≡ get_elem? rest 0
get_behind [] rest = refl
get_behind (o ∷ front) rest = get_behind front rest

gap_follows-Gap :
    (front rest run : List OutputData) (n : ℕ)
    → 0 < n
    → length run ≡ n
    → (b : Bool) × (gap_follows (front ++ rest) (length front) run ≡ ok b) × Gap run rest b
unfolding gap_follows
gap_follows-Gap front rest [] n pos h = absurd (omega arith)
gap_follows-Gap front [] (o ∷ os) n pos h =
    (true, rw (get_behind front [], gap_follows) refl, Gap.at_end)
gap_follows-Gap front (o2 ∷ rest) (o ∷ os) n pos h =
    let (l, e) = last_some o os in
    (_, rw (get_behind front (o2 ∷ rest), gap_follows, e) refl, Gap.before o2 l rest e)

-- What the search in the outputs that are left comes to.
data Taken (m : Merge) (tx : TxLogEntry) : Merge → Type 0 where
  too_few : length m.outputs < tx.num_outputs → Taken m tx m
  not_found :
      tx.num_outputs ≤ length m.outputs
      → ((j : ℕ) (w : Window m.outputs tx.num_outputs j) → total 0 w.run ≢ tx.amount_credited)
      → Taken m tx (push m tx [] false)
  dealt :
      (gap : Bool) (j : ℕ) (w : Window m.outputs tx.num_outputs j)
      → total 0 w.run ≡ tx.amount_credited
      → Gap w.run w.rest gap
      → Taken m tx
          (push (record m { outputs = w.front ++ w.rest; next_cancelled = gap }) tx w.run true)

remove-Window :
    (outputs : List OutputData) (n i : ℕ) (w : Window outputs n i)
    → remove_run outputs i n ≡ ok (w.run, w.front ++ w.rest)
remove-Window outputs n i w =
    let at = w.at in
    let long = w.long in
    subst (λ os. remove_run os i n ≡ ok (w.run, w.front ++ w.rest)) (sym w.split)
      (rw (← at, ← long) (remove_run_lem w.front w.run w.rest))

after_search :
    (m : Merge) (tx : TxLogEntry)
    → 0 < tx.num_outputs
    → leb tx.num_outputs (length m.outputs) ≡ true
    → (r : Option ℕ)
    → find_run m.outputs tx.num_outputs tx.amount_credited 0
        (length m.outputs - (tx.num_outputs - 1))
      ≡ ok r
    → Found m.outputs tx.num_outputs tx.amount_credited 0 r
    → (m' : Merge) × (take_run m tx ≡ ok m') × Taken m tx m'
unfolding take_run
after_search m tx pos enough none e (Found.nowhere none_at) =
    rw (enough, e) (_, refl, Taken.not_found (ground arith) (λ j w. none_at j w (omega arith)))
after_search m tx pos enough (some _) e (Found.at_window i w le sum) =
    let (b, gap, how) = gap_follows-Gap w.front w.rest w.run tx.num_outputs pos w.long in
    let at = w.at in
    rw (enough, e, remove-Window m.outputs tx.num_outputs i w, rw at at gap)
      (_, refl, Taken.dealt b i w sum how)

take_run_lem :
    (m : Merge) (tx : TxLogEntry)
    → 0 < tx.num_outputs
    → (m' : Merge) × (take_run m tx ≡ ok m') × Taken m tx m'
take_run_lem m tx pos = elim (Bool-cases (leb tx.num_outputs (length m.outputs))) [
  | inr short ↦ (m, unfold take_run in rw short refl, Taken.too_few (ground arith))
  | inl enough ↦
      let n = tx.num_outputs in
      let le : n ≤ length m.outputs = ground arith in
      let (r, e, found) =
        find_run_lem m.outputs n tx.amount_credited 0 (length m.outputs - (n - 1)) (omega arith) in
      after_search m tx pos enough r e found
]

is_empty→eq : {A : Type 0} (os : List A) → is_empty os ≡ true → os ≡ []
is_empty→eq [] h = refl
is_empty→eq (o ∷ os) h = cc

is_empty→cons :
    (os : List OutputData)
    → is_empty os ≡ false
    → (o : OutputData) × (rest : List OutputData) × (os ≡ o ∷ rest)
is_empty→cons [] h = cc
is_empty→cons (o ∷ rest) h = (o, rest, refl)

cons_ne : (o : OutputData) (os : List OutputData) → (o ∷ os) ≢ []
cons_ne o os h = cc

both_true : (a b : Bool) → (a && b) ≡ true → (a ≡ true) × (b ≡ true)
both_true true true h = (refl, refl)
both_true true false h = cc
both_true false b h = cc

module _ (is_cancelled : TxLogEntry → Bool) where
  -- The flag that a transaction is judged by: a cancelled one in front has outputs only if the first
  -- output has its amount; behind a row the flag is the one that was left.
  pub data Flagged (m : Merge) (tx : TxLogEntry) : Bool → Type 0 where
    in_front :
        (o : OutputData) (os : List OutputData)
        → is_cancelled tx ≡ true
        → m.res ≡ []
        → m.outputs ≡ o ∷ os
        → Flagged m tx (not (tx.amount_credited == o.value))
    behind : (is_cancelled tx && is_empty m.res) ≡ false → Flagged m tx m.next_cancelled

  -- How the loop's body ends for a transaction, with the outputs that are left and the flag.
  pub data Stepped (m : Merge) (tx : TxLogEntry) : Merge → Type 0 where
    no_outputs_left : m.outputs ≡ [] → Stepped m tx (push m tx [] false)
    needs_none : m.outputs ≢ [] → tx.num_outputs ≡ 0 → Stepped m tx (push m tx [] true)
    cancelled :
        m.outputs ≢ []
        → 0 < tx.num_outputs
        → is_cancelled tx ≡ true
        → Flagged m tx true
        → Stepped m tx (push (record m { next_cancelled = true }) tx [] true)
    too_few :
        (b : Bool)
        → Flagged m tx b
        → (is_cancelled tx && b) ≡ false
        → m.outputs ≢ []
        → length m.outputs < tx.num_outputs
        → Stepped m tx (record m { next_cancelled = b })
    not_found :
        (b : Bool)
        → Flagged m tx b
        → (is_cancelled tx && b) ≡ false
        → 0 < tx.num_outputs
        → tx.num_outputs ≤ length m.outputs
        → ((j : ℕ) (w : Window m.outputs tx.num_outputs j) → total 0 w.run ≢ tx.amount_credited)
        → Stepped m tx (push (record m { next_cancelled = b }) tx [] false)
    dealt :
        (b gap : Bool) (j : ℕ) (w : Window m.outputs tx.num_outputs j)
        → Flagged m tx b
        → (is_cancelled tx && b) ≡ false
        → 0 < tx.num_outputs
        → total 0 w.run ≡ tx.amount_credited
        → Gap w.run w.rest gap
        → Stepped m tx
            (push (record m { outputs = w.front ++ w.rest; next_cancelled = gap }) tx w.run true)

  cancelled_next-Flagged :
      (m : Merge) (tx : TxLogEntry) (o : OutputData) (rest : List OutputData)
      → m.outputs ≡ o ∷ rest
      → (b : Bool) × (cancelled_next is_cancelled m tx ≡ ok b) × Flagged m tx b
  unfolding cancelled_next
  cancelled_next-Flagged m tx o rest h = elim (Bool-cases (is_cancelled tx && is_empty m.res)) [
    | inl first ↦
        let (gone, new) = both_true _ _ first in
        (_, rw (first, h) refl, Flagged.in_front o rest gone (is_empty→eq m.res new) h)
    | inr other ↦ (m.next_cancelled, rw other refl, Flagged.behind other)
  ]

  with_flag :
      (m : Merge) (tx : TxLogEntry) (b : Bool) (m' : Merge)
      → Flagged m tx b
      → (is_cancelled tx && b) ≡ false
      → m.outputs ≢ []
      → 0 < tx.num_outputs
      → Taken (record m { next_cancelled = b }) tx m'
      → Stepped m tx m'
  with_flag m tx b _ f live left pos (Taken.too_few h) = Stepped.too_few b f live left h
  with_flag m tx b _ f live left pos (Taken.not_found enough h) =
      Stepped.not_found b f live pos enough h
  with_flag m tx b _ f live left pos (Taken.dealt gap j w sum h) =
      Stepped.dealt b gap j w f live pos sum h

  -- For every state and every transaction the loop's body returns, in one of the six ways of
  -- `Stepped`: without outputs; for a transaction that needs none; for a cancelled one that the flag
  -- leaves without outputs; with too few outputs; where no run of the outputs that are left has the
  -- amount of the transaction; or with a run of that amount. The flag is the one of `Flagged` and,
  -- behind a run, of `Gap`.
  pub merge_step-Stepped :
      (m : Merge) (tx : TxLogEntry)
      → (m' : Merge) × (merge_step is_cancelled m tx ≡ ok m') × Stepped m tx m'
  unfolding merge_step
  merge_step-Stepped m tx = elim (Bool-cases (is_empty m.outputs)) [
    | inl none_left ↦
        rw none_left (_, refl, Stepped.no_outputs_left (is_empty→eq m.outputs none_left))
    | inr left ↦
        let (o, rest, h) = is_empty→cons m.outputs left in
        let some_left : m.outputs ≢ [] = λ e. cons_ne o rest (sym h ∙ e) in
        elim (Bool-cases (tx.num_outputs == 0)) [
          | inl zero' ↦ rw (left, zero') (_, refl, Stepped.needs_none some_left (ground arith))
          | inr some' ↦
              let (b, next, f) = cancelled_next-Flagged m tx o rest h in
              let pos : ltb 0 tx.num_outputs ≡ true = ground arith in
              let more : 0 < tx.num_outputs = ground arith in
              elim (Bool-cases (is_cancelled tx && b)) [
                | inl gone ↦
                    let (gone', flag) = both_true _ _ gone in
                    (
                      _,
                      rw (left, some', next, gone) refl,
                      subst (λ c. Stepped m tx (push (record m { next_cancelled = c }) tx [] true))
                          (sym flag)
                          (Stepped.cancelled some_left more gone' (subst (Flagged m tx) flag f)),
                    )
                | inr live ↦
                    let (m', e, how) = take_run_lem (record m { next_cancelled = b }) tx more in
                    (
                      m',
                      rw (left, some', next, live, pos) e,
                      with_flag m tx b m' f live some_left more how,
                    )
              ]
        ]
  ]
