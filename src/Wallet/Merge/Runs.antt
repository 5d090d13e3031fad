-- ===== src/Wallet/Merge/Runs.antt =====
-- The searches of `calc_best_merge`: runs of outputs, their amounts, and their removal.
use mathlib.Core.Path.{subst}
use mathlib.Core.Bool.{false≢true}
use native.Mathlib.Decide.{dec_lt}
use mwc.Prelude.{
  ℕ, zero, suc, ◌+◌, ◌-◌, ◌%◌, ◌^◌, ◌≤◌, ◌≡◌, ◌≢◌, refl, ap, sym, ◌∙◌, inl, inr, List, [], ◌∷◌,
  ◌++◌, append_assoc, Option, none, some, length, get_elem?, take, drop, take-append-drop,
  length-append, ◌==◌, ==_iff, Bool-cases, Outcome, ok, arith,
}
use mwc.ErrorKind.{ErrorKind}
use mwc.Wallet.Ledger.{OutputData}
use mwc.Wallet.Merge.{remove, remove_run, amount_at, find_run}

-- The amount of a run, wrapped around as a u64.
abbrev pub total : ℕ → List OutputData → ℕ
total amount [] = amount
total amount (o ∷ os) = total ((amount + o.value) % 2 ^ 64) os

-- The outputs are a front, a run and the rest.
pub record Window (outputs : List OutputData) (n : ℕ) (i : ℕ) : Type 0 where
  pub front : List OutputData
  pub run : List OutputData
  pub rest : List OutputData
  pub split : outputs ≡ front ++ (run ++ rest)
  pub at : length front ≡ i
  pub long : length run ≡ n

length-take_le : (n : ℕ) (os : List OutputData) → n ≤ length os → length (take n os) ≡ n
length-take_le zero os h = refl
length-take_le (suc n) [] h = absurd (omega arith)
length-take_le (suc n) (o ∷ os) h = ap suc (length-take_le n os (omega arith))

length-drop_le : (n : ℕ) (os : List OutputData) → length (drop n os) ≡ length os - n
length-drop_le zero os = omega arith
length-drop_le (suc n) [] = omega arith
length-drop_le (suc n) (o ∷ os) = omega (arith, length-drop_le n os)

pub Window-at : (outputs : List OutputData) (n i : ℕ) → i + n ≤ length outputs → Window outputs n i
Window-at outputs n i h = record {
  front = take i outputs;
  run = take n (drop i outputs);
  rest = drop n (drop i outputs);
  split = sym (
      ap (λ t. take i outputs ++ t) (take-append-drop n (drop i outputs))
      ∙ take-append-drop i outputs);
  at = length-take_le i outputs (omega arith);
  long = length-take_le n (drop i outputs) (omega (arith, length-drop_le i outputs));
}

remove_front :
    (front : List OutputData) (o : OutputData) (rest : List OutputData)
    → remove (length front) (front ++ o ∷ rest) ≡ some (o, front ++ rest)
remove_front [] o rest = refl
remove_front (x ∷ front) o rest = rw (remove_front front o rest)

get_front :
    (front : List OutputData) (o : OutputData) (rest : List OutputData)
    → get_elem? (front ++ o ∷ rest) (length front) ≡ some o
get_front [] o rest = refl
get_front (x ∷ front) o rest = get_front front o rest

pub remove_run_lem :
    (front run rest : List OutputData)
    → remove_run (front ++ (run ++ rest)) (length front) (length run) ≡ ok (run, front ++ rest)
unfolding remove_run
remove_run_lem front [] rest = refl
remove_run_lem front (o ∷ run) rest =
    rw (remove_front front o (run ++ rest), remove_run_lem front run rest)

pub amount_at_lem :
    (front run rest : List OutputData) (amount : ℕ)
    → amount_at (front ++ (run ++ rest)) (length front) (length run) amount ≡ ok (total amount run)
unfolding amount_at
amount_at_lem front [] rest amount = refl
amount_at_lem front (o ∷ run) rest amount =
    let ih = amount_at_lem (front ++ o ∷ []) run rest ((amount + o.value) % 2 ^ 64) in
    let next : length (front ++ o ∷ []) ≡ suc (length front) =
      omega (arith, length-append front (o ∷ [])) in
    let same : (front ++ o ∷ []) ++ (run ++ rest) ≡ front ++ o ∷ (run ++ rest) =
      append_assoc front (o ∷ []) (run ++ rest) in
    let value = (amount + o.value) % 2 ^ 64 in
    let moved =
      subst
        (λ i.
          amount_at ((front ++ o ∷ []) ++ (run ++ rest)) i (length run) value
          ≡ ok (total value run))
        next ih in
    rw (get_front front o (run ++ rest)) (
      subst (λ os. amount_at os (suc (length front)) (length run) value ≡ ok (total value run)) same
        moved)

-- What the search gives, where runs from `i` on are tried.
pub data Found (outputs : List OutputData) (n credited i : ℕ) : Option ℕ → Type 0 where
  at_window :
      (j : ℕ) (w : Window outputs n j)
      → i ≤ j
      → total 0 w.run ≡ credited
      → Found outputs n credited i (some j)
  nowhere :
      ((j : ℕ) (w : Window outputs n j) → i ≤ j → total 0 w.run ≢ credited)
      → Found outputs n credited i none

amount_at-Window :
    (outputs : List OutputData) (n i : ℕ) (w : Window outputs n i)
    → amount_at outputs i n 0 ≡ ok (total 0 w.run)
amount_at-Window outputs n i w =
    let at = w.at in
    let long = w.long in
    let split = w.split in
    subst (λ os. amount_at os i n 0 ≡ ok (total 0 w.run)) (sym split)
      (rw (← at, ← long) (amount_at_lem w.front w.run w.rest 0))

Window-fits : (outputs : List OutputData) (n i : ℕ) → Window outputs n i → i + n ≤ length outputs
Window-fits outputs n i w =
    let whole = ap length w.split in
    omega (
      arith,
      whole,
      w.at,
      w.long,
      length-append w.front (w.run ++ w.rest),
      length-append w.run w.rest,
    )

abbrev ok_count : ℕ → Outcome ErrorKind ℕ
ok_count n = ok n

ok_injective : (a b : ℕ) → ok_count a ≡ ok_count b → a ≡ b
ok_injective a b h = cc

total_unique :
    (outputs : List OutputData) (n i : ℕ) (w v : Window outputs n i) → total 0 w.run ≡ total 0 v.run
total_unique outputs n i w v =
    ok_injective _ _ (sym (amount_at-Window outputs n i w) ∙ amount_at-Window outputs n i v)

later :
    (outputs : List OutputData) (n credited i : ℕ) (r : Option ℕ)
    → ((w : Window outputs n i) → total 0 w.run ≢ credited)
    → Found outputs n credited (suc i) r
    → Found outputs n credited i r
later outputs n credited i r here (Found.at_window j w le e) = Found.at_window j w (omega arith) e
later outputs n credited i r here (Found.nowhere none_later) = Found.nowhere (λ j w le.
    elim (dec_lt i j) [
      | yes lt ↦ none_later j w (omega arith)
      | no ge ↦
          let same : j ≡ i = omega arith in
          here (record {
            front = w.front;
            run = w.run;
            rest = w.rest;
            split = w.split;
            at = w.at ∙ same;
            long = w.long;
          })
    ])

-- The search returns for every list of outputs: the first place whose run has the amount, or none.
pub find_run_lem :
    (outputs : List OutputData) (n credited i rounds : ℕ)
    → i + rounds + n ≡ suc (length outputs)
    → (r : Option ℕ) × (find_run outputs n credited i rounds ≡ ok r) × Found outputs n credited i r
unfolding find_run
find_run_lem outputs n credited i zero h =
    (none, refl, Found.nowhere (λ j w le e. absurd (omega (arith, Window-fits outputs n j w))))
find_run_lem outputs n credited i (suc rounds) h =
    let w = Window-at outputs n i (omega arith) in
    let amount = amount_at-Window outputs n i w in
    elim (Bool-cases (total 0 w.run == credited)) [
      | inl yes' ↦
          (some i, rw (amount, yes') refl, Found.at_window i w (omega arith) ((==_iff _ _).0 yes'))
      | inr no' ↦
          let (r, e, found) = find_run_lem outputs n credited (suc i) rounds (omega arith) in
          let here = λ (v : Window outputs n i). λ (same : total 0 v.run ≡ credited).
            false≢true (sym no' ∙ (==_iff _ _).1 (total_unique outputs n i w v ∙ same)) in
          (r, rw (amount, no') e, later outputs n credited i r here found)
    ]
