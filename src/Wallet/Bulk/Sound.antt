-- ===== src/Wallet/Bulk/Sound.antt =====
-- What `txs_bulk_validate` validates, and that it returns.
use mwc.Prelude.{
  ℕ, zero, suc, ◌<◌, ◌≡◌, ap, sym, ◌∙◌, ◌⊎◌, inl, inr, Bool, true, List, [], ◌∷◌, some, length,
  get_elem?, get_in, In, Bytes, codes, ok, arith,
}
use mathlib.Core.Bool.{false≢true}
use mathlib.Core.Path.{subst}
use mwc.Wallet.Bulk.{TransactionInfo, Bulk, find_line, validate}
use mwc.Wallet.Bulk.Gather.{HasKernel, HasOutput, At, Indexed}
use mwc.Wallet.Bulk.Mark.{Later, Grows, Grows-trans, Named, mark_lines-Named}
use mwc.Wallet.Bulk.Spent.{SpentBy, Spends, spent_pass-Spends}

-- Why a transaction may be validated: one of its kernels is a line of the kernels' dump, the commit of
-- one of its outputs is a line of the outputs' dump, or one of its outputs names a validated send.
pub Evidence : Bulk → List Bytes → List Bytes → List TransactionInfo → TransactionInfo → Type 0
Evidence s kernels outputs txs t =
    ((line : Bytes) × In line kernels × HasKernel line t)
    ⊎ (((line : Bytes) × In line outputs × HasOutput line t)
        ⊎ SpentBy s.tx_id_to_tx txs t.tx_outputs)

pub record Validated (s : Bulk) (kernels outputs : List Bytes) (txs : List TransactionInfo)
    : Type 0 where
  pub grows : Grows s.txs txs
  pub sound :
      (i : ℕ) (t : TransactionInfo)
      → get_elem? txs i ≡ some t
      → t.validated ≡ true
      → Evidence s kernels outputs txs t
  pub kernels_complete :
      (line : Bytes) (i : ℕ) (t : TransactionInfo)
      → In line kernels
      → find_line s.kernel_to_tx line ≡ some i
      → get_elem? txs i ≡ some t
      → t.validated ≡ true
  pub outputs_complete :
      (line : Bytes) (i : ℕ) (t : TransactionInfo)
      → In line outputs
      → find_line s.output_to_tx line ≡ some i
      → get_elem? txs i ≡ some t
      → t.validated ≡ true

in_range :
    (txs : List TransactionInfo) (i : ℕ) (t : TransactionInfo)
    → get_elem? txs i ≡ some t
    → i < length txs
in_range [] i t h = cc
in_range (x ∷ txs) zero t h = omega arith
in_range (x ∷ txs) (suc i) t h = omega (arith, in_range txs i t h)

At-range :
    (txs : List TransactionInfo) (i : ℕ) (P : TransactionInfo → Type 0)
    → At txs i P
    → i < length txs
At-range txs i P a = in_range txs i a.info a.here

-- What holds at an index of the first list holds at it in a later one.
later_at :
    (txs txs' : List TransactionInfo) (i : ℕ) (P : TransactionInfo → Type 0) (t' : TransactionInfo)
    → ((s s' : TransactionInfo) → Later s s' → P s → P s')
    → Grows txs txs'
    → At txs i P
    → get_elem? txs' i ≡ some t'
    → P t'
later_at txs txs' i P t' keeps g a e =
    let (s', here', l) = g.forward i a.info a.here in
    let same : s' ≡ t' = let h = sym here' ∙ e in cc in subst P same (keeps a.info s' l a.holds)

keeps_kernel :
    (line : Bytes) (s s' : TransactionInfo) → Later s s' → HasKernel line s → HasKernel line s'
unfolding HasKernel
keeps_kernel line s s' l h = rw l.kernels h

keeps_output :
    (line : Bytes) (s s' : TransactionInfo) → Later s s' → HasOutput line s → HasOutput line s'
unfolding HasOutput
keeps_output line s s' l h = rw l.outputs h

keeps_validated :
    (txs txs' : List TransactionInfo) (i : ℕ) (t' : TransactionInfo)
    → Grows txs txs'
    → i < length txs
    → ((t : TransactionInfo) → get_elem? txs i ≡ some t → t.validated ≡ true)
    → get_elem? txs' i ≡ some t'
    → t'.validated ≡ true
keeps_validated txs txs' i t' g h v e =
    let (t, here) = get_in txs i h in
    let (s', here', l) = g.forward i t here in
    let same : s' ≡ t' = let two = sym here' ∙ e in cc in
    ap (λ (x : TransactionInfo). x.validated) (sym same) ∙ l.stays (v t here)

-- The three passes together.
passes :
    (s : Bulk) (kernels outputs : List Bytes) (t1 t2 t3 : List TransactionInfo)
    → Indexed s
    → Named s.kernel_to_tx kernels s.txs t1
    → Named s.output_to_tx outputs t1 t2
    → Spends s.tx_id_to_tx t2 t3
    → Validated s kernels outputs t3
unfolding Evidence
passes s kernels outputs t1 t2 t3 h n1 n2 p3 =
    let grows12 = Grows-trans s.txs t1 t2 n1.grows n2.grows in
    let grows = Grows-trans s.txs t2 t3 grows12 p3.grows in
    let l1 = n1.grows.same_length in
    let l2 = n2.grows.same_length in
    record {
      grows = grows;
      sound = λ i t e v. elim (p3.justified i t e) [
        | inr spent ↦ inr (inr spent)
        | inl e2 ↦ elim (n2.justified i t e2) [
          | inr (line, at, found) ↦ inr (
              inl (
                line,
                at,
                later_at s.txs t3 i (HasOutput line) t (keeps_output line) grows
                    (h.outputs line i found) e,
              ))
          | inl e1 ↦ elim (n1.justified i t e1) [
            | inr (line, at, found) ↦ inl (
              line,
              at,
              later_at s.txs t3 i (HasKernel line) t (keeps_kernel line) grows
                  (h.kernels line i found) e,
            )
            | inl e0 ↦ absurd (false≢true (sym (h.fresh i t e0) ∙ v))
          ]
        ]
      ];
      kernels_complete = λ line i t at found e.
          let r = At-range s.txs i (HasKernel line) (h.kernels line i found) in
          keeps_validated t1 t3 i t (Grows-trans t1 t2 t3 n2.grows p3.grows) (omega (arith, l1))
            (λ t' here. n1.complete line i t' at found here) e;
      outputs_complete = λ line i t at found e.
          let r = At-range s.txs i (HasOutput line) (h.outputs line i found) in
          keeps_validated t2 t3 i t p3.grows (omega (arith, l1, l2))
            (λ t' here. n2.complete line i t' at found here) e;
    }

-- From maps whose indices stand for their transactions, the passes return. A transaction is validated
-- only on evidence, and the one that a line of a dump stands for is validated.
pub validate-Validated :
    (s : Bulk) (kernels outputs : List Bytes)
    → Indexed s
    → (txs : List TransactionInfo) × (validate s kernels outputs ≡ ok txs)
      × Validated s kernels outputs txs
unfolding validate
validate-Validated s kernels outputs h =
    let (t1, e1, n1) =
      mark_lines-Named (codes "K") s.kernel_to_tx kernels s.txs
        (λ line i f. At-range s.txs i (HasKernel line) (h.kernels line i f)) in
    let l1 = n1.grows.same_length in
    let (t2, e2, n2) = mark_lines-Named (codes "O") s.output_to_tx outputs t1 (λ line i f.
      (let r = At-range s.txs i (HasOutput line) (h.outputs line i f) in omega (arith, l1))) in
    let l2 = n2.grows.same_length in
    let (t3, e3, p3) =
      spent_pass-Spends s.tx_id_to_tx 0 (length t2) t2
        (λ entry i f. (let r = At-range s.txs i _ (h.ids entry i f) in omega (arith, l1, l2)))
        (omega arith) in
    (t3, rw (e1, e2) e3, passes s kernels outputs t1 t2 t3 h n1 n2 p3)
