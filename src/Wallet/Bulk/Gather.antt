-- ===== src/Wallet/Bulk/Gather.antt =====
-- The maps of `txs_bulk_validate`: what an index found in them stands for.
use mwc.Prelude.{
  ℕ, zero, suc, ◌≡◌, refl, ap, sym, ◌∙◌, ◌⊎◌, inl, inr, false, List, [], ◌∷◌, ◌++◌, Option, some,
  Option-cases, Bool-cases, length, get_elem?, In, Bytes, bytes_eq, bytes_eq→eq, ◌==◌, ==_iff,
}
use mwc.Wallet.Ledger.{OutputData}
use mwc.Wallet.Merge.{Row}
use mwc.Wallet.Bulk.{
  TransactionInfo, Bulk, find_line, find_id, insert_kernels, insert_outputs, info_of, gather,
  nothing_yet,
}

unfoldable pub HasKernel : Bytes → TransactionInfo → Type 0
HasKernel line t = In line t.tx_kernels

unfoldable pub HasOutput : Bytes → TransactionInfo → Type 0
HasOutput line t = (o : OutputData) × In o t.tx_outputs × (o.commit ≡ some line)

-- The transaction at the index has the property.
pub record At (txs : List TransactionInfo) (i : ℕ) (P : TransactionInfo → Type 0) : Type 0 where
  pub info : TransactionInfo
  pub here : get_elem? txs i ≡ some info
  pub holds : P info

-- An index of a map stands for a transaction that has the kernel, the output or the id, and no
-- transaction is validated yet.
pub record Indexed (s : Bulk) : Type 0 where
  pub kernels :
      (line : Bytes) (i : ℕ) → find_line s.kernel_to_tx line ≡ some i → At s.txs i (HasKernel line)
  pub outputs :
      (line : Bytes) (i : ℕ) → find_line s.output_to_tx line ≡ some i → At s.txs i (HasOutput line)
  pub ids :
      (entry i : ℕ) → find_id s.tx_id_to_tx entry ≡ some i → At s.txs i (λ t. t.tx_log.id ≡ entry)
  pub fresh : (i : ℕ) (t : TransactionInfo) → get_elem? s.txs i ≡ some t → t.validated ≡ false

get-append :
    (xs : List TransactionInfo) (t : TransactionInfo) (i : ℕ) (s : TransactionInfo)
    → get_elem? xs i ≡ some s
    → get_elem? (xs ++ t ∷ []) i ≡ some s
get-append [] t i s h = cc
get-append (x ∷ xs) t zero s h = h
get-append (x ∷ xs) t (suc i) s h = get-append xs t i s h

get-last :
    (xs : List TransactionInfo) (t : TransactionInfo)
    → get_elem? (xs ++ t ∷ []) (length xs) ≡ some t
get-last [] t = refl
get-last (x ∷ xs) t = get-last xs t

get-append_cases :
    (xs : List TransactionInfo) (t : TransactionInfo) (i : ℕ) (s : TransactionInfo)
    → get_elem? (xs ++ t ∷ []) i ≡ some s
    → (get_elem? xs i ≡ some s) ⊎ (s ≡ t)
get-append_cases [] t zero s h = inr (cc)
get-append_cases [] t (suc i) s h = cc
get-append_cases (x ∷ xs) t zero s h = inl h
get-append_cases (x ∷ xs) t (suc i) s h = get-append_cases xs t i s h

At-append :
    (xs : List TransactionInfo) (t : TransactionInfo) (i : ℕ) (P : TransactionInfo → Type 0)
    → At xs i P
    → At (xs ++ t ∷ []) i P
At-append xs t i P a = record {
  info = a.info;
  here = get-append xs t i a.info a.here;
  holds = a.holds;
}

find_line_cons :
    (key line : Bytes) (idx i : ℕ) (m : List (Bytes × ℕ))
    → find_line ((key, idx) ∷ m) line ≡ some i
    → ((key ≡ line) × (idx ≡ i)) ⊎ (find_line m line ≡ some i)
find_line_cons key line idx i m h = elim (Bool-cases (bytes_eq key line)) [
  | inl same ↦ inl (bytes_eq→eq key line same, cc)
  | inr other ↦ inr (cc)
]

find_kernel :
    (ks : List Bytes) (idx : ℕ) (m : List (Bytes × ℕ)) (line : Bytes) (i : ℕ)
    → find_line (insert_kernels ks idx m) line ≡ some i
    → (In line ks × (i ≡ idx)) ⊎ (find_line m line ≡ some i)
find_kernel [] idx m line i h = inr h
find_kernel (k ∷ ks) idx m line i h = elim (find_kernel ks idx ((k, idx) ∷ m) line i h) [
  | inl (later, e) ↦ inl (In.there later, e)
  | inr old ↦ elim (find_line_cons k line idx i m old) [
    | inl (same, e) ↦ inl (In.here (sym same), sym e)
    | inr older ↦ inr older
  ]
]

find_output :
    (os : List OutputData) (idx : ℕ) (m : List (Bytes × ℕ)) (line : Bytes) (i : ℕ)
    → find_line (insert_outputs os idx m) line ≡ some i
    → (((o : OutputData) × In o os × (o.commit ≡ some line)) × (i ≡ idx))
      ⊎ (find_line m line ≡ some i)
find_output [] idx m line i h = inr h
find_output (o ∷ os) idx m line i h = elim (Option-cases o.commit) [
  | inl broken ↦ elim (find_output os idx m line i (rw broken at h)) [
    | inl ((o', later, c), e) ↦ inl ((o', In.there later, c), e)
    | inr old ↦ inr old
  ]
  | inr (commit, has) ↦ elim (find_output os idx ((commit, idx) ∷ m) line i (rw has at h)) [
    | inl ((o', later, c), e) ↦ inl ((o', In.there later, c), e)
    | inr old ↦ elim (find_line_cons commit line idx i m old) [
      | inl (same, e) ↦ inl ((o, In.here refl, has ∙ ap some same), sym e)
      | inr older ↦ inr older
    ]
  ]
]

find_id_cons :
    (key entry idx i : ℕ) (m : List (ℕ × ℕ))
    → find_id ((key, idx) ∷ m) entry ≡ some i
    → ((key ≡ entry) × (i ≡ idx)) ⊎ (find_id m entry ≡ some i)
find_id_cons key entry idx i m h = elim (Bool-cases (key == entry)) [
  | inl same ↦ inl ((==_iff key entry).0 same, cc)
  | inr other ↦ inr (cc)
]

at_last :
    (xs : List TransactionInfo) (t : TransactionInfo) (i : ℕ) (P : TransactionInfo → Type 0)
    → i ≡ length xs
    → P t
    → At (xs ++ t ∷ []) i P
at_last xs t i P e h = record {
  info = t;
  here = ap (λ k. get_elem? (xs ++ t ∷ []) k) e ∙ get-last xs t;
  holds = h;
}

module _ (stored_kernels : Bytes → Option (List Bytes)) (to_hex : Bytes → Bytes) where
  abbrev add_row : Row → Bulk → Bulk
  add_row row s =
      let info = info_of stored_kernels to_hex row in
      record {
        txs = s.txs ++ info ∷ [];
        kernel_to_tx = insert_kernels info.tx_kernels (length s.txs) s.kernel_to_tx;
        output_to_tx = insert_outputs info.tx_outputs (length s.txs) s.output_to_tx;
        tx_id_to_tx = (info.tx_log.id, length s.txs) ∷ s.tx_id_to_tx;
      }

  starts_unvalidated : (row : Row) → (info_of stored_kernels to_hex row).validated ≡ false
  unfolding info_of
  starts_unvalidated row = refl

  add_row-Indexed : (row : Row) (s : Bulk) → Indexed s → Indexed (add_row row s)
  unfolding HasKernel HasOutput
  add_row-Indexed row s h =
      let info = info_of stored_kernels to_hex row in
      record {
        kernels = λ line i found.
            elim (find_kernel info.tx_kernels (length s.txs) s.kernel_to_tx line i found) [
              | inl (has, e) ↦ at_last s.txs info i (HasKernel line) e has
              | inr old ↦ At-append s.txs info i (HasKernel line) (h.kernels line i old)
            ];
        outputs = λ line i found.
            elim (find_output info.tx_outputs (length s.txs) s.output_to_tx line i found) [
              | inl (has, e) ↦ at_last s.txs info i (HasOutput line) e has
              | inr old ↦ At-append s.txs info i (HasOutput line) (h.outputs line i old)
            ];
        ids = λ entry i found.
            elim (find_id_cons info.tx_log.id entry (length s.txs) i s.tx_id_to_tx found) [
              | inl (same, e) ↦ at_last s.txs info i (λ t. t.tx_log.id ≡ entry) e same
              | inr old ↦ At-append s.txs info i (λ t. t.tx_log.id ≡ entry) (h.ids entry i old)
            ];
        fresh = λ i t e. elim (get-append_cases s.txs info i t e) [
          | inl old ↦ h.fresh i t old
          | inr new ↦ ap (λ (x : TransactionInfo). x.validated) new ∙ starts_unvalidated row
        ];
      }

  gather-Indexed :
      (rows : List Row) (s : Bulk) → Indexed s → Indexed (gather stored_kernels to_hex rows s)
  unfolding gather
  gather-Indexed [] s h = h
  gather-Indexed (row ∷ rows) s h = gather-Indexed rows (add_row row s) (add_row-Indexed row s h)

  pub gathered : (rows : List Row) → Indexed (gather stored_kernels to_hex rows nothing_yet)
  gathered rows = gather-Indexed rows nothing_yet (record {
    kernels = λ line i h. cc;
    outputs = λ line i h. cc;
    ids = λ entry i h. cc;
    fresh = λ i t h. cc;
  })
