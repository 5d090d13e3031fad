-- ===== src/Wallet/Bulk/Mark.antt =====
-- The passes of `txs_bulk_validate` over the dumps: what a mark changes, and whom the lines mark.
use mwc.Prelude.{
  ℕ, ◌<◌, ◌≡◌, refl, ap, sym, ◌∙◌, ◌⊎◌, inl, inr, true, List, [], ◌∷◌, ◌++◌, Option, none, some,
  Option-cases, length, get_elem?, set, In, get-set, set-here, length-set, get_in, Bytes, ok, arith,
}
use mwc.Wallet.Bulk.{TransactionInfo, mark, mark_lines, find_line}

-- The transaction of a later list: its log and its outputs are the same, and what was validated is.
pub record Later (s s' : TransactionInfo) : Type 0 where
  pub log : s'.tx_log ≡ s.tx_log
  pub outputs : s'.tx_outputs ≡ s.tx_outputs
  pub kernels : s'.tx_kernels ≡ s.tx_kernels
  pub stays : s.validated ≡ true → s'.validated ≡ true

-- Every place of the list keeps its transaction.
pub record Grows (txs txs' : List TransactionInfo) : Type 0 where
  pub same_length : length txs' ≡ length txs
  pub forward :
      (j : ℕ) (s : TransactionInfo)
      → get_elem? txs j ≡ some s
      → (s' : TransactionInfo) × (get_elem? txs' j ≡ some s') × Later s s'

pub Later-refl : (s : TransactionInfo) → Later s s
Later-refl s = record { log = refl; outputs = refl; kernels = refl; stays = λ h. h }

pub Grows-refl : (txs : List TransactionInfo) → Grows txs txs
Grows-refl txs = record { same_length = refl; forward = λ j s h. (s, h, Later-refl s) }

pub Grows-trans : (xs ys zs : List TransactionInfo) → Grows xs ys → Grows ys zs → Grows xs zs
Grows-trans xs ys zs g h = record {
  same_length = h.same_length ∙ g.same_length;
  forward = λ j s at.
      let (s', at', l) = g.forward j s at in
      let (s'', at'', l') = h.forward j s' at' in
      (
        s'',
        at'',
        record {
          log = l'.log ∙ l.log;
          outputs = l'.outputs ∙ l.outputs;
          kernels = l'.kernels ∙ l.kernels;
          stays = λ v. l'.stays (l.stays v);
        },
      );
}

abbrev pub some_info : TransactionInfo → Option TransactionInfo
some_info t = some t

pub some_injective : {s t : TransactionInfo} → some_info s ≡ some_info t → s ≡ t
some_injective h = cc

-- A list in which one transaction is marked.
pub record Marks (k : ℕ) (txs txs' : List TransactionInfo) : Type 0 where
  pub grows : Grows txs txs'
  pub marked : (t' : TransactionInfo) → get_elem? txs' k ≡ some t' → t'.validated ≡ true
  pub others :
      (i : ℕ) (t' : TransactionInfo)
      → get_elem? txs' i ≡ some t'
      → (get_elem? txs i ≡ some t') ⊎ (i ≡ k)

pub mark-Marks :
    (flag : Bytes) (k : ℕ) (txs : List TransactionInfo)
    → k < length txs
    → (txs' : List TransactionInfo) × (mark flag k txs ≡ ok txs') × Marks k txs txs'
unfolding mark
mark-Marks flag k txs h =
    let (t, at) = get_in txs k h in
    let new : TransactionInfo = record t {
      validated = true;
      validation_flags = t.validation_flags ++ flag;
    } in
    let here = set-here txs k new h in
    (
      set txs k new,
      rw at refl,
      record {
        grows = record {
          same_length = length-set txs k new;
          forward = λ j s e. elim (get-set txs k new j) [
            | inl same ↦ (s, same ∙ e, Later-refl s)
            | inr (eq, written) ↦
                let old : s ≡ t = some_injective (sym e ∙ ap (λ i. get_elem? txs i) eq ∙ at) in
                (
                  new,
                  written,
                  record {
                    log = sym (ap (λ (x : TransactionInfo). x.tx_log) old);
                    outputs = sym (ap (λ (x : TransactionInfo). x.tx_outputs) old);
                    kernels = sym (ap (λ (x : TransactionInfo). x.tx_kernels) old);
                    stays = λ v. refl;
                  },
                )
          ];
        };
        marked = λ t' e. ap (λ (x : TransactionInfo). x.validated) (some_injective (sym e ∙ here));
        others = λ i t' e. elim (get-set txs k new i) [
          | inl same ↦ inl (sym same ∙ e)
          | inr (eq, written) ↦ inr eq
        ];
      },
    )

-- What the lines of a dump do: none is lost, whoever is marked is named by a line, and whoever is
-- named by a line is validated.
pub record Named (m : List (Bytes × ℕ)) (lines : List Bytes) (txs txs' : List TransactionInfo)
    : Type 0 where
  pub grows : Grows txs txs'
  pub justified :
      (i : ℕ) (t' : TransactionInfo)
      → get_elem? txs' i ≡ some t'
      → (get_elem? txs i ≡ some t') ⊎ ((line : Bytes) × In line lines × (find_line m line ≡ some i))
  pub complete :
      (line : Bytes) (i : ℕ) (t' : TransactionInfo)
      → In line lines
      → find_line m line ≡ some i
      → get_elem? txs' i ≡ some t'
      → t'.validated ≡ true

skip_line :
    (m : List (Bytes × ℕ)) (line : Bytes) (lines : List Bytes) (txs txs' : List TransactionInfo)
    → find_line m line ≡ none
    → Named m lines txs txs'
    → Named m (line ∷ lines) txs txs'
skip_line m line lines txs txs' unknown n = record {
  grows = n.grows;
  justified = λ i t' e. elim (n.justified i t' e) [
    | inl old ↦ inl old
    | inr (l, at, found) ↦ inr (l, In.there at, found)
  ];
  complete = λ l i t' at found e. elim at [
    | In.here same ↦ let f = ap (λ x. find_line m x) same in cc
    | In.there at' ↦ n.complete l i t' at' found e
  ];
}

pub unique : {A : Type 0} {o : Option A} {i j : A} → o ≡ some i → o ≡ some j → i ≡ j
unique h k = cc

mark_line :
    (m : List (Bytes × ℕ)) (line : Bytes) (lines : List Bytes) (k : ℕ)
    (txs mid txs' : List TransactionInfo)
    → k < length txs
    → find_line m line ≡ some k
    → Marks k txs mid
    → Named m lines mid txs'
    → Named m (line ∷ lines) txs txs'
mark_line m line lines k txs mid txs' fits known first n = record {
  grows = Grows-trans txs mid txs' first.grows n.grows;
  justified = λ i t' e. elim (n.justified i t' e) [
    | inl old ↦ elim (first.others i t' old) [
      | inl older ↦ inl older
      | inr here ↦ inr (line, In.here refl, known ∙ ap some (sym here))
    ]
    | inr (l, at, found) ↦ inr (l, In.there at, found)
  ];
  complete = λ l i t' at found e. elim at [
    | In.here same ↦
        let i-k : i ≡ k = unique (sym (ap (λ x. find_line m x) same) ∙ found) known in
        let (s, there) = get_in mid k (omega (arith, first.grows.same_length)) in
        let (s', there', l') = n.grows.forward k s there in
        let t-s : t' ≡ s' = unique (sym (ap (λ x. get_elem? txs' x) i-k) ∙ e) there' in
        ap (λ (x : TransactionInfo). x.validated) t-s ∙ l'.stays (first.marked s there)
    | In.there at' ↦ n.complete l i t' at' found e
  ];
}

-- A pass returns where the map's indices are in range.
pub mark_lines-Named :
    (flag : Bytes) (m : List (Bytes × ℕ)) (lines : List Bytes) (txs : List TransactionInfo)
    → ((line : Bytes) (i : ℕ) → find_line m line ≡ some i → i < length txs)
    → (txs' : List TransactionInfo) × (mark_lines flag m lines txs ≡ ok txs')
      × Named m lines txs txs'
unfolding mark_lines
mark_lines-Named flag m [] txs range = (
  txs,
  refl,
  record {
    grows = Grows-refl txs;
    justified = λ i t' e. inl e;
    complete = λ l i t' at found e. elim at [ ];
  },
)
mark_lines-Named flag m (line ∷ lines) txs range = elim (Option-cases (find_line m line)) [
  | inl unknown ↦
      let (txs', e, n) = mark_lines-Named flag m lines txs range in
      (txs', rw unknown e, skip_line m line lines txs txs' unknown n)
  | inr (k, known) ↦
      let fits = range line k known in
      let (mid, e, first) = mark-Marks flag k txs fits in
      let (txs', e', n) =
        mark_lines-Named flag m lines mid
          (λ l i found. (let r = range l i found in omega (arith, first.grows.same_length))) in
      (txs', rw (known, e) e', mark_line m line lines k txs mid txs' fits known first n)
]
