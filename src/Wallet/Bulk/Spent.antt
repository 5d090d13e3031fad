-- ===== src/Wallet/Bulk/Spent.antt =====
-- The last pass of `txs_bulk_validate`: transactions whose outputs a validated send has spent.
use mwc.Prelude.{
  ℕ, zero, suc, ◌+◌, ◌<◌, ◌≤◌, ◌≡◌, refl, ap, sym, ◌∙◌, ◌⊎◌, inl, inr, Bool, true, false, ◌&&◌,
  List, [], ◌∷◌, some, Option-cases, Bool-cases, length, get_elem?, In, get_in, codes, ok, arith,
}
use mwc.Wallet.Ledger.{OutputData}
use mwc.Wallet.Bulk.{TransactionInfo, find_id, is_send, is_spent, spent_step, spent_pass}
use mwc.Wallet.Bulk.Mark.{Grows, Grows-refl, Grows-trans, Marks, mark-Marks, unique}

-- An output of the list names a send that is validated.
pub record SpentBy (ids : List (ℕ × ℕ)) (txs : List TransactionInfo) (outs : List OutputData)
    : Type 0 where
  pub out : OutputData
  pub entry : ℕ
  pub index : ℕ
  pub send : TransactionInfo
  pub out_in : In out outs
  pub names : out.tx_log_entry ≡ some entry
  pub found : find_id ids entry ≡ some index
  pub at : get_elem? txs index ≡ some send
  pub sends : is_send send ≡ true
  pub validated : send.validated ≡ true

pub SpentBy-Grows :
    (ids : List (ℕ × ℕ)) (txs txs' : List TransactionInfo) (outs : List OutputData)
    → Grows txs txs'
    → SpentBy ids txs outs
    → SpentBy ids txs' outs
SpentBy-Grows ids txs txs' outs g s =
    let (send', at', l) = g.forward s.index s.send s.at in
    record {
      out = s.out;
      entry = s.entry;
      index = s.index;
      send = send';
      out_in = s.out_in;
      names = s.names;
      found = s.found;
      at = at';
      sends = rw l.log s.sends;
      validated = l.stays s.validated;
    }

more_outs :
    (ids : List (ℕ × ℕ)) (txs : List TransactionInfo) (o : OutputData) (outs : List OutputData)
    → SpentBy ids txs outs
    → SpentBy ids txs (o ∷ outs)
more_outs ids txs o outs s = record {
  out = s.out;
  entry = s.entry;
  index = s.index;
  send = s.send;
  out_in = In.there s.out_in;
  names = s.names;
  found = s.found;
  at = s.at;
  sends = s.sends;
  validated = s.validated;
}

and_both : (a b : Bool) → (a && b) ≡ true → (a ≡ true) × (b ≡ true)
and_both true b h = (refl, h)
and_both false b h = cc

module _ (ids : List (ℕ × ℕ)) (txs : List TransactionInfo)
    (range : (entry i : ℕ) → find_id ids entry ≡ some i → i < length txs) where
  skip :
      (o : OutputData) (outs : List OutputData) (b : Bool)
      → is_spent txs ids (o ∷ outs) b ≡ is_spent txs ids outs b
      → (r : Bool) × (is_spent txs ids outs b ≡ ok r)
        × (r ≡ true → (b ≡ true) ⊎ SpentBy ids txs outs)
      → (r : Bool) × (is_spent txs ids (o ∷ outs) b ≡ ok r)
        × (r ≡ true → (b ≡ true) ⊎ SpentBy ids txs (o ∷ outs))
  skip o outs b next (r, e, why) = (
    r,
    next ∙ e,
    λ h. elim (why h) [ inl old ↦ inl old | inr s ↦ inr (more_outs ids txs o outs s) ],
  )

  -- The search returns; if it says yes where it started with no, a validated send is named.
  pub is_spent-SpentBy :
      (outs : List OutputData) (b : Bool)
      → (r : Bool) × (is_spent txs ids outs b ≡ ok r)
        × (r ≡ true → (b ≡ true) ⊎ SpentBy ids txs outs)
  unfolding is_spent
  is_spent-SpentBy [] b = (b, refl, λ h. inl h)
  is_spent-SpentBy (o ∷ outs) b = elim (Option-cases o.tx_log_entry) [
    | inl no_entry ↦ skip o outs b (rw no_entry refl) (is_spent-SpentBy outs b)
    | inr (entry, names) ↦ elim (Option-cases (find_id ids entry)) [
      | inl unknown ↦ skip o outs b (rw (names, unknown) refl) (is_spent-SpentBy outs b)
      | inr (i, found) ↦
          let (info, at) = get_in txs i (range entry i found) in
          elim (Bool-cases (is_send info && info.validated)) [
            | inr no' ↦ skip o outs b (rw (names, found, at, no') refl) (is_spent-SpentBy outs b)
            | inl yes' ↦
                let (sends, validated) = and_both (is_send info) info.validated yes' in
                let (r, e, why) = is_spent-SpentBy outs true in
                (
                  r,
                  rw (names, found, at, yes') e,
                  λ h. inr (record {
                    out = o;
                    entry = entry;
                    index = i;
                    send = info;
                    out_in = In.here refl;
                    names = names;
                    found = found;
                    at = at;
                    sends = sends;
                    validated = validated;
                  }),
                )
          ]
    ]
  ]

-- What a round of the pass does: whoever is marked has an output that names a validated send.
pub record Spends (ids : List (ℕ × ℕ)) (txs txs' : List TransactionInfo) : Type 0 where
  pub grows : Grows txs txs'
  pub justified :
      (i : ℕ) (t' : TransactionInfo)
      → get_elem? txs' i ≡ some t'
      → (get_elem? txs i ≡ some t') ⊎ SpentBy ids txs' t'.tx_outputs

Spends-refl : (ids : List (ℕ × ℕ)) (txs : List TransactionInfo) → Spends ids txs txs
Spends-refl ids txs = record { grows = Grows-refl txs; justified = λ i t' e. inl e }

mark-Spends :
    (ids : List (ℕ × ℕ)) (txs txs' : List TransactionInfo) (i : ℕ) (t : TransactionInfo)
    → get_elem? txs i ≡ some t
    → SpentBy ids txs t.tx_outputs
    → Marks i txs txs'
    → Spends ids txs txs'
mark-Spends ids txs txs' i t at s m = record {
  grows = m.grows;
  justified = λ j t' e. elim (m.others j t' e) [
    | inl old ↦ inl old
    | inr here ↦
        let (new, there, l) = m.grows.forward i t at in
        let same : t' ≡ new = unique (sym (ap (λ k. get_elem? txs' k) here) ∙ e) there in
        let outs : t'.tx_outputs ≡ t.tx_outputs =
          ap (λ (x : TransactionInfo). x.tx_outputs) same ∙ l.outputs in
        inr (rw outs (SpentBy-Grows ids txs txs' t.tx_outputs m.grows s))
  ];
}

pub spent_step-Spends :
    (ids : List (ℕ × ℕ)) (i : ℕ) (txs : List TransactionInfo)
    → ((entry k : ℕ) → find_id ids entry ≡ some k → k < length txs)
    → i < length txs
    → (txs' : List TransactionInfo) × (spent_step ids i txs ≡ ok txs') × Spends ids txs txs'
unfolding spent_step
spent_step-Spends ids i txs range h =
    let (t, here) = get_in txs i h in
    elim (Bool-cases t.validated) [
      | inl done ↦ rw (here, done) (txs, refl, Spends-refl ids txs)
      | inr open' ↦
          let (r, e, why) = is_spent-SpentBy ids txs range t.tx_outputs false in
          elim (Bool-cases r) [
            | inr no' ↦ rw (here, open', e, no') (txs, refl, Spends-refl ids txs)
            | inl yes' ↦ elim (why yes') [
              | inl f ↦ cc
              | inr s ↦
                  let (txs', e', m) = mark-Marks (codes "S") i txs h in
                  (
                    txs',
                    rw (here, open', e, yes') (rw here at e'),
                    mark-Spends ids txs txs' i t here s m,
                  )
            ]
          ]
    ]

in_turn :
    (ids : List (ℕ × ℕ)) (xs ys zs : List TransactionInfo)
    → Spends ids xs ys
    → Spends ids ys zs
    → Spends ids xs zs
in_turn ids xs ys zs f g = record {
  grows = Grows-trans xs ys zs f.grows g.grows;
  justified = λ i t' e. elim (g.justified i t' e) [
    | inr s ↦ inr s
    | inl old ↦ elim (f.justified i t' old) [
      | inl older ↦ inl older
      | inr s ↦ inr (SpentBy-Grows ids ys zs t'.tx_outputs g.grows s)
    ]
  ];
}

-- The pass returns where its rounds and the ids are in range.
pub spent_pass-Spends :
    (ids : List (ℕ × ℕ)) (i rounds : ℕ) (txs : List TransactionInfo)
    → ((entry k : ℕ) → find_id ids entry ≡ some k → k < length txs)
    → i + rounds ≤ length txs
    → (txs' : List TransactionInfo) × (spent_pass ids i rounds txs ≡ ok txs') × Spends ids txs txs'
unfolding spent_pass
spent_pass-Spends ids i zero txs range h = (txs, refl, Spends-refl ids txs)
spent_pass-Spends ids i (suc rounds) txs range h =
    let (mid, e, f) = spent_step-Spends ids i txs range (omega arith) in
    let same = f.grows.same_length in
    let (txs', e', g) =
      spent_pass-Spends ids (suc i) rounds mid
        (λ entry k found. (let r = range entry k found in omega (arith, same)))
        (omega (arith, same)) in
    (txs', rw e e', in_turn ids txs mid txs' f g)
