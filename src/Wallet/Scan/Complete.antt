-- ===== src/Wallet/Scan/Complete.antt =====
-- `scan_outputs` visits every output of a chain and ends (src/wallet/api/restore.rs).
use mwc.Prelude.{
  ℕ, zero, suc, ◌+◌, ◌-◌, ◌<◌, ◌≤◌, ◌≡◌, refl, ap, sym, ◌∙◌, inl, inr, Bool-cases, List, [], ◌∷◌,
  ◌++◌, append_assoc, Option, Bytes, length, take, drop, take-append-drop, min, ◌==◌, ==_iff,
  Outcome, ok, err, panic, diverge, ◌>>=◌, arith,
}
use mwc.ErrorKind.{Error}
use mwc.Wallet.Scan.{
  ChainOutput, PubKeyInfo, Page, FoundLine, batch_size, scan_page, scan_keys, scan_loop,
  scan_outputs,
}

-- A node that serves a chain's outputs: from an index, counted from 1, the next ones up to a batch.
abbrev pub serve : List ChainOutput → ℕ → ℕ → Outcome Error Page
serve chain start_index max = ok (record {
  highest_index = length chain;
  last_retrieved_index = min (start_index - 1 + max) (length chain);
  outputs = take max (drop (start_index - 1) chain);
})

abbrev Lines : Type 0
Lines = Outcome Error (List FoundLine)

-- The lines of two scans, one after the other.
abbrev both : Lines → Lines → Lines
both p q = p >>= λ f. q >>= λ g. ok (f ++ g)

both_nil : (q : Lines) → q ≡ both (ok []) q
both_nil (ok g) = refl
both_nil (err e) = refl
both_nil panic = refl
both_nil diverge = refl

both_assoc : (m p q : Lines) → both m (both p q) ≡ both (both m p) q
both_assoc (ok f) (ok g) (ok h) = ap (λ (t : List FoundLine). ok t) (sym (append_assoc f g h))
both_assoc (ok f) (ok g) (err e) = refl
both_assoc (ok f) (ok g) panic = refl
both_assoc (ok f) (ok g) diverge = refl
both_assoc (ok f) (err e) q = refl
both_assoc (ok f) panic q = refl
both_assoc (ok f) diverge q = refl
both_assoc (err e) p q = refl
both_assoc panic p q = refl
both_assoc diverge p q = refl

take_whole : (n : ℕ) (xs : List ChainOutput) → length xs ≤ n → take n xs ≡ xs
take_whole zero [] h = refl
take_whole zero (x ∷ xs) h = absurd (omega arith)
take_whole (suc n) [] h = refl
take_whole (suc n) (x ∷ xs) h = ap (λ t. x ∷ t) (take_whole n xs (omega arith))

abbrev empty : List ChainOutput
empty = []

drop_nil : (n : ℕ) → drop n empty ≡ []
drop_nil zero = refl
drop_nil (suc n) = refl

drop-drop : (k n : ℕ) (xs : List ChainOutput) → drop n (drop k xs) ≡ drop (k + n) xs
drop-drop zero n xs = ap (λ m. drop m xs) (let e : n ≡ 0 + n = omega arith in e)
drop-drop (suc k) n [] = drop_nil n ∙ sym (drop_nil (suc k + n))
drop-drop (suc k) n (x ∷ xs) =
    drop-drop k n xs
    ∙ ap (λ m. drop m (x ∷ xs)) (let e : suc (k + n) ≡ suc k + n = omega arith in e)

length_behind : (k : ℕ) (xs : List ChainOutput) → length (drop k xs) ≡ length xs - k
length_behind zero xs = omega arith
length_behind (suc k) [] = omega arith
length_behind (suc k) (x ∷ xs) = omega (arith, length_behind k xs)

module _ {Nonce : Type 0} (nonce_of : Bytes → Bytes → Option Nonce)
    (rewind : Bytes → Nonce → Bytes → Option ℕ) (bad_nonce : Bytes) where
  abbrev page_of : List PubKeyInfo → List ChainOutput → Outcome Error (List FoundLine)
  page_of = scan_page nonce_of rewind bad_nonce

  -- Pages scanned one after the other are as one.
  page-append :
      (pks : List PubKeyInfo) (xs ys : List ChainOutput)
      → page_of pks (xs ++ ys) ≡ both (page_of pks xs) (page_of pks ys)
  unfolding scan_page
  page-append pks [] ys = both_nil (page_of pks ys)
  page-append pks (x ∷ xs) ys =
      let keys = scan_keys nonce_of rewind bad_nonce x pks in
      ap (λ p. both keys p) (page-append pks xs ys)
      ∙ both_assoc keys (page_of pks xs) (page_of pks ys)

  end_lem : (m : Lines) → (m >>= λ f. ok f) ≡ m
  end_lem (ok f) = refl
  end_lem (err e) = refl
  end_lem panic = refl
  end_lem diverge = refl

  loop_lem :
      (chain : List ChainOutput) (pks : List PubKeyInfo) (rounds start_index : ℕ)
      → 0 < start_index
      → start_index ≤ suc (length chain)
      → suc (length chain) < rounds + start_index
      → scan_loop nonce_of rewind bad_nonce (serve chain) pks rounds start_index
        ≡ page_of pks (drop (start_index - 1) chain)
  unfolding scan_loop
  loop_lem chain pks zero start_index lo hi fuel = absurd (omega arith)
  loop_lem chain pks (suc rounds) start_index lo hi fuel =
      let k = start_index - 1 in
      let last = min (k + batch_size) (length chain) in
      elim (Bool-cases (length chain == last)) [
        | inl end ↦
            let fits : length (drop k chain) ≤ batch_size =
              (let e = (==_iff _ _).0 end in omega (arith, length_behind k chain)) in
            rw (end, take_whole batch_size (drop k chain) fits)
              (end_lem (page_of pks (drop k chain)))
        | inr more ↦
            let inside : k + batch_size < length chain = ground arith in
            let at : last ≡ k + batch_size = omega arith in
            let rest =
              loop_lem chain pks rounds (last + 1) (omega arith) (omega arith) (omega arith) in
            let back : last + 1 - 1 ≡ k + batch_size = omega arith in
            let behind : drop (last + 1 - 1) chain ≡ drop batch_size (drop k chain) =
              ap (λ m. drop m chain) back ∙ sym (drop-drop k batch_size chain) in
            rw (more, rest, behind)
              (sym (
                  page-append pks (take batch_size (drop k chain)) (drop batch_size (drop k chain)))
                ∙ ap (λ os. page_of pks os) (take-append-drop batch_size (drop k chain)))
      ]

  -- On every chain, with one round more than it has outputs, the scan ends, with the lines of all
  -- outputs in their order, or with the error of the first one that has no nonce.
  pub scan_outputs-serve :
      (chain : List ChainOutput) (pks : List PubKeyInfo)
      → scan_outputs nonce_of rewind bad_nonce (serve chain) pks (suc (length chain))
        ≡ scan_page nonce_of rewind bad_nonce pks chain
  unfolding scan_outputs
  scan_outputs-serve chain pks =
      loop_lem chain pks (suc (length chain)) 1 (omega arith) (omega arith) (omega arith)
