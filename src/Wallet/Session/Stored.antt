-- ===== src/Wallet/Session/Stored.antt =====
-- A proof that is stored is read back (src/wallet/types/tx_proof.rs).
use mwc.Prelude.{
  ◌≡◌, ◌≢◌, refl, ap, sym, ◌∙◌, ◌⊎◌, inl, inr, Bool, true, false, Bool-cases, List, [], ◌∷◌, ◌++◌,
  Bytes, bytes_eq, codes, Outcome, ok, err, Without, absent-Without, All-append, length,
  length-append, arith,
}
use mwc.ErrorKind.{Error, kind, transaction_has_no_proof}
use mwc.Effects.{Call, result, returns, and_then, and_then_ok, lift}
use mwc.Paths.{PathBuf, parse, push, is_named}
use mwc.Config.Directories.{IsPart, parse_name, push_name}
use mwc.Proof.Evidence.{TxProof}
use mwc.Wallet.Library.{Library}
use mwc.Wallet.Session.{World, calling}
use mwc.Wallet.Session.Proofs.{
  store_path, read_path, tx_proof_save_dir, get_stored_tx_proof, store_tx_proof,
}

-- The name of a proof's file is a component of a path.
file-IsPart : (uuid : Bytes) → Without 47 uuid → IsPart (uuid ++ codes ".proof")
file-IsPart [] h = (absent-Without 47 (codes ".proof") refl, refl)
file-IsPart (c ∷ uuid) h =
    (All-append _ (c ∷ uuid) (codes ".proof") h (absent-Without 47 (codes ".proof") refl), refl)

not_dot : (uuid : Bytes) → bytes_eq (uuid ++ codes ".proof") (codes ".") ≡ false
not_dot [] = refl
not_dot (c ∷ []) = ground arith
not_dot (c ∷ d ∷ uuid) = ground arith

abbrev dir_path : Bytes → PathBuf
dir_path dir = push (parse dir) (parse tx_proof_save_dir)

read_path_lem :
    (dir uuid : Bytes)
    → Without 47 uuid
    → read_path dir uuid ≡ record {
      absolute = (dir_path dir).absolute;
      components = (dir_path dir).components ++ (uuid ++ codes ".proof") ∷ [];
    }
read_path_lem dir uuid h =
    let part = file-IsPart uuid h in
    let named : is_named (uuid ++ codes ".proof") ≡ true = rw (part.1, not_dot uuid) refl in
    ap (λ q. push (dir_path dir) q) (parse_name (uuid ++ codes ".proof") part (not_dot uuid))
    ∙ push_name (dir_path dir).absolute (dir_path dir).components (uuid ++ codes ".proof") named

last_cancel : (ws : List Bytes) (a b : Bytes) → ws ++ a ∷ [] ≡ ws ++ b ∷ [] → a ≡ b
last_cancel [] a b h = cc
last_cancel (w ∷ ws) a b h = last_cancel ws a b (cc)

suffix_cancel : (t a b : Bytes) → a ++ t ≡ b ++ t → a ≡ b
suffix_cancel t [] [] h = refl
suffix_cancel t [] (c ∷ b) h =
    let long = ap length h in absurd (omega (arith, long, length-append b t))
suffix_cancel t (c ∷ a) [] h =
    let long = ap length h in absurd (omega (arith, long, length-append a t))
suffix_cancel t (c ∷ a) (d ∷ b) h =
    let tails = suffix_cancel t a b (cc) in
    let heads : c ≡ d = cc in ap (λ x. x ∷ a) heads ∙ ap (λ x. d ∷ x) tails

-- The files of two slates are apart.
read_path_ne :
    (dir uuid other : Bytes)
    → Without 47 uuid
    → Without 47 other
    → uuid ≢ other
    → store_path dir uuid ≢ read_path dir other
read_path_ne dir uuid other h k apart e = apart (
    suffix_cancel (codes ".proof") uuid other (
      last_cancel (dir_path dir).components _ _ (
        ap (λ (p : PathBuf). p.components)
          (sym (read_path_lem dir uuid h) ∙ e ∙ read_path_lem dir other k))))

module _ {Slate Signature : Type 0} (b : Library Slate Signature) where
  open b use {State}

  -- A call of the library that succeeds changes the library's state only.
  replied_ok :
      {A : Type 0} (w : World b) (r : (Error ⊎ A) × State) {a : A} {w' : World b}
      → (result r.0, record w { lib = r.1 }) ≡ returns a w'
      → (s : State) × (r ≡ (inr a, s)) × (w' ≡ record w { lib = s })
  replied_ok w (inl e, s) h = cc
  replied_ok w (inr a, s) h = (s, cc, cc)

  pub calling_ok :
      {A : Type 0} (f : Call State A) (w : World b) {a : A} {w' : World b}
      → calling f w ≡ returns a w'
      → (s : State) × (f w.lib ≡ (inr a, s)) × (w' ≡ record w { lib = s })
  calling_ok f w h = replied_ok w (f w.lib) h

  -- A result without a change.
  pub lift_ok :
      {A : Type 0} (r : Error ⊎ A) (w : World b) {a : A} {w' : World b}
      → lift (result r) w ≡ returns a w'
      → (r ≡ inr a) × (w' ≡ w)
  lift_ok (inl e) w h = cc
  lift_ok (inr a) w h = (cc, cc)

  -- What is read of a proof's file, by whether it is there and what it holds.
  abbrev found : Bool → Error ⊎ Bytes → Outcome Error (TxProof Signature)
  found false r = err (kind transaction_has_no_proof)
  found true (inl e) = err e
  found true (inr content) = result (b.proof_from_str content)

  read_found :
      (w : World b) (r : (Error ⊎ Bytes) × State)
      → (and_then
          (result r.0, record w { lib = r.1 })
          (λ content. lift (result (b.proof_from_str content)))).0
        ≡ found true r.0
  read_found w (inl e, s) = refl
  read_found w (inr content, s) = refl

  get_stored_tx_proof-found :
      (dir uuid : Bytes) (w : World b)
      → (get_stored_tx_proof dir uuid w).0
        ≡ found
            (b.file_exists w.lib (read_path dir uuid))
            (b.read_file (read_path dir uuid) w.lib).0
  unfolding get_stored_tx_proof
  get_stored_tx_proof-found dir uuid w =
      elim (Bool-cases (b.file_exists w.lib (read_path dir uuid))) [
        | inl e ↦ rw e (read_found w (b.read_file (read_path dir uuid) w.lib))
        | inr e ↦ rw e refl
      ]

  -- The documented behaviour of files: what was written is there and is read, and writing a file leaves
  -- every other file as it is.
  pub record FilesKept : Type 0 where
    pub here :
        (path : PathBuf) (text : Bytes) (s s' : State)
        → b.write_file path text s ≡ (inr tt, s')
        → (b.file_exists s' path ≡ true) × (b.read_file path s' ≡ (inr text, s'))
    pub elsewhere :
        (path other : PathBuf) (text : Bytes) (s s' : State)
        → path ≢ other
        → b.write_file path text s ≡ (inr tt, s')
        → (b.file_exists s' other ≡ b.file_exists s other)
          × ((b.read_file other s').0 ≡ (b.read_file other s).0)

  left_alone :
      (files : FilesKept) (dir other : Bytes) (path : PathBuf) (text : Bytes) (w w' : World b)
      → path ≢ read_path dir other
      → calling (b.write_file path text) w ≡ returns tt w'
      → (get_stored_tx_proof dir other w').0 ≡ (get_stored_tx_proof dir other w).0
  left_alone files dir other path text w w' apart h =
      let (s, wrote, there) = calling_ok (b.write_file path text) w h in
      let (e, r) = files.elsewhere path (read_path dir other) text w.lib s apart wrote in
      ap (λ (v : World b). (get_stored_tx_proof dir other v).0) there
      ∙ get_stored_tx_proof-found dir other (record w { lib = s })
      ∙ rw (e, r) refl
      ∙ sym (get_stored_tx_proof-found dir other w)

  -- If files behave as documented and the proof's text is read as the proof, then a proof that has been
  -- stored for a slate is found there, and is the same proof with its amounts and commitments; and
  -- for every other slate the proof that is found, or the error, stays what it was. The ids of the
  -- slates have no slash.
  pub get_stored_tx_proof-store_tx_proof :
      (proof : TxProof Signature) (dir uuid other : Bytes) (w w' : World b)
      → Without 47 uuid
      → Without 47 other
      → uuid ≢ other
      → FilesKept
      → ((text : Bytes) → b.proof_to_string proof ≡ inr text → b.proof_from_str text ≡ inr proof)
      → store_tx_proof proof dir uuid w ≡ (ok tt, w')
      → (get_stored_tx_proof dir uuid w' ≡ (ok proof, w'))
        × ((get_stored_tx_proof dir other w').0 ≡ (get_stored_tx_proof dir other w).0)
  unfolding store_tx_proof get_stored_tx_proof
  get_stored_tx_proof-store_tx_proof proof dir uuid other w w' hu ho ne files json stored =
      let path = store_path dir uuid in
      let apart = read_path_ne dir uuid other hu ho ne in
      let (u, w1, created, stored1) = and_then_ok (calling (b.write_file path []) w) _ stored in
      let (text, w2, printed, stored2) =
        and_then_ok (lift (result (b.proof_to_string proof)) w1) _ stored1 in
      let (from, same) = lift_ok (b.proof_to_string proof) w1 printed in
      let (s, written, there) = calling_ok (b.write_file path text) w2 stored2 in
      let (exists, back) = files.here path text w2.lib s written in
      let proof_back = json text from in
      (
        rw there (simp (exists, back, proof_back) refl),
        left_alone files dir other path text w2 w' apart stored2
            ∙ ap (λ (v : World b). (get_stored_tx_proof dir other v).0) same
            ∙ left_alone files dir other path [] w w1 apart created,
      )
