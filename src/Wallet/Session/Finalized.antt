-- ===== src/Wallet/Session/Finalized.antt =====
-- What a finalised slate leaves, and what is posted (src/wallet/wallet.rs, src/wallet/api/api.rs).
use mwc.Prelude.{
  ◌≡◌, refl, ap, sym, ◌∙◌, ◌⊎◌, inl, inr, Bool, true, false, Bool-cases, Option, none, some, Bytes,
  Outcome, ok, err, panic, diverge, unwrap, [],
}
use mathlib.Core.Path.{subst}
use mwc.ErrorKind.{Error, kind, grin_wallet_post_error, grin_wallet_finalize_error}
use mwc.Codec.Hex.{to_hex}
use mwc.Effects.{Action, result, returns, and_then_ok, as_error, map_err, lift, pure, ◌>>◌}
use mwc.Proof.Evidence.{TxProof}
use mwc.Wallet.Library.{Library, Context}
use mwc.Wallet.Session.{World, calling, locked, wallet_lock, get_wallet_instance}
use mwc.Wallet.Session.Stored.{calling_ok, lift_ok}
use mwc.Wallet.Session.Proofs.{store_path, store_tx_proof}
use mwc.Wallet.Session.Transactions.{
  filled_in, fill_proof, finalize_tx, post_tx, verify_slate_messages,
}
use mwc.Wallet.Session.Methods.{verified_slate, finalize_slate}

module _ {Slate Signature : Type 0} (b : Library Slate Signature) where
  open b use {State, tx}

  abbrev replied : State → (Error ⊎ (Unit {0})) × State
  replied s = (inr tt, s)

  same_value : {A : Type 0} {a x : A} {v w : World b} → returns a v ≡ returns x w → x ≡ a
  same_value h = cc

  same_world : {A : Type 0} {a x : A} {v w : World b} → returns a v ≡ returns x w → v ≡ w
  same_world h = cc

  map_err_ok :
      {A : Type 0} (r : Outcome Error A × World b) (e : Error) {a : A} {w : World b}
      → as_error r e ≡ returns a w
      → r ≡ returns a w
  map_err_ok (ok a, w) e h = h
  map_err_ok (err x, w) e h = cc
  map_err_ok (panic, w) e h = cc
  map_err_ok (diverge, w) e h = cc

  get_wallet_instance_ok :
      (w : World b) {w' : World b} → get_wallet_instance w ≡ returns tt w' → w' ≡ w
  get_wallet_instance_ok w h = elim (Bool-cases w.wallet.backend) [
    | inl e ↦ let h' = rw e at h in cc
    | inr e ↦ let h' = rw e at h in cc
  ]

  verified_slate_ok :
      (w : World b) {w' : World b}
      → verified_slate w ≡ returns tt w'
      → (b.verify_messages w.slate ≡ inr tt) × (w' ≡ w)
  unfolding verify_slate_messages
  verified_slate_ok w h =
      let (u, w1, h1, r1) = and_then_ok (get_wallet_instance w) _ h in
      let same = get_wallet_instance_ok w h1 in
      let h2 = map_err_ok (lift (result (b.verify_messages w1.slate)) w1) _ r1 in
      let (yes', same') = lift_ok b (b.verify_messages w1.slate) w1 h2 in
      (rw (← same) yes', same' ∙ same)

  released_ok :
      {A : Type 0} (r : Outcome Error A × World b) {a : A} {w' : World b}
      → (r.0, record r.1 { held = false }) ≡ returns a w'
      → (v : World b) × (r ≡ returns a v) × (w' ≡ record v { held = false })
  released_ok (ok a, v) h = (v, cc, cc)
  released_ok (err e, v) h = cc
  released_ok (panic, v) h = cc
  released_ok (diverge, v) h = cc

  -- A scope under the mutex that ends well.
  locked_ok :
      {A : Type 0} (body : Action (World b) A) (w : World b) {a : A} {w' : World b}
      → locked body w ≡ returns a w'
      → (v : World b) × (body (record w { held = true }) ≡ returns a v)
        × (w' ≡ record v { held = false })
  locked_ok body w h = elim (Bool-cases w.held) [
    | inl e ↦ let h' = rw e at h in cc
    | inr e ↦ released_ok (body (record w { held = true })) (rw e at h)
  ]

  wallet_lock_ok :
      {A : Type 0} (body : Action (World b) A) (w : World b) {a : A} {w' : World b}
      → wallet_lock body w ≡ returns a w'
      → (s : State) × (v : World b) × (body (record w { held = true; lib = s }) ≡ returns a v)
        × (w' ≡ record v { held = false })
        × (b.wallet_inst w.lib ≡ (inr tt, s))
  wallet_lock_ok body w h =
      let (v, h1, same) = locked_ok (calling b.wallet_inst >> body) w h in
      let (u, w1, h2, r2) = and_then_ok (calling b.wallet_inst (record w { held = true })) _ h1 in
      let (s, inst, there) = calling_ok b b.wallet_inst (record w { held = true }) h2 in
      (s, v, rw (← there) r2, same, inst)

  -- The proof, with what the transaction adds to it, where one is given.
  abbrev pub filled : Context → Option (TxProof Signature) → Option (TxProof Signature)
  filled context none = none
  filled context (some proof) = some (filled_in proof context)

  -- What is written of the proof behind the finalisation: nothing, or its file and no other.
  pub data Kept (context : Context) (dir uuid : Bytes) (s : State)
      : Option (TxProof Signature) → State → Type 0 where
    nothing : Kept context dir uuid s none s
    written :
        (proof : TxProof Signature) (text : Bytes) (s1 s2 : State)
        → b.write_file (store_path dir uuid) [] s ≡ (inr tt, s1)
        → b.proof_to_string (filled_in proof context) ≡ inr text
        → b.write_file (store_path dir uuid) text s1 ≡ (inr tt, s2)
        → Kept context dir uuid s (some proof) s2

  store_tx_proof_ok :
      (proof : TxProof Signature) (context : Context) (dir uuid : Bytes) (w : World b)
      {w' : World b}
      → store_tx_proof (filled_in proof context) dir uuid w ≡ returns tt w'
      → (w'.slate ≡ w.slate)
        × (w'.tx_proof ≡ w.tx_proof)
        × Kept context dir uuid w.lib (some proof) w'.lib
  unfolding store_tx_proof
  store_tx_proof_ok proof context dir uuid w {w'} h =
      let path = store_path dir uuid in
      let full = filled_in proof context in
      let (u, w1, h1, r1) = and_then_ok (calling (b.write_file path []) w) _ h in
      let (s, i, there) = calling_ok b (b.write_file path []) w h1 in
      let (text, w2, h2, r2) = and_then_ok (lift (result (b.proof_to_string full)) w1) _ r1 in
      let (j, same) = lift_ok b (b.proof_to_string full) w1 h2 in
      let (s', k, there') = calling_ok b (b.write_file path text) w2 r2 in
      let at : w2.lib ≡ s = ap (λ (w : World b). w.lib) (same ∙ there) in
      let k' : b.write_file path text s ≡ (inr tt, s') =
        ap (λ s. b.write_file path text s) (sym at) ∙ k in
      (
        rw (there', same, there) refl,
        rw (there', same, there) refl,
        subst (λ z. Kept context dir uuid w.lib (some proof) z)
            (ap (λ (w : World b). w.lib) (sym there')) (Kept.written proof text s s' i j k'),
      )

  fill_proof_ok :
      (context : Context) (proof : Option (TxProof Signature)) (w : World b) {w' : World b}
      → w.tx_proof ≡ proof
      → fill_proof context proof w ≡ returns tt w'
      → (w'.slate ≡ w.slate)
        × (w'.tx_proof ≡ filled context proof)
        × Kept context (b.get_data_file_dir w.lib) (b.id w.slate) w.lib proof w'.lib
  unfolding fill_proof
  fill_proof_ok context none w e h = rw (← same_world h) (refl, e, Kept.nothing)
  fill_proof_ok context (some proof) w e h =
      store_tx_proof_ok proof context (b.get_data_file_dir w.lib) (b.id w.slate)
        (record w { tx_proof = some (filled_in proof context) }) h

  -- How the transaction of the slate has been finalised: by the library, from the slate as it was.
  pub record Final (w w' : World b) : Type 0 where
    pub before : State
    pub after : State
    pub slate_res : Slate
    pub context : Context
    pub opened : b.wallet_inst w.lib ≡ (inr tt, before)
    pub finalized : b.finalize_tx w.slate before ≡ (inr (slate_res, context), after)
    pub slate_is : w'.slate ≡ slate_res
    pub proof_is : w'.tx_proof ≡ filled context w.tx_proof
    pub kept : Kept context (b.get_data_file_dir after) (b.id slate_res) after w.tx_proof w'.lib

  from_same : {w w1 v : World b} → w1 ≡ w → Final w1 v → Final w v
  from_same {v = v} same final = subst (λ z. Final z v) same final

  finalize_tx-Final :
      (w : World b) {done : Bool} {w' : World b}
      → finalize_tx w ≡ returns done w'
      → (done ≡ true) × Final w w'
  unfolding finalize_tx
  finalize_tx-Final w h =
      let (s, v, h1, same, inst) = wallet_lock_ok _ w h in
      let w1 : World b = record w { held = true; lib = s } in
      let (r, w2, h2, r2) = and_then_ok (calling (b.finalize_tx w.slate) w1) _ h1 in
      let (s', final, there) = calling_ok b (b.finalize_tx w.slate) w1 h2 in
      let (u, w3, h3, r3) =
        and_then_ok (fill_proof r.1 w2.tx_proof (record w2 { slate = r.0 })) _ r2 in
      let (slate, proof, kept) =
        fill_proof_ok r.1 w2.tx_proof (record w2 { slate = r.0 }) refl h3 in
      let lib : w2.lib ≡ s' = ap (λ (w : World b). w.lib) there in
      let given : w2.tx_proof ≡ w.tx_proof = ap (λ (w : World b). w.tx_proof) there in
      let end = same_world r3 in
      (
        same_value r3,
        record {
          before = s;
          after = s';
          opened = inst;
          slate_res = r.0;
          context = r.1;
          finalized = final;
          slate_is =
              ap (λ (w : World b). w.slate) same ∙ ap (λ (w : World b). w.slate) (sym end) ∙ slate;
          proof_is =
              ap (λ (w : World b). w.tx_proof) same
              ∙ ap (λ (w : World b). w.tx_proof) (sym end)
              ∙ proof
              ∙ ap (λ (w : World b). filled r.1 w.tx_proof) there;
          kept =
              subst (λ z. Kept r.1 (b.get_data_file_dir s') (b.id r.0) s' w.tx_proof z)
                (ap (λ (w : World b). w.lib) end ∙ sym (ap (λ (w : World b). w.lib) same))
                (subst (λ z. Kept r.1 (b.get_data_file_dir z) (b.id r.0) z w.tx_proof w3.lib) lib
                  (subst (λ z. Kept r.1 (b.get_data_file_dir w2.lib) (b.id r.0) w2.lib z w3.lib)
                    given kept));
        },
      )

  -- How the slate's transaction has been posted: written out in hexadecimal, to the node.
  pub record Posted (w w' : World b) : Type 0 where
    pub tx_ser : Bytes
    pub serialized : b.ser_vec (tx w.slate) ≡ some tx_ser
    pub before : State
    pub opened : b.wallet_inst w.lib ≡ (inr tt, before)
    pub posted : b.post_tx (to_hex tx_ser) false before ≡ (inr tt, w'.lib)
    pub same_slate : w'.slate ≡ w.slate
    pub same_proof : w'.tx_proof ≡ w.tx_proof

  unwrapped_value :
      {A : Type 0} (o : Option A) (w : World b) {a : A} {w' : World b}
      → lift (unwrap o) w ≡ returns a w'
      → (o ≡ some a) × (w' ≡ w)
  unwrapped_value none w h = cc
  unwrapped_value (some a) w h = (cc, cc)

  post_tx-Posted :
      (w : World b) {w' : World b} → post_tx (tx w.slate) false w ≡ returns tt w' → Posted w w'
  unfolding post_tx
  post_tx-Posted w h =
      let (tx_ser, w1, h1, r1) = and_then_ok (lift (unwrap (b.ser_vec (tx w.slate))) w) _ h in
      let (some_ser, same) = unwrapped_value (b.ser_vec (tx w.slate)) w h1 in
      let (u, w2, h2, r2) = and_then_ok (wallet_lock (pure tt) w1) _ r1 in
      let (s, v, h3, there, inst) = wallet_lock_ok (pure tt) w1 h2 in
      let (s', post, end) = calling_ok b (b.post_tx (to_hex tx_ser) false) w2 r2 in
      let locked' = same_world h3 in
      let slate : v.slate ≡ w.slate =
        ap (λ (w : World b). w.slate) (sym locked') ∙ ap (λ (w : World b). w.slate) same in
      let proof : v.tx_proof ≡ w.tx_proof =
        ap (λ (w : World b). w.tx_proof) (sym locked') ∙ ap (λ (w : World b). w.tx_proof) same in
      record {
        tx_ser = tx_ser;
        serialized = some_ser;
        before = w2.lib;
        opened =
            ap (λ (w : World b). b.wallet_inst w.lib) (sym same)
            ∙ inst
            ∙ ap replied
                (ap (λ (w : World b). w.lib) locked' ∙ sym (ap (λ (w : World b). w.lib) there));
        posted = post ∙ ap (λ (w : World b). replied w.lib) (sym end);
        same_slate =
            ap (λ (w : World b). w.slate) end ∙ ap (λ (w : World b). w.slate) there ∙ slate;
        same_proof =
            ap (λ (w : World b). w.tx_proof) end ∙ ap (λ (w : World b). w.tx_proof) there ∙ proof;
      }

  -- If a slate comes back and is finalised, then its messages have been verified, and the library has
  -- changed in these calls and no others, each in the state that the one before left: the opening of
  -- the instance, the finalisation of the slate as it came, the writing of the proof's file if a proof
  -- is given, the opening of the instance, and the posting of the finalised slate's transaction. The
  -- proof then has the amounts and the commitments of that transaction.
  pub finalize_slate-Posted :
      (w w' : World b)
      → finalize_slate w ≡ (ok tt, w')
      → (b.verify_messages w.slate ≡ inr tt)
        × ((v : World b) × Final w v
            × Posted v w'
            × (w'.slate ≡ v.slate)
            × (w'.tx_proof ≡ v.tx_proof))
  unfolding finalize_slate
  finalize_slate-Posted w w' h =
      let (u, w1, h1, r1) = and_then_ok (verified_slate w) _ h in
      let (verified, same) = verified_slate_ok w h1 in
      let (done, v, h2, r2) =
        and_then_ok (map_err finalize_tx (kind grin_wallet_finalize_error) w1) _ r1 in
      let (posts, final) =
        finalize_tx-Final w1 (map_err_ok (finalize_tx w1) (kind grin_wallet_finalize_error) h2) in
      let r3 = rw posts at r2 in
      let posted =
        post_tx-Posted v
          (map_err_ok (post_tx (tx v.slate) false v) (kind grin_wallet_post_error) r3) in
      (verified, (v, from_same same final, posted, posted.same_slate, posted.same_proof))
