-- ===== src/Wallet/Session/Free.antt =====
-- The calls of the library and the mutex around them: what a call leaves as it was.
use mwc.Prelude.{◌≡◌, refl, inl, inr, true, false, Bool-cases}
use mwc.Effects.{Action, Call, ◌>>◌}
use mwc.Effects.Steady.{result-Ends, Steady, bind-Steady}
use mwc.Wallet.Library.{Library}
use mwc.Wallet.Session.{
  Wallet, World, calling, reading, locked, wallet_lock, sharing, get_wallet_instance, set_slate,
  with_instance,
}

module _ {Slate Signature : Type 0} (b : Library Slate Signature) where
  open b use {State}

  abbrev pub Free : World b → Type 0
  Free w = w.held ≡ false

  abbrev pub Any : World b → Type 0
  Any w = Unit

  abbrev pub the_wallet : World b → Wallet
  the_wallet w = w.wallet

  -- With the mutex free, the call ends, frees it again, and keeps the wallet's fields.
  abbrev pub Fair : {A : Type 0} → Action (World b) A → Type 0
  Fair m = Steady Free the_wallet m

  -- Under the mutex, the call ends and keeps the wallet's fields.
  abbrev pub Inner : {A : Type 0} → Action (World b) A → Type 0
  Inner m = Steady Any the_wallet m

  pub calling-Inner : {A : Type 0} (f : Call State A) → Inner (calling f)
  calling-Inner f w h = record { ends = result-Ends (f w.lib).0; holds = tt; kept = refl }

  pub calling-Fair : {A : Type 0} (f : Call State A) → Fair (calling f)
  calling-Fair f w h = record { ends = result-Ends (f w.lib).0; holds = h; kept = refl }

  pub reading-Inner : {A : Type 0} (f : State → A) → Inner (reading f)
  reading-Inner f w h = record { ends = tt; holds = tt; kept = refl }

  pub set_slate-Inner : (slate : Slate) → Inner (set_slate slate)
  set_slate-Inner slate w h = record { ends = tt; holds = tt; kept = refl }

  pub set_slate-Fair : (slate : Slate) → Fair (set_slate slate)
  set_slate-Fair slate w h = record { ends = tt; holds = h; kept = refl }

  pub locked-Fair : {A : Type 0} (body : Action (World b) A) → Inner body → Fair (locked body)
  locked-Fair body s w h =
      let r = s (record w { held = true }) tt in
      rw h (record { ends = r.ends; holds = refl; kept = r.kept })

  pub wallet_lock-Fair :
      {A : Type 0} (body : Action (World b) A) → Inner body → Fair (wallet_lock body)
  wallet_lock-Fair body s =
      locked-Fair (calling b.wallet_inst >> body)
        (bind-Steady Any the_wallet (calling-Inner b.wallet_inst) (λ u. s))

  pub sharing-Fair : {A : Type 0} (f : Call State A) → Fair (sharing f)
  sharing-Fair f = locked-Fair (calling f) (calling-Inner f)

  pub get_wallet_instance-Fair : Fair get_wallet_instance
  get_wallet_instance-Fair w h = elim (Bool-cases w.wallet.backend) [
    | inl e ↦ rw e (record { ends = tt; holds = h; kept = refl })
    | inr e ↦ rw e (record { ends = tt; holds = h; kept = refl })
  ]

  pub with_instance-Fair : {A : Type 0} (m : Action (World b) A) → Fair m → Fair (with_instance m)
  with_instance-Fair m s = bind-Steady Free the_wallet get_wallet_instance-Fair (λ u. s)
