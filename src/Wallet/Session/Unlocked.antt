-- ===== src/Wallet/Session/Unlocked.antt =====
-- What unlocking the wallet leaves, on every way out of it (src/wallet/wallet.rs).
use mwc.Prelude.{
  ℕ, ◌≡◌, refl, ap, ◌∙◌, ◌⊎◌, inl, inr, true, false, Bytes, Option, none, some, Outcome, ok, err,
  panic, diverge, unwrap,
}
use mwc.ErrorKind.{Error, kind, wallet_unlock_failed}
use mwc.Effects.{Call, result, and_then, as_error, map_err, expect, modify, call_cases, ◌>>◌}
use mwc.Effects.Steady.{Ends, Returned, lift-Steady}
use mwc.Config.{
  Wallet713Config, is_some, get_data_path, get_top_level_directory, get_wallet_data_directory,
  mwc_node_uri, mwc_node_secret,
}
use mwc.Wallet.Library.{Library}
use mwc.Wallet.Session.{Wallet, World, calling}
use mwc.Wallet.Session.Free.{Free, the_wallet, Fair, calling-Fair}
use mwc.Wallet.Session.Fair.{in_turn}
use mwc.Wallet.Session.Lifecycle.{
  lock, start_updater, open_instance, with_updater, create_wallet_instance, set_wallet, unlock,
}
use mwc.Wallet.Session.Locked.{locked_wallet, Locks, lock-Locks}

-- The wallet that is unlocked for an account: its updater runs where the configuration asks for one.
abbrev pub unlocked_wallet : Option ℕ → Bytes → Wallet → Wallet
unlocked_wallet frequency account wallet = record wallet {
  active_account = account;
  backend = true;
  updater_running = is_some frequency;
  updater_handler = is_some frequency;
}

abbrev with_backend : Wallet → Wallet
with_backend wallet = record wallet { backend = true }

abbrev for_account : Bytes → Wallet → Wallet
for_account account wallet = record wallet { active_account = account }

-- What an error leaves: the locked wallet, or, where the configuration asks for an updater and it is
-- not started, the open wallet of the old account whose updater is marked as running, with no thread.
abbrev pub Failed : Option ℕ → Wallet → Wallet → Type 0
Failed frequency wallet left =
    (left ≡ locked_wallet wallet)
    ⊎ ((is_some frequency ≡ true)
        × (left
            ≡ record wallet { backend = true; updater_running = true; updater_handler = false }))

module _ {Slate Signature SecretKey : Type 0} (b : Library Slate Signature)
    (config : Wallet713Config SecretKey) where
  -- How unlocking comes back.
  abbrev pub Unlocks : Bytes → Wallet → Outcome Error (Unit {0}) × World b → Type 0
  Unlocks account wallet (ok u, w) =
      (w.held ≡ false)
      × (w.wallet ≡ unlocked_wallet config.wallet_updater_frequency_sec account wallet)
  Unlocks account wallet (err e, w) =
      (e ≡ kind wallet_unlock_failed)
      × (w.held ≡ false)
      × (w.wallet.active_account ≡ wallet.active_account)
      × Failed config.wallet_updater_frequency_sec wallet w.wallet
  Unlocks account wallet (panic, w) = w.wallet.active_account ≡ wallet.active_account
  Unlocks account wallet (diverge, w) = ⊥

  expect-Fair : {A : Type 0} (f : Call (Library.State b) A) → Fair b (expect (calling f))
  expect-Fair f w h = elim (call_cases f w.lib) [
    | inl (e, s, j) ↦ simp (j) (record { ends = tt; holds = h; kept = refl })
    | inr (a, s, j) ↦ simp (j) (record { ends = tt; holds = h; kept = refl })
  ]

  unwrap-Ends : {A : Type 0} (o : Option A) → Ends (unwrap o)
  unwrap-Ends none = tt
  unwrap-Ends (some a) = tt

  open_instance-Fair :
      (account passphrase : Bytes) → Fair b (open_instance config account passphrase)
  unfolding open_instance get_top_level_directory get_wallet_data_directory
  open_instance-Fair account passphrase = in_turn b (expect-Fair (b.create_dir_all _)) (λ u0.
      in_turn b (calling-Fair b (b.seed_from_file (get_data_path config) passphrase)) (λ seed.
        in_turn b (expect-Fair (b.new_wallet (mwc_node_uri config) (mwc_node_secret config))) (λ u1.
          in_turn b (expect-Fair b.lc_provider) (λ u2.
            in_turn b
              (lift-Steady (Free b) (the_wallet b) (get_top_level_directory config) (unwrap-Ends _))
              (λ top. in_turn b (calling-Fair b (b.set_top_level_directory top)) (λ u3.
                in_turn b
                  (lift-Steady (Free b) (the_wallet b) (get_wallet_data_directory config)
                    (unwrap-Ends _))
                  (λ dir. in_turn b (calling-Fair b (b.open_wallet dir passphrase)) (λ u4.
                    in_turn b (calling-Fair b b.wallet_inst)
                      (λ u5. calling-Fair b (b.set_parent_key_id_by_name account))))))))))

  -- How the instance is made, for the locked wallet.
  abbrev Creates : Option ℕ → Wallet → Outcome Error (Unit {0}) × World b → Type 0
  Creates frequency wallet (ok u, w) =
      (w.held ≡ false) × (w.wallet ≡ unlocked_wallet frequency wallet.active_account wallet)
  Creates frequency wallet (err e, w) =
      (w.held ≡ false)
      × (w.wallet.active_account ≡ wallet.active_account)
      × Failed frequency wallet w.wallet
  Creates frequency wallet (panic, w) = w.wallet.active_account ≡ wallet.active_account
  Creates frequency wallet (diverge, w) = ⊥

  abbrev running : Wallet → Wallet
  running wallet = record wallet { updater_running = true }

  abbrev handling : Wallet → Wallet
  handling wallet = record wallet { updater_handler = true }

  spawned-Creates :
      (f : ℕ) (wallet v : Wallet) (w : World b) (r : (Error ⊎ (Unit {0})) × Library.State b)
      → w.held ≡ false
      → v ≡ running (unlocked_wallet none wallet.active_account wallet)
      → Creates (some f) wallet (
          and_then
            (result r.0, record w { wallet = v; lib = r.1 })
            (λ u. set_wallet (λ wallet. record wallet { updater_handler = true })))
  spawned-Creates f wallet v w (inl x, s) free e =
      (free, ap (λ (v : Wallet). v.active_account) e, inr (refl, e))
  spawned-Creates f wallet v w (inr u, s) free e = (free, ap handling e)

  with_updater-Creates :
      (frequency : Option ℕ) (wallet : Wallet) (w : World b)
      → w.held ≡ false
      → w.wallet ≡ unlocked_wallet none wallet.active_account wallet
      → Creates frequency wallet (with_updater config frequency w)
  unfolding start_updater
  with_updater-Creates none wallet w free e = (free, e)
  with_updater-Creates (some f) wallet w free e =
      let backend : w.wallet.backend ≡ true = ap (λ (v : Wallet). v.backend) e in
      rw backend (
        spawned-Creates f wallet (running (with_backend w.wallet)) w (b.spawn_updater f w.lib) free
          (ap (λ (v : Wallet). running (with_backend v)) e))

  opened-Creates :
      (frequency : Option ℕ) (wallet : Wallet) (w : World b)
      (r : Outcome Error (Unit {0}) × World b)
      → w.wallet ≡ locked_wallet wallet
      → Returned (Free b) (the_wallet b) w r
      → Creates frequency wallet (
          and_then r (λ u.
            modify (λ w. record w { wallet = record w.wallet { backend = true }; held = false })
            >> with_updater config frequency))
  opened-Creates frequency wallet w (ok u, w') e h =
      with_updater-Creates frequency wallet _ refl (ap with_backend (h.kept ∙ e))
  opened-Creates frequency wallet w (err x, w') e h =
      (h.holds, ap (λ (v : Wallet). v.active_account) (h.kept ∙ e), inl (h.kept ∙ e))
  opened-Creates frequency wallet w (panic, w') e h =
      ap (λ (v : Wallet). v.active_account) (h.kept ∙ e)
  opened-Creates frequency wallet w (diverge, w') e h = h.ends

  created-Unlocks :
      (account : Bytes) (wallet : Wallet) (r : Outcome Error (Unit {0}) × World b)
      → Creates config.wallet_updater_frequency_sec wallet r
      → Unlocks account wallet (
          and_then
            (as_error r (kind wallet_unlock_failed))
            (λ u. set_wallet (λ wallet. record wallet { active_account = account })))
  created-Unlocks account wallet (ok u, w) h = (h.0, ap (for_account account) h.1)
  created-Unlocks account wallet (err e, w) h = (refl, h.0, h.1, h.2)
  created-Unlocks account wallet (panic, w) h = h
  created-Unlocks account wallet (diverge, w) h = h

  locked-Unlocks :
      (account passphrase : Bytes) (wallet : Wallet) (r : Outcome Error (Unit {0}) × World b)
      → Locks b wallet r
      → Unlocks account wallet (
          and_then r (λ u.
            map_err (create_wallet_instance config account passphrase) (kind wallet_unlock_failed)
            >> set_wallet (λ wallet. record wallet { active_account = account })))
  unfolding create_wallet_instance
  locked-Unlocks account passphrase wallet (ok u, w) h =
      created-Unlocks account wallet (create_wallet_instance config account passphrase w) (
        opened-Creates config.wallet_updater_frequency_sec wallet w
          (open_instance config account passphrase w) h.1
          (open_instance-Fair account passphrase w h.0))
  locked-Unlocks account passphrase wallet (err e, w) h = absurd h
  locked-Unlocks account passphrase wallet (panic, w) h = ap (λ (v : Wallet). v.active_account) h
  locked-Unlocks account passphrase wallet (diverge, w) h = h

  -- Unlocking ends. It succeeds with the wallet open for the account, the mutex free, and the updater
  -- running just where the configuration asks for one. It fails with `WalletUnlockFailed` only, with
  -- the mutex free and the old account active; then the wallet is locked, or the configuration asks
  -- for an updater and the wallet is left open with the updater marked as running and no thread of it.
  -- A panic leaves the old account.
  pub unlock-Unlocks :
      (account passphrase : Bytes) (w : World b)
      → w.held ≡ false
      → Unlocks account w.wallet (unlock config account passphrase w)
  unfolding unlock
  unlock-Unlocks account passphrase w free =
      locked-Unlocks account passphrase w.wallet (lock w) (lock-Locks b w free)
