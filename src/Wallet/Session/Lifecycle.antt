-- ===== src/Wallet/Session/Lifecycle.antt =====
-- Locking and unlocking the wallet (src/wallet/wallet.rs).
use mwc.Prelude.{ℕ, Bool, true, false, not, Option, none, some, Bytes, if◌then◌else◌, inl, inr}
use mwc.ErrorKind.{kind, wallet_unlock_failed, wallet_seed_could_not_be_opened}
use mwc.Effects.{Action, pure, fail, gets, lift, modify, map_err, try, expect, ◌>>=◌, ◌>>◌}
use mwc.Config.{
  Wallet713Config, get_data_path, get_top_level_directory, get_wallet_data_directory, mwc_node_uri,
  mwc_node_secret,
}
use mwc.Wallet.Library.{Library}
use mwc.Wallet.Session.{Wallet, World, calling, reading, locked, get_wallet_instance}
use mwc.Wallet.Session.Proofs.{init_proof_backend}

module _ {Slate Signature : Type 0} {b : Library Slate Signature} where
  open b use {Seed}

  abbrev pub set_wallet : (Wallet → Wallet) → Action (World b) (Unit {0})
  set_wallet f = modify (λ w. record w { wallet = f w.wallet })

  -- The updater's thread is told to stop, and waited for.
  unfoldable pub stop_updater : Action (World b) (Unit {0})
  stop_updater = do
    set_wallet (λ wallet. record wallet { updater_running = false })
    wallet ← gets (λ w. w.wallet)
    if wallet.updater_handler
        then (do
          set_wallet (λ wallet. record wallet { updater_handler = false })
          expect (calling b.join_updater))
        else pure tt

  -- Errors of the closing are ignored.
  unfoldable pub close_backend : Action (World b) (Unit {0})
  close_backend = do
    wallet ← gets (λ w. w.wallet)
    if wallet.backend
        then (do closed ← locked (try (calling b.lc_provider >> calling b.close_wallet)); pure tt)
        else pure tt

  unfoldable pub lock : Action (World b) (Unit {0})
  unfolding stop_updater close_backend
  lock = do stop_updater; close_backend; set_wallet (λ wallet. record wallet { backend = false })

  abbrev pub is_locked : World b → Bool
  is_locked w = not w.wallet.backend

  unfoldable pub start_updater : ℕ → Action (World b) (Unit {0})
  start_updater frequency = do
    set_wallet (λ wallet. record wallet { updater_running = true })
    get_wallet_instance
    calling (b.spawn_updater frequency)

  module _ {SecretKey : Type 0} (config : Wallet713Config SecretKey) where
    -- The instance that becomes the backend, opened for the account.
    unfoldable pub open_instance : Bytes → Bytes → Action (World b) (Unit {0})
    unfolding get_data_path get_top_level_directory get_wallet_data_directory mwc_node_secret
    open_instance account passphrase = do
      init_proof_backend (get_data_path config)
      seed ← calling (b.seed_from_file (get_data_path config) passphrase)
      expect (calling (b.new_wallet (mwc_node_uri config) (mwc_node_secret config)))
      expect (calling b.lc_provider)
      top ← lift (get_top_level_directory config)
      calling (b.set_top_level_directory top)
      data_dir ← lift (get_wallet_data_directory config)
      calling (b.open_wallet data_dir passphrase)
      calling b.wallet_inst
      calling (b.set_parent_key_id_by_name account)

    -- The updater, where the configuration asks for one.
    abbrev pub with_updater : Option ℕ → Action (World b) (Unit {0})
    with_updater none = pure tt
    with_updater (some freq) = do
      start_updater freq
      set_wallet (λ wallet. record wallet { updater_handler = true })

    -- `create_wallet_instance`; the new instance has a mutex of its own.
    unfoldable pub create_wallet_instance : Bytes → Bytes → Action (World b) (Unit {0})
    unfolding open_instance start_updater
    create_wallet_instance account passphrase = do
      open_instance account passphrase
      modify (λ w. record w { wallet = record w.wallet { backend = true }; held = false })
      with_updater config.wallet_updater_frequency_sec

    unfoldable pub unlock : Bytes → Bytes → Action (World b) (Unit {0})
    unfolding lock create_wallet_instance
    unlock account passphrase = do
      lock
      map_err (create_wallet_instance account passphrase) (kind wallet_unlock_failed)
      set_wallet (λ wallet. record wallet { active_account = account })

    unfoldable pub seed_exists : Action (World b) Bool
    unfolding get_data_path
    seed_exists = do
      exists ← reading (λ s. b.seed_file_exists s (get_data_path config))
      pure (elim exists [ inl e ↦ false | inr yes' ↦ yes' ])

    -- `init_seed`: the seed is made anew only where that is asked for.
    unfoldable pub init_seed : Bytes → Bool → Bool → Option Seed → Action (World b) Seed
    unfolding get_data_path
    init_seed passphrase create_new create_file seed = do
      found ← try (calling (b.seed_from_file (get_data_path config) passphrase))
      elim found [
        | some loaded ↦ pure loaded
        | none ↦
            if create_new
            then calling (
                b.init_file_impl (get_data_path config) passphrase create_file (not create_file)
                  seed)
            else fail (kind wallet_seed_could_not_be_opened)
      ]

    unfoldable pub complete : Seed → Bytes → Bytes → Bool → Action (World b) Seed
    unfolding init_seed unlock
    complete seed account passphrase create_new = do
      seed' ← init_seed passphrase create_new true (some seed)
      unlock account passphrase
      pure seed'

    abbrev pub init : Bytes → Bool → Action (World b) Seed
    init passphrase create_new = init_seed passphrase create_new false none
