-- ===== src/Wallet/Session/Tests.antt =====
-- The wallet's methods on a small library.
use mwc.Prelude.{
  ◌≡◌, ◌≢◌, refl, sym, ◌∙◌, ◌⊎◌, inl, inr, true, false, Bool-cases, [], some, Bytes, codes, Outcome,
  ok, err, diverge, absent-Without,
}
use mwc.ErrorKind.{Error, kind, no_wallet}
use mwc.Effects.Steady.{Returned}
use mwc.Samples.Library.{
  the_file, same_path, same_path-eq, sample_library, sample_config, sample_proof, world, signed,
}
use mwc.Paths.{PathBuf}
use mwc.Wallet.Session.{World, new}
use mwc.Wallet.Session.Free.{Free, the_wallet}
use mwc.Wallet.Session.Proofs.{get_stored_tx_proof, store_tx_proof}
use mwc.Wallet.Session.Queries
use mwc.Wallet.Session.Lifecycle.{unlock}
use mwc.Wallet.Session.Methods.{node_height, finalize_slate, repost}
use mwc.Wallet.Session.Fair.Perform.{check_repair, perform, perform-Fair}
use mwc.Wallet.Session.Unlocked.{Unlocks, unlock-Unlocks}
use mwc.Wallet.Session.Blocked.{repost-diverge}
use mwc.Wallet.Session.Stored.{FilesKept, get_stored_tx_proof-store_tx_proof}
use mwc.Wallet.Session.Finalized.{Final, Posted, finalize_slate-Posted}

-- The node does not answer: the height is that of the highest output.
height_offline : (node_height (world signed)).0 ≡ ok (7, false)
unfolding Queries.node_height
height_offline = refl

-- A wallet that is made anew is locked, and its methods say so.
abbrev locked_world : World sample_library
locked_world = record (world signed) { wallet = new (some 10) }

height_locked : (node_height locked_world).0 ≡ err (kind no_wallet)
height_locked = refl

abbrev unlocked : Outcome Error (Unit {0}) × World sample_library
unlocked = unlock sample_config (codes "savings") [] locked_world

account_after : unlocked.1.wallet.active_account ≡ codes "savings"
unfolding unlock
account_after = refl

unlock-Unlocks_example :
    Unlocks sample_library sample_config
      (codes "savings")
      (new (some 10))
      (unlock sample_config (codes "savings") [] locked_world)
unlock-Unlocks_example =
    unlock-Unlocks sample_library sample_config (codes "savings") [] locked_world refl

perform-Fair_example :
    Returned
      (Free sample_library)
      (the_wallet sample_library)
      (world signed)
      (perform sample_library (check_repair 5 true) (world signed))
perform-Fair_example = perform-Fair sample_library (check_repair 5 true) (world signed) refl

repost-diverge_example : (repost 4 true (world signed)).0 ≡ diverge
repost-diverge_example =
    repost-diverge sample_library 4 true (world signed) [] [] refl refl refl refl

-- The text of a proof is the last that is written.
abbrev proof_world : World sample_library
proof_world = record (world signed) { lib = codes "proof" }

abbrev replied : Bytes → (Error ⊎ (Unit {0})) × Bytes
replied s = (inr tt, s)

abbrev text_read : Bytes → (Error ⊎ Bytes) × Bytes
text_read s = (inr s, s)

written_here :
    (path : PathBuf) (text s s' : Bytes)
    → sample_library.write_file path text s ≡ replied s'
    → (path ≡ the_file) × (text ≡ s')
written_here path text s s' h = elim (Bool-cases (same_path path the_file)) [
  | inl e ↦ let k = rw e at h in (same_path-eq path the_file e, cc)
  | inr e ↦ let k = rw e at h in cc
]

elsewhere :
    (path other : PathBuf) (text s s' : Bytes)
    → path ≢ other
    → sample_library.write_file path text s ≡ replied s'
    → (sample_library.file_exists s' other ≡ sample_library.file_exists s other)
      × ((sample_library.read_file other s').0 ≡ (sample_library.read_file other s).0)
elsewhere path other text s s' apart h =
    let (at, _) = written_here path text s s' h in
    elim (Bool-cases (same_path other the_file)) [
      | inl e ↦ absurd (apart (at ∙ sym (same_path-eq other the_file e)))
      | inr e ↦ (refl, rw e refl)
    ]

there :
    (path : PathBuf) (text s s' : Bytes)
    → sample_library.write_file path text s ≡ replied s'
    → (sample_library.file_exists s' path ≡ true)
      × (sample_library.read_file path s' ≡ (inr text, s'))
there path text s s' h =
    let (at, same) = written_here path text s s' h in
    let found : same_path path the_file ≡ true = rw at refl in (found, rw (found, same) refl)

files : FilesKept sample_library
files = record { here = there; elsewhere = elsewhere }

store_ends :
    store_tx_proof sample_proof (codes "/data") (codes "id") (world signed) ≡ (ok tt, proof_world)
unfolding store_tx_proof
store_ends = refl

get_stored_tx_proof-store_tx_proof_example :
    (get_stored_tx_proof (codes "/data") (codes "id") proof_world ≡ (ok sample_proof, proof_world))
    × ((get_stored_tx_proof (codes "/data") (codes "id2") proof_world).0
        ≡ (get_stored_tx_proof (codes "/data") (codes "id2") (world signed)).0)
get_stored_tx_proof-store_tx_proof_example =
    get_stored_tx_proof-store_tx_proof sample_library sample_proof (codes "/data") (codes "id")
      (codes "id2") (world signed) proof_world (absent-Without 47 (codes "id") refl)
      (absent-Without 47 (codes "id2") refl) (cc) files (λ text h. refl) store_ends

abbrev finalized : World sample_library
finalized = (finalize_slate (world signed)).1

finalize_ends : finalize_slate (world signed) ≡ (ok tt, finalized)
unfolding finalize_slate
finalize_ends = refl

finalize_slate-Posted_example :
    (sample_library.verify_messages signed ≡ inr tt)
    × ((v : World sample_library) × Final sample_library (world signed) v
        × Posted sample_library v finalized
        × (finalized.slate ≡ v.slate)
        × (finalized.tx_proof ≡ v.tx_proof))
finalize_slate-Posted_example =
    finalize_slate-Posted sample_library (world signed) finalized finalize_ends
