-- ===== src/Wallet/Session/Proofs.antt =====
-- The stored proofs: the files of src/wallet/types/tx_proof.rs.
use mwc.Prelude.{[], Bool, ◌++◌, Bytes, codes, if◌then◌else◌}
use mwc.ErrorKind.{kind, transaction_has_no_proof}
use mwc.Effects.{Action, result, lift, fail, expect, ◌>>=◌, ◌>>◌}
use mwc.Paths.{PathBuf, parse, push}
use mwc.Proof.Evidence.{TxProof}
use mwc.Wallet.Library.{Library}
use mwc.Wallet.Session.{World, calling, reading}

abbrev pub tx_proof_save_dir : Bytes
tx_proof_save_dir = codes "saved_proofs"

-- The file of a proof, as each of the three operations computes it.
abbrev pub exists_path : Bytes → Bytes → PathBuf
exists_path data_file_dir uuid =
    let filename = uuid ++ codes ".proof" in
    push (push (parse data_file_dir) (parse tx_proof_save_dir)) (parse filename)

abbrev pub read_path : Bytes → Bytes → PathBuf
read_path data_file_dir uuid =
    let filename = uuid ++ codes ".proof" in
    push (push (parse data_file_dir) (parse tx_proof_save_dir)) (parse filename)

abbrev pub store_path : Bytes → Bytes → PathBuf
store_path data_file_dir uuid =
    let filename = uuid ++ codes ".proof" in
    push (push (parse data_file_dir) (parse tx_proof_save_dir)) (parse filename)

module _ {Slate Signature : Type 0} {b : Library Slate Signature} where
  abbrev pub init_proof_backend : PathBuf → Action (World b) (Unit {0})
  init_proof_backend data_file_dir =
      expect (calling (b.create_dir_all (push data_file_dir (parse tx_proof_save_dir))))

  abbrev pub has_stored_tx_proof : Bytes → Bytes → Action (World b) Bool
  has_stored_tx_proof data_file_dir uuid =
      reading (λ s. b.file_exists s (exists_path data_file_dir uuid))

  unfoldable pub get_stored_tx_proof : Bytes → Bytes → Action (World b) (TxProof Signature)
  get_stored_tx_proof data_file_dir uuid = do
    exists ← reading (λ s. b.file_exists s (read_path data_file_dir uuid))
    if exists
        then (do
          content ← calling (b.read_file (read_path data_file_dir uuid))
          lift (result (b.proof_from_str content)))
        else fail (kind transaction_has_no_proof)

  -- The file is made before the proof is written out.
  unfoldable pub store_tx_proof : TxProof Signature → Bytes → Bytes → Action (World b) (Unit {0})
  store_tx_proof proof data_file_dir uuid = do
    calling (b.write_file (store_path data_file_dir uuid) [])
    proof_ser ← lift (result (b.proof_to_string proof))
    calling (b.write_file (store_path data_file_dir uuid) proof_ser)
