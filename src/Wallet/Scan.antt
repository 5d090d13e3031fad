-- ===== src/Wallet/Scan.antt =====
-- `scan_outputs` of src/wallet/api/restore.rs. The node's answers, the hashes and the rewinding of a
-- proof are not under src/; the lines of the result file are the model's result.
pub mod Complete
use mwc.Prelude.{
  ℕ, zero, suc, ◌+◌, List, [], ◌∷◌, ◌++◌, Option, none, some, Bytes, codes, ◌==◌, if◌then◌else◌,
  Outcome, ok, err, diverge, ◌>>=◌, ok_or,
}
use mwc.ErrorKind.{Error, kind, external, generic_error}

abbrev pub batch_size : ℕ
batch_size = 1000

-- `(commit, proof, _, height, mmr_index)`
pub record ChainOutput : Type 0 where
  pub commit : Bytes
  pub proof : Bytes
  pub height : ℕ
  pub mmr_index : ℕ

pub record PubKeyInfo : Type 0 where
  pub pub_key_hex : Bytes
  pub rewind_hash : Bytes

-- What `get_outputs_by_pmmr_index` gives.
pub record Page : Type 0 where
  pub highest_index : ℕ
  pub last_retrieved_index : ℕ
  pub outputs : List ChainOutput

-- A line of the result file.
pub record FoundLine : Type 0 where
  pub pub_key_hex : Bytes
  pub commit : Bytes
  pub amount : ℕ
  pub height : ℕ
  pub mmr_index : ℕ

-- `blake2b` and `SecretKey::from_slice`, the rewinding, and the text of the error.
module _ {Nonce : Type 0} (nonce_of : Bytes → Bytes → Option Nonce)
    (rewind : Bytes → Nonce → Bytes → Option ℕ) (bad_nonce : Bytes) where
  -- The loop over the keys, for one output.
  unfoldable pub scan_keys : ChainOutput → List PubKeyInfo → Outcome Error (List FoundLine)
  scan_keys output [] = ok []
  scan_keys output (pk ∷ pks) = do
    nonce ← ok_or (nonce_of output.commit pk.rewind_hash) (kind (generic_error bad_nonce))
    rest ← scan_keys output pks
    elim (rewind output.commit nonce output.proof) [
      | none ↦ ok rest
      | some value ↦ ok (
          record {
            pub_key_hex = pk.pub_key_hex;
            commit = output.commit;
            amount = value;
            height = output.height;
            mmr_index = output.mmr_index;
          }
          ∷ rest)
    ]

  -- The loop over a page's outputs.
  unfoldable pub scan_page : List PubKeyInfo → List ChainOutput → Outcome Error (List FoundLine)
  scan_page pks [] = ok []
  scan_page pks (output ∷ outputs) = do
    found ← scan_keys output pks
    rest ← scan_page pks outputs
    ok (found ++ rest)

  -- The loop over the pages, in the given rounds.
  pub scan_loop :
      (ℕ → ℕ → Outcome Error Page) → List PubKeyInfo → ℕ → ℕ → Outcome Error (List FoundLine)
  scan_loop node pks zero start_index = diverge
  scan_loop node pks (suc rounds) start_index = do
    page ← node start_index batch_size
    found ← scan_page pks page.outputs
    if page.highest_index == page.last_retrieved_index then ok found else (do
      rest ← scan_loop node pks rounds (page.last_retrieved_index + 1)
      ok (found ++ rest))

  pub scan_outputs :
      (ℕ → ℕ → Outcome Error Page) → List PubKeyInfo → ℕ → Outcome Error (List FoundLine)
  scan_outputs node pks rounds = scan_loop node pks rounds 1
