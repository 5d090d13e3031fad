-- ===== src/Samples/Library.antt =====
-- A small wallet library, for the tests. Its state is the text that was written last.
use mwc.Prelude.{
  ℕ, ◌≡◌, refl, ap, sym, ◌∙◌, ◌⊎◌, Bool, true, false, not, ◌&&◌, List, [], ◌∷◌, none, some, inl,
  inr, Bytes, codes, bytes_eq, bytes_eq→eq, ◌==◌, if◌then◌else◌,
}
use mwc.ErrorKind.{Error, external}
use mwc.Paths.{PathBuf}
use mwc.Wallet.Session.Proofs.{store_path}
use mwc.Effects.{Call}
use mwc.Proof.Evidence.{TxProof}
use mwc.Config.{Wallet713Config, mainnet, default}
use mwc.Wallet.Ledger.{TxLogEntry, tx_sent}
use mwc.Wallet.Library.{Library, Context}
use mwc.Wallet.Session.{Wallet, World}

pub record Slip : Type 0 where
  pub amount : ℕ
  pub num_participants : ℕ
  pub participant_data : ℕ
  pub inputs : ℕ

abbrev pub sample_proof : TxProof Bool
sample_proof = record {
  address = record { public_key = codes "k"; domain = codes "d"; port = none };
  message = codes "m";
  challenge = [];
  signature = true;
  key = codes "key";
  amount = 0;
  fee = 0;
  inputs = [];
  outputs = [];
}

abbrev entry : TxLogEntry
entry = record {
  parent_key_id = [];
  id = 4;
  tx_type = tx_sent;
  num_outputs = 1;
  amount_credited = 0;
  tx_slate_id = some (codes "id");
  kernel_excess = none;
}

-- An answer without a change.
abbrev answer : {A : Type 0} → A → Call Bytes A
answer a s = (inr a, s)

abbrev done : Call Bytes (Unit {0})
done = answer tt

abbrev failing : {A : Type 0} → Call Bytes A
failing s = (inl (external (codes "failed")), s)

abbrev pub context : Context
context = record { amount = 5; fee = 1; input_commits = codes "i" ∷ []; output_commits = [] }

-- A payment of 13 is not received, and a wallet is opened without a passphrase only.
-- The one file of the library, and the test for it.
abbrev pub the_file : PathBuf
the_file = store_path (codes "/data") (codes "id")

abbrev same_names : List Bytes → List Bytes → Bool
same_names [] [] = true
same_names [] (w ∷ ws) = false
same_names (v ∷ vs) [] = false
same_names (v ∷ vs) (w ∷ ws) = bytes_eq v w && same_names vs ws

abbrev same_root : Bool → Bool → Bool
same_root true b = b
same_root false b = not b

abbrev pub same_path : PathBuf → PathBuf → Bool
same_path p q = same_root p.absolute q.absolute && same_names p.components q.components

abbrev pub no_file : Error ⊎ Bytes
no_file = inl (external (codes "no file"))

abbrev pub no_write : Error ⊎ Unit {0}
no_write = inl (external (codes "no file"))

both : (a b : Bool) → (a && b) ≡ true → (a ≡ true) × (b ≡ true)
both true true h = (refl, refl)
both true false h = cc
both false b h = cc

same_names-eq : (vs ws : List Bytes) → same_names vs ws ≡ true → vs ≡ ws
same_names-eq [] [] h = refl
same_names-eq [] (w ∷ ws) h = cc
same_names-eq (v ∷ vs) [] h = cc
same_names-eq (v ∷ vs) (w ∷ ws) h =
    let (e, f) = both (bytes_eq v w) (same_names vs ws) h in
    ap (λ x. x ∷ vs) (bytes_eq→eq v w e) ∙ ap (λ x. w ∷ x) (same_names-eq vs ws f)

same_root-eq : (a b : Bool) → same_root a b ≡ true → a ≡ b
same_root-eq true b h = sym h
same_root-eq false true h = cc
same_root-eq false false h = refl

abbrev path_of : Bool → List Bytes → PathBuf
path_of absolute ws = record { absolute = absolute; components = ws }

pub same_path-eq : (p q : PathBuf) → same_path p q ≡ true → p ≡ q
same_path-eq p q h =
    let (e, f) = both (same_root p.absolute q.absolute) (same_names p.components q.components) h in
    ap (λ x. path_of x p.components) (same_root-eq p.absolute q.absolute e)
    ∙ ap (λ x. path_of q.absolute x) (same_names-eq p.components q.components f)

abbrev pub sample_library : Library Slip Bool
sample_library = record {
  State = Bytes;
  Transaction = ℕ;
  Output = ℕ;
  WalletInfo = ℕ;
  Seed = ℕ;
  amount = λ s. s.amount;
  num_participants = λ s. s.num_participants;
  participant_data = λ s. s.participant_data;
  inputs = λ s. s.inputs;
  tx = λ s. s.amount;
  id = λ s. codes "id";
  verify_messages = λ s. inr tt;
  ser_vec = λ n. some (n ∷ []);
  height = λ n. n;
  wallet_inst = done;
  parent_key_id = λ s. codes "key";
  get_data_file_dir = λ s. codes "/data";
  accounts = answer [];
  new_acct_path = λ label. answer label;
  rename_acct_path = λ accts old new. done;
  retrieve_txs = λ id slate_id key start len. answer (entry ∷ []);
  retrieve_outputs = λ spent tx key start len. answer (3 ∷ 7 ∷ []);
  init_send_tx = λ args outputs n.
      answer
        (record { amount = args.amount; num_participants = 2; participant_data = 1; inputs = 1 });
  process_invoice_tx = λ slate args. answer (record slate { participant_data = 2; inputs = 1 });
  issue_invoice_tx = λ args n.
      answer
        (record { amount = args.amount; num_participants = 2; participant_data = 1; inputs = 0 });
  receive_tx = λ slate address key_id amounts account message.
      if slate.amount == 13 then failing else answer (record slate { participant_data = 2 });
  tx_lock_outputs = λ slate address id. done;
  finalize_tx = λ slate. answer (record slate { num_participants = 0 }, context);
  finalize_invoice_tx = λ slate. failing;
  get_stored_tx_by_uuid = λ uuid. answer 9;
  get_chain_tip = failing;
  last_confirmed_height = answer 7;
  save_last_scanned_blocks = λ height blocks. done;
  update_wallet_state = answer true;
  cancel_tx = λ id slate_id. done;
  scan = λ height delete. done;
  dump_wallet_data = λ file. done;
  retrieve_summary_info = λ refresh confirmations. answer (refresh, 0);
  start_updater_console_thread = done;
  post_tx = λ hex fluff s. (inr tt, hex);
  seed_file_exists = λ s path. inr true;
  seed_from_file = λ path passphrase. if bytes_eq passphrase [] then answer 0 else failing;
  init_file_impl = λ path passphrase create_file show seed. answer 0;
  recover_from_phrase = λ path words passphrase. done;
  new_wallet = λ uri secret. done;
  lc_provider = done;
  set_top_level_directory = λ path. done;
  open_wallet = λ dir passphrase. done;
  close_wallet = done;
  set_parent_key_id_by_name = λ account. done;
  spawn_updater = λ frequency. done;
  join_updater = done;
  create_dir_all = λ path. done;
  file_exists = λ s path. same_path path the_file;
  read_file = λ path s. (if same_path path the_file then inr s else no_file, s);
  write_file = λ path text s. if same_path path the_file then (inr tt, text) else (no_write, s);
  proof_to_string = λ p. inr (codes "proof");
  proof_from_str = λ text. inr sample_proof;
}

abbrev pub sample_config : Wallet713Config Bool
sample_config = record (default mainnet) {
  wallet713_data_path = codes "wallets/main";
  config_home = some (codes "/home/me/.mwc713/main/wallet713.toml");
  grinbox_address_key = some true;
}

abbrev pub open_wallet : Wallet
open_wallet = record {
  active_account = codes "default";
  backend = true;
  max_auto_accept_invoice = some 10;
  updater_running = false;
  updater_handler = false;
}

-- An open wallet, and the slate of a call.
abbrev pub world : Slip → World sample_library
world slate = record {
  wallet = open_wallet;
  held = false;
  lib = [];
  slate = slate;
  tx_proof = some sample_proof;
}

-- A payment that comes in, an invoice, and a slate that comes back.
abbrev pub payment : ℕ → Slip
payment n = record { amount = n; num_participants = 2; participant_data = 1; inputs = 1 }

abbrev pub invoice : ℕ → Slip
invoice n = record { amount = n; num_participants = 2; participant_data = 1; inputs = 0 }

abbrev pub signed : Slip
signed = record { amount = 5; num_participants = 2; participant_data = 2; inputs = 1 }
