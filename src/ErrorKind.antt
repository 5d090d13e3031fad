-- ===== src/ErrorKind.antt =====
-- The error kinds of src/common/error_kind.rs. A text argument is its bytes.
use mwc.Prelude.{ℕ, Bytes, Outcome, ok, err, panic, diverge}

pub data ErrorKind : Type 0 where
  secp : ErrorKind
  model_not_found : ErrorKind
  wallet_seed_could_not_be_opened : ErrorKind
  transaction_has_no_proof : ErrorKind
  invalid_tx_id : Bytes → ErrorKind
  invalid_amount : Bytes → ErrorKind
  custom_with_no_outputs : ErrorKind
  non_custom_with_outputs : ErrorKind
  invalid_strategy : ErrorKind
  invalid_min_confirmations : Bytes → ErrorKind
  invalid_pagination_length : Bytes → ErrorKind
  invalid_tx_id_number : Bytes → ErrorKind
  invalid_tx_uuid : Bytes → ErrorKind
  invalid_pagination_start : Bytes → ErrorKind
  invalid_num_outputs : Bytes → ErrorKind
  invalid_slate_version : Bytes → ErrorKind
  wallet_unlock_failed : ErrorKind
  zero_conf_not_allowed : ErrorKind
  no_wallet : ErrorKind
  closed_listener : Bytes → ErrorKind
  invalid_respose : Bytes → ErrorKind
  already_listening : Bytes → ErrorKind
  contact_already_exists : Bytes → ErrorKind
  contact_not_found : Bytes → ErrorKind
  invalid_base58_character : ℕ → ℕ → ErrorKind
  invalid_base58_length : ErrorKind
  invalid_base58_checksum : ErrorKind
  invalid_base58_version : ErrorKind
  invalid_base58_key : ErrorKind
  number_parsing_error : ErrorKind
  unknown_address_type : Bytes → ErrorKind
  grinbox_address_parsing_error : Bytes → ErrorKind
  keybase_address_parsing_error : Bytes → ErrorKind
  https_address_parsing_error : Bytes → ErrorKind
  keybase_message_send_error : ErrorKind
  grin_wallet_receive_error : ErrorKind
  grin_wallet_verify_slate_messages_error : ErrorKind
  grin_wallet_finalize_error : ErrorKind
  grin_wallet_post_error : ErrorKind
  keybase_not_found : ErrorKind
  grinbox_websocket_abnormal_termination : ErrorKind
  does_not_accept_invoices : ErrorKind
  invoice_amount_too_big : ℕ → ErrorKind
  has_listener : ErrorKind
  wallet_already_unlocked : ErrorKind
  encryption : ErrorKind
  decryption : ErrorKind
  http_request : ErrorKind
  generic_error : Bytes → ErrorKind
  verify_proof : ErrorKind
  file_not_found : Bytes → ErrorKind
  file_unable_to_delete : Bytes → ErrorKind
  file_unable_to_create : Bytes → ErrorKind
  tx_proof_parse_address : Bytes → ErrorKind
  tx_proof_parse_public_key : ErrorKind
  tx_proof_parse_signature : Bytes → ErrorKind
  tx_proof_verify_signature : ErrorKind
  tx_proof_parse_encrypted_message : ErrorKind
  tx_proof_verify_destination : ErrorKind
  tx_proof_decryption_key : ErrorKind
  tx_proof_decrypt_message : ErrorKind
  tx_proof_parse_slate : ErrorKind

-- `failure::Error`: an error kind of the program, or an error that a library reports.
pub data Error : Type 0 where
  kind : ErrorKind → Error
  external : Bytes → Error

-- `?` on an error kind in a function that returns `Error`.
abbrev pub into {ℓ} : {A : Type ℓ} → Outcome ErrorKind A → Outcome Error A
into (ok a) = ok a
into (err e) = err (kind e)
into panic = panic
into diverge = diverge
