-- ===== src/Lib.antt =====
-- A verification library for mwc713, a command-line wallet for MWC.
--
-- The wallet exchanges transactions ("slates") with other wallets. An address names the other side:
-- src/contacts parses and prints addresses of four kinds and keeps an address book, whose entries are
-- addresses in their printed form. An MWCMQ or MWCMQS address holds a public key in base 58 with a
-- version and a checksum, by src/common/base58.rs. A slate is posted as an encrypted and signed
-- message, whose parts are hexadecimal texts (src/common/crypto.rs, src/common/message.rs); the
-- receiving side checks it and keeps it as a proof (src/wallet/types/tx_proof.rs). The listeners of
-- src/broker receive slates and report to a handler, which is the controller of src/main.rs: it lets
-- the wallet of src/wallet pay an invoice, receive a payment or finalise a slate, and sends the answer
-- back. The wallet is locked or open for an account, and works on an instance of the wallet library
-- behind a mutex; src/common/config.rs says where its files are. src/wallet also validates the transaction log against
-- dumps of a node, and scans the chain. src/api runs the handlers of its REST interface in threads.
--
-- The files:
--   Prelude       what the others share: lists, texts as lists of bytes, the outcome of fallible
--                 code (`ok`, `err`, `panic`, and `diverge` where a bounded loop has used up its
--                 rounds), decisions, and lemmas on them
--   ErrorKind     src/common/error_kind.rs
--   Effects       calls that change a world, with their results; which of them end (Effects.Steady)
--   Paths         what the code uses of Rust's `std::path`
--   Config        src/common/config.rs: `Wallet713Config`
--   Codec.Base58  src/common/base58.rs: `to_base58`, `from_base58` and their `_check` forms; the loops
--                 of the encoder and the decoder as functions of their buffers
--   Codec.Hex     src/common/crypto.rs: `to_hex`, `from_hex`, `split_n`
--   Contacts.Address   src/contacts/types.rs: `GrinboxAddress` and `MWCMQSAddress`, which are written
--                 twice in the source and once here, with the kind as an argument
--   Contacts.Dispatch  src/contacts/types.rs: `KeybaseAddress`, `HttpsAddress`, `Address::parse`
--   Contacts.Book      src/contacts/types.rs and src/contacts/backend.rs: the address book
--   Wallet.Ledger the fields that the code reads of the wallet library's records
--   Wallet.Merge  src/wallet/api/api.rs: `calc_best_merge`
--   Wallet.Bulk   src/wallet/api/api.rs: `txs_bulk_validate`
--   Wallet.Scan   src/wallet/api/restore.rs: `scan_outputs`
--   Wallet.Totals src/wallet/wallet.rs: `total_value`, `output_count`
--   Wallet.Library     what the code uses of the wallet library, the node and the file system
--   Config.Files  src/common/config.rs: the file; src/main.rs: `do_config`
--   Wallet.Session     src/wallet/wallet.rs: `Wallet`, and the world that its methods change: the
--                 wallet, the mutex, the library's state, and the slate and the proof given by reference
--   Wallet.Session.Proofs     src/wallet/types/tx_proof.rs: the stored proofs
--   Wallet.Session.Queries, Wallet.Session.Transactions   src/wallet/api/api.rs: the operations
--   Wallet.Session.Lifecycle, Wallet.Session.Methods      src/wallet/wallet.rs: the methods
--   Wallet.Session.Free, Wallet.Session.Fair              lemmas on what ends and keeps the wallet
--   Controller    src/main.rs: `Controller`
--   Proof.Cipher  what the code uses of cryptography, JSON and slates
--   Proof.Message src/common/message.rs: `EncryptedMessage`
--   Proof.Evidence     src/wallet/types/tx_proof.rs: `TxProof`; `post_slate` of src/broker/grinbox.rs
--   Broker.Calls  src/broker/types.rs: the calls of a handler, and the order that they promise
--   Broker.Keybase     src/broker/keybase.rs: `start`
--   Broker.Grinbox     src/broker/grinbox.rs: `subscribe` and the client's handler
--   Broker.Mwcmqs      src/broker/mwcmq.rs: `subscribe`, in three parts: an answer of the server taken
--                 apart (Reply), its messages handled (Message), and the loop around both (Poll); `post_slate` (Post)
--   Api.Executor  src/api/handlers/executor.rs: `RunHandlerInThread`, `filter_escape_symbols`
--   Api.Auth      src/api/auth.rs: `BasicAuthMiddleware`
--   Samples       concrete instances of the parameters, for the tests
-- Below a module stand its lemmas, named for what they prove; the Tests modules run the definitions on
-- small inputs.
--
-- Conventions. A text is a list of bytes. Integers are natural numbers, with the wrap-around of their
-- width written out as in a release build; an out-of-range index, a slice beyond the end and `unwrap`
-- of nothing are `panic`. An error of the type `failure::Error` is a kind of the program or a library's
-- text. The default port of an MWCMQ address is the one of a build that is not for Windows. Hashing, curve arithmetic, the cipher, JSON, URL parsing, the store, the wallet library and the
-- node are parameters: the records Crypto, Cipher and Store hold them with the documented laws that the
-- proofs use, and Samples shows that the laws can hold. The record Library holds the calls of the
-- wallet library, which end with an error or a value. Those that are given the mutex take it
-- themselves, once; locking a mutex that is held waits for ever, which is `diverge`. The thread of the
-- updater is known by its flags, and takes no turns between the calls.
--
-- Bounds. The inner loop of the base-58 encoder has no bound in the source; the model gives it as many
-- rounds as an argument says, and one more than the buffer has cells is enough. The addresses use 200
-- rounds, for buffers of at most 60 cells. The scan of the chain gets its rounds as an argument, and one
-- more than the chain has outputs is enough. The listeners run over given lists of rounds and
-- connections, of any length.
--
-- Not modelled: the publisher and subscriber around the MWCMQS broker, the command line (src/main.rs
-- besides the controller and `do_config`, src/cli), the REST handlers and their
-- routes, and the methods of the wallet that only print; the report that the bulk validation writes,
-- the display texts and all console output, and the threads that print the progress besides their
-- start. The atomic flag of RunHandlerInThread is
-- taken as a variable whose writes are seen in their order.
pub mod Prelude
pub mod ErrorKind
pub mod Effects
pub mod Paths
pub mod Codec
pub mod Contacts
pub mod Config
pub mod Wallet
pub mod Samples
pub mod Proof
pub mod Broker
pub mod Controller
pub mod Api
