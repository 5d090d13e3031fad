-- ===== src/Contacts/Book.antt =====
-- The address book of src/contacts/types.rs on the backend of src/contacts/backend.rs. The store is
-- not under src/.
pub mod Names
use mwc.Prelude.{
  ℕ, ◌≡◌, ◌≢◌, ◌⊎◌, inl, inr, Bool, true, false, not, List, [], ◌∷◌, Option, none, some, Bytes,
  codes, bytes_eq, filter, if◌then◌else◌, Outcome, ok, err, panic, diverge, ◌>>=◌, map_err,
}
use mwc.ErrorKind.{ErrorKind, Error, kind, external, contact_already_exists}
use mwc.Effects.{Action}
use mwc.Contacts.Address.{Crypto}
use mwc.Contacts.Dispatch.{Address, show, parse}

pub record Contact : Type 0 where
  pub name : Bytes
  pub address : Bytes

-- `Contact::new`
unfoldable pub new_contact : Bytes → Address → Contact
new_contact name address = record { name = name; address = show address }

-- What src/contacts/backend.rs uses of the store library, with its documented behaviour: a table from
-- keys to entries, which is changed in batches. Every call may fail. A batch sees the table that it
-- was made of and its own changes (`pending`), and a commit that succeeds makes them the table's.
pub record Store : Type 1 where
  pub Table : Type 0
  pub Batch : Type 0
  pub to_key : ℕ → Bytes → Bytes
  pub get_ser : Table → Bytes → Error ⊎ Option Contact
  pub batch : Table → Error ⊎ Batch
  pub put_ser : Batch → Bytes → Contact → Error ⊎ Batch
  pub delete : Batch → Bytes → Error ⊎ Batch
  pub commit : Batch → Error ⊎ Table
  -- The texts of its errors
  pub not_found : Bytes
  pub corrupted_data : Bytes
  pub pending : Batch → Bytes → Error ⊎ Option Contact
  pub to_key-injective : (prefix : ℕ) (a b : Bytes) → to_key prefix a ≡ to_key prefix b → a ≡ b
  pub pending-batch :
      (t : Table) (b : Batch) (key : Bytes) → batch t ≡ inr b → pending b key ≡ get_ser t key
  pub pending-put :
      (b b' : Batch) (key : Bytes) (k : Contact)
      → put_ser b key k ≡ inr b'
      → pending b' key ≡ inr (some k)
  pub pending-put_other :
      (b b' : Batch) (key other : Bytes) (k : Contact)
      → key ≢ other
      → put_ser b key k ≡ inr b'
      → pending b' other ≡ pending b other
  pub pending-delete :
      (b b' : Batch) (key : Bytes) → delete b key ≡ inr b' → pending b' key ≡ inr none
  pub pending-delete_other :
      (b b' : Batch) (key other : Bytes)
      → key ≢ other
      → delete b key ≡ inr b'
      → pending b' other ≡ pending b other
  pub get-commit :
      (b : Batch) (t : Table) (key : Bytes) → commit b ≡ inr t → get_ser t key ≡ pending b key

module _ (c : Crypto) (store : Store) where
  open store use {
    Table, Batch, to_key, get_ser, batch, put_ser, delete, commit, not_found, corrupted_data,
  }

  abbrev pub contact_key : Bytes → Bytes
  contact_key name = to_key b'X' name

  -- `Readable::read`: the address is parsed again.
  pub read_contact : Contact → Outcome Error Contact
  read_contact entry = do
    address ← map_err (parse c entry.address) (external corrupted_data)
    ok (new_contact entry.name address)

  -- `option_to_not_found`
  abbrev pub found_contact : Error ⊎ Option Contact → Outcome Error Contact
  found_contact (inl e) = err e
  found_contact (inr none) = err (external not_found)
  found_contact (inr (some entry)) = read_contact entry

  -- `get_contact`
  unfoldable pub get_contact : Table → Bytes → Outcome Error Contact
  get_contact table name = found_contact (get_ser table (contact_key name))

  abbrev pub save_contact : Contact → Batch → Error ⊎ Batch
  save_contact contact b = put_ser b (contact_key contact.name) contact

  abbrev pub delete_contact : Bytes → Batch → Error ⊎ Batch
  delete_contact name b = delete b (contact_key name)

  -- A batch of one change: the table changes with the commit.
  abbrev pub committed : Table → Error ⊎ Table → Outcome Error (Unit {0}) × Table
  committed table (inl e) = (err e, table)
  committed table (inr next) = (ok tt, next)

  abbrev pub changed : Table → Error ⊎ Batch → Outcome Error (Unit {0}) × Table
  changed table (inl e) = (err e, table)
  changed table (inr b) = committed table (commit b)

  abbrev pub begun :
      (Batch → Error ⊎ Batch) → Table → Error ⊎ Batch → Outcome Error (Unit {0}) × Table
  begun change table (inl e) = (err e, table)
  begun change table (inr b) = changed table (change b)

  abbrev pub batched : (Batch → Error ⊎ Batch) → Action Table (Unit {0})
  batched change table = begun change table (batch table)

  -- `add_contact`; a panic of the parser is not caught.
  abbrev pub add_unless : Contact → Outcome Error Contact → Action Table (Unit {0})
  add_unless contact (ok found) table = (err (kind (contact_already_exists contact.name)), table)
  add_unless contact (err e) table = batched (save_contact contact) table
  add_unless contact panic table = (panic, table)
  add_unless contact diverge table = (diverge, table)

  pub add_contact : Contact → Action Table (Unit {0})
  add_contact contact table = add_unless contact (get_contact table contact.name) table

  -- `remove_contact`
  pub remove_contact : Bytes → Action Table (Unit {0})
  remove_contact name table = batched (delete_contact name) table
