-- ===== src/Samples/Table.antt =====
-- A store that is a list of its entries, the latest first, for the tests.
use mwc.Prelude.{
  ℕ, ◌≡◌, ◌≢◌, refl, ap, sym, ◌∙◌, inl, inr, false, Bool-cases, List, [], ◌∷◌, Option, none, some,
  ◌⊎◌, Bytes, codes, bytes_eq, bytes_eq_refl, bytes_eq→eq, bytes_ne, if◌then◌else◌,
}
use mwc.ErrorKind.{Error}
use mwc.Contacts.Book.{Contact, Store}

abbrev pub Table : Type 0
Table = List (Bytes × Contact)

abbrev pub lookup : Table → Bytes → Option Contact
lookup [] key = none
lookup (e ∷ es) key = if bytes_eq e.0 key then some e.1 else lookup es key

abbrev pub delete : Bytes → Table → Table
delete key [] = []
delete key (e ∷ es) = let rest = delete key es in if bytes_eq e.0 key then rest else e ∷ rest

lookup-delete_same : (key : Bytes) (t : Table) → lookup (delete key t) key ≡ none
lookup-delete_same key [] = refl
lookup-delete_same key (e ∷ es) = elim (Bool-cases (bytes_eq e.0 key)) [
  | inl same ↦ rw same (lookup-delete_same key es)
  | inr other ↦ rw (other, other) (lookup-delete_same key es)
]

lookup-delete_other :
    (key other : Bytes) (t : Table) → key ≢ other → lookup (delete key t) other ≡ lookup t other
lookup-delete_other key other [] h = refl
lookup-delete_other key other (e ∷ es) h = elim (Bool-cases (bytes_eq e.0 key)) [
  | inl same ↦
      let apart : bytes_eq e.0 other ≡ false =
        bytes_ne e.0 other (λ k. h (sym (bytes_eq→eq e.0 key same) ∙ k)) in
      rw (same, apart) (lookup-delete_other key other es h)
  | inr kept ↦
      rw kept
        (ap (λ r. if bytes_eq e.0 other then some e.1 else r) (lookup-delete_other key other es h))
]

abbrev pub sample_key : ℕ → Bytes → Bytes
sample_key prefix name = prefix ∷ name

pub sample_key-injective :
    (prefix : ℕ) (a b : Bytes) → sample_key prefix a ≡ sample_key prefix b → a ≡ b
sample_key-injective prefix a b h = cc

abbrev some_entry : Option Contact → Error ⊎ Option Contact
some_entry o = inr o

abbrev next : Table → Error ⊎ Table
next t = inr t

pub same : {t u : Table} → next t ≡ next u → t ≡ u
same h = cc

pub looked :
    {t u : Table} (key : Bytes)
    → next t ≡ next u
    → some_entry (lookup u key) ≡ some_entry (lookup t key)
looked key h = ap (λ (t : Table). some_entry (lookup t key)) (sym (same h))

pub lookup_front :
    (t u : Table) (key : Bytes) (k : Contact)
    → next ((key, k) ∷ t) ≡ next u
    → some_entry (lookup u key) ≡ some_entry (some k)
lookup_front t u key k h = looked key h ∙ rw (bytes_eq_refl key) refl

pub lookup_behind :
    (t u : Table) (key other : Bytes) (k : Contact)
    → key ≢ other
    → next ((key, k) ∷ t) ≡ next u
    → some_entry (lookup u other) ≡ some_entry (lookup t other)
lookup_behind t u key other k apart h = looked other h ∙ rw (bytes_ne key other apart) refl

pub lookup_gone :
    (t u : Table) (key : Bytes)
    → next (delete key t) ≡ next u
    → some_entry (lookup u key) ≡ some_entry none
lookup_gone t u key h = looked key h ∙ ap some_entry (lookup-delete_same key t)

pub lookup_left :
    (t u : Table) (key other : Bytes)
    → key ≢ other
    → next (delete key t) ≡ next u
    → some_entry (lookup u other) ≡ some_entry (lookup t other)
lookup_left t u key other apart h =
    looked other h ∙ ap some_entry (lookup-delete_other key other t apart)

abbrev pub sample_store : Store
sample_store = record {
  Table = Table;
  Batch = Table;
  to_key = sample_key;
  get_ser = λ t key. inr (lookup t key);
  batch = λ t. inr t;
  put_ser = λ t key k. inr ((key, k) ∷ t);
  delete = λ t key. inr (delete key t);
  commit = λ t. inr t;
  not_found = codes "not found";
  corrupted_data = codes "corrupted";
  pending = λ t key. inr (lookup t key);
  to_key-injective = sample_key-injective;
  pending-batch = λ t u key h. looked key h;
  pending-put = λ t u key k h. lookup_front t u key k h;
  pending-put_other = λ t u key other k apart h. lookup_behind t u key other k apart h;
  pending-delete = λ t u key h. lookup_gone t u key h;
  pending-delete_other = λ t u key other apart h. lookup_left t u key other apart h;
  get-commit = λ t u key h. looked key h;
}
