-- ===== src/Contacts/Book/Names.antt =====
-- The address book keeps one contact for each name (src/contacts/types.rs).
use mwc.Prelude.{◌≡◌, ◌≢◌, refl, ap, ◌∙◌, ◌⊎◌, inl, inr, Bytes, Outcome, ok, err, panic, diverge}
use mwc.ErrorKind.{Error, kind, external, contact_already_exists}
use mwc.Contacts.Address.{Crypto}
use mwc.Contacts.Dispatch.{Address}
use mwc.Contacts.Dispatch.Parse.{IsValid, parse-show}
use mwc.Contacts.Book.{
  Contact, new_contact, Store, read_contact, found_contact, get_contact, save_contact,
  delete_contact, batched, add_unless, add_contact, remove_contact,
}

module _ (c : Crypto) (store : Store) where
  open store use {
    Table, Batch, to_key, get_ser, batch, put_ser, delete, commit, not_found, pending,
    to_key-injective, pending-batch, pending-put, pending-put_other, pending-delete,
    pending-delete_other, get-commit,
  }

  read_back :
      (name : Bytes) (a : Address)
      → IsValid c a
      → read_contact c store (new_contact name a) ≡ ok (new_contact name a)
  unfolding read_contact new_contact
  read_back name a h =
      let (back, same) = parse-show c a h in
      rw back (ap (λ (t : Bytes). ok (record { name = name; address = t })) same)

  contact_key_ne : (name other : Bytes) → name ≢ other → to_key b'X' name ≢ to_key b'X' other
  contact_key_ne name other h e = h (to_key-injective b'X' name other e)

  -- The store does not make the batch, does not take its change, or does not commit it.
  pub data Refused (change : Batch → Error ⊎ Batch) (t : Table) (e : Error) : Type 0 where
    at_batch : batch t ≡ inl e → Refused change t e
    at_change : (b : Batch) → batch t ≡ inr b → change b ≡ inl e → Refused change t e
    at_commit :
        (b b' : Batch)
        → batch t ≡ inr b
        → change b ≡ inr b'
        → commit b' ≡ inl e
        → Refused change t e

  data Batched (change : Batch → Error ⊎ Batch) (t : Table)
      : Outcome Error (Unit {0}) × Table → Type 0 where
    refused : (e : Error) → Refused change t e → Batched change t (err e, t)
    done :
        (b b' : Batch) (t' : Table)
        → batch t ≡ inr b
        → change b ≡ inr b'
        → commit b' ≡ inr t'
        → Batched change t (ok tt, t')

  sum_cases : {A : Type 0} (r : Error ⊎ A) → ((e : Error) × (r ≡ inl e)) ⊎ ((a : A) × (r ≡ inr a))
  sum_cases (inl e) = inl (e, refl)
  sum_cases (inr a) = inr (a, refl)

  batched-Batched :
      (change : Batch → Error ⊎ Batch) (t : Table) → Batched change t (batched c store change t)
  batched-Batched change t = elim (sum_cases (batch t)) [
    | inl (e, h) ↦ rw h (Batched.refused e (Refused.at_batch h))
    | inr (b, h) ↦ elim (sum_cases (change b)) [
      | inl (e, k) ↦ rw (h, k) (Batched.refused e (Refused.at_change b h k))
      | inr (b', k) ↦ elim (sum_cases (commit b')) [
        | inl (e, l) ↦ rw (h, k, l) (Batched.refused e (Refused.at_commit b b' h k l))
        | inr (t', l) ↦ rw (h, k, l) (Batched.done b b' t' h k l)
      ]
    ]
  ]

  -- How adding a contact to a table comes back, by its result and the table afterwards.
  pub Added : Table → Contact → Bytes → Contact → Outcome Error (Unit {0}) × Table → Type 0
  Added t k other again (ok u, t') =
      ((e : Error) × (get_contact c store t k.name ≡ err e))
      × (get_contact c store t' k.name ≡ ok k)
      × (get_contact c store t' other ≡ get_contact c store t other)
      × (add_contact c store again t' ≡ (err (kind (contact_already_exists k.name)), t'))
  Added t k other again (err e, t') =
      (t' ≡ t)
      × (((found : Contact) × (get_contact c store t k.name ≡ ok found)
            × (e ≡ kind (contact_already_exists k.name)))
          ⊎ Refused (save_contact c store k) t e)
  Added t k other again (panic, t') = (t' ≡ t) × (get_contact c store t k.name ≡ panic)
  Added t k other again (diverge, t') = (t' ≡ t) × (get_contact c store t k.name ≡ diverge)

  saved-Added :
      (t : Table) (name other : Bytes) (a b : Address) (e : Error)
      (r : Outcome Error (Unit {0}) × Table)
      → IsValid c a
      → name ≢ other
      → get_contact c store t name ≡ err e
      → Batched (save_contact c store (new_contact name a)) t r
      → Added t (new_contact name a) other (new_contact name b) r
  unfolding Added new_contact get_contact add_contact
  saved-Added t name other a b e _ valid apart missing (Batched.refused e' h) = (refl, inr h)
  saved-Added t name other a b e _ valid apart missing (Batched.done x x' t' h k l) =
      let key = to_key b'X' name in
      let there = get-commit x' t' key l ∙ pending-put x x' key (new_contact name a) k in
      let here = ap (found_contact c store) there ∙ read_back name a valid in
      let elsewhere =
        get-commit x' t' (to_key b'X' other) l
        ∙ pending-put_other x x' key (to_key b'X' other) (new_contact name a)
            (contact_key_ne name other apart) k
        ∙ pending-batch t x (to_key b'X' other) h in
      (
        (e, missing),
        here,
        ap (found_contact c store) elsewhere,
        ap (λ (r : Outcome Error Contact). add_unless c store (new_contact name b) r t') here,
      )

  looked_up-Added :
      (t : Table) (name other : Bytes) (a b : Address) (found : Outcome Error Contact)
      → IsValid c a
      → name ≢ other
      → get_contact c store t name ≡ found
      → Added t
          (new_contact name a)
          other
          (new_contact name b)
          (add_unless c store (new_contact name a) found t)
  unfolding Added new_contact
  looked_up-Added t name other a b (ok k) valid apart h = (refl, inl (k, h, refl))
  looked_up-Added t name other a b (err e) valid apart h =
      saved-Added t name other a b e _ valid apart h
        (batched-Batched (save_contact c store (new_contact name a)) t)
  looked_up-Added t name other a b panic valid apart h = (refl, h)
  looked_up-Added t name other a b diverge valid apart h = (refl, h)

  added :
      (t : Table) (name other : Bytes) (a b : Address)
      → IsValid c a
      → name ≢ other
      → Added t
          (new_contact name a)
          other
          (new_contact name b)
          (add_contact c store (new_contact name a) t)
  unfolding add_contact new_contact
  added t name other a b valid apart =
      looked_up-Added t name other a b (get_contact c store t name) valid apart refl

  -- How removing a name comes back.
  pub Removed : Table → Bytes → Bytes → Outcome Error (Unit {0}) × Table → Type 0
  Removed t name other (ok u, t') =
      (get_contact c store t' name ≡ err (external not_found))
      × (get_contact c store t' other ≡ get_contact c store t other)
  Removed t name other (err e, t') = (t' ≡ t) × Refused (delete_contact c store name) t e
  Removed t name other (panic, t') = ⊥
  Removed t name other (diverge, t') = ⊥

  deleted-Removed :
      (t : Table) (name other : Bytes) (r : Outcome Error (Unit {0}) × Table)
      → name ≢ other
      → Batched (delete_contact c store name) t r
      → Removed t name other r
  unfolding Removed get_contact
  deleted-Removed t name other _ apart (Batched.refused e h) = (refl, h)
  deleted-Removed t name other _ apart (Batched.done b b' t' h k l) =
      let key = to_key b'X' name in
      let key' = to_key b'X' other in
      let gone = get-commit b' t' key l ∙ pending-delete b b' key k in
      let elsewhere =
        get-commit b' t' key' l
        ∙ pending-delete_other b b' key key' (contact_key_ne name other apart) k
        ∙ pending-batch t b key' h in
      (ap (found_contact c store) gone, ap (found_contact c store) elsewhere)

  removed :
      (t : Table) (name other : Bytes)
      → name ≢ other
      → Removed t name other (remove_contact c store name t)
  unfolding remove_contact
  removed t name other apart =
      deleted-Removed t name other _ apart (batched-Batched (delete_contact c store name) t)

  -- Whatever the store answers. Adding a contact with a valid address comes back with success if the
  -- name gave an error before: then the name gives the contact, every other name gives what it gave,
  -- and adding the name again with any address is an error that changes nothing. It comes back with an
  -- error and no change if the name had a contact or the store refused the batch, and with a panic
  -- only if the reading of the name panics. Removing a name comes back with success, and then the
  -- name is not found and every other name gives what it gave; or with an error and no change, if the
  -- store refused the batch.
  pub add_contact-remove_contact :
      (t : Table) (name other : Bytes) (a b : Address)
      → IsValid c a
      → name ≢ other
      → Added t
          (new_contact name a)
          other
          (new_contact name b)
          (add_contact c store (new_contact name a) t)
        × Removed t name other (remove_contact c store name t)
  add_contact-remove_contact t name other a b valid apart =
      (added t name other a b valid apart, removed t name other apart)
