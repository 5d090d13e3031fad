-- ===== src/Contacts/Tests.antt =====
-- Addresses and the address book on small inputs.
use mwc.Prelude.{
  ℕ, ◌<◌, ◌≡◌, ◌≢◌, refl, ap, get_or, true, List, [], ◌∷◌, some, Bytes, codes, ok, err, arith,
}
use mwc.ErrorKind.{external}
use mwc.Samples.{sample_crypto}
use mwc.Samples.Table.{sample_store}
use mwc.Contacts.Address.{
  mwcmqs, MqAddress, KeybaseAddress, new, from_str, to_string, stripped, public_key, parse_u16,
  show_u16, is_domain, is_username, is_topic,
}
use mwc.Contacts.Address.Port.{parse_u16-show_u16}
use mwc.Contacts.Address.Mq.{from_str-to_string}
use mwc.Contacts.Dispatch.{keybase_address, keybase_from_str, keybase_to_string, parse, show}
use mwc.Contacts.Dispatch.Keybase.{IsKeybase, keybase_from_str-to_string}
use mwc.Contacts.Dispatch.Parse.{IsValid, as_read, parse-show}
use mwc.Contacts.Book.{Contact, new_contact, get_contact, add_contact, remove_contact}
use mwc.Contacts.Book.Names.{Added, Removed, add_contact-remove_contact}

port_read_back : parse_u16 (show_u16 65535) ≡ some 65535
port_read_back = parse_u16-show_u16 65535 (omega arith)

from_str-to_string_example :
    (a : MqAddress) × (new sample_crypto mwcmqs true (some (codes "a.b")) (some 80) ≡ ok a)
    × (from_str sample_crypto mwcmqs (to_string mwcmqs a) ≡ ok (record a { port = some 80 }))
    × (from_str sample_crypto mwcmqs (stripped mwcmqs a) ≡ ok (record a { port = some 80 }))
    × (public_key sample_crypto a ≡ ok true)
unfolding is_domain
from_str-to_string_example =
    from_str-to_string sample_crypto mwcmqs true (codes "a.b") (some 80) (cc)
      (refl, (refl, (refl, tt))) (omega arith)

abbrev alice : KeybaseAddress
alice = record { username = codes "alice"; topic = some (codes "grin") }

alice-IsKeybase : IsKeybase alice
unfolding IsKeybase is_username is_topic
alice-IsKeybase = (
  (refl, (refl, (refl, (refl, (refl, tt))))),
  omega arith,
  omega arith,
  (cc, (refl, (refl, (refl, (refl, tt))))),
)

keybase_read_back : keybase_from_str (keybase_to_string alice) ≡ ok alice
keybase_read_back = keybase_from_str-to_string alice alice-IsKeybase

alice-IsValid : IsValid sample_crypto (keybase_address alice)
unfolding IsValid
alice-IsValid = alice-IsKeybase

parse-show_example :
    (parse sample_crypto (show (keybase_address alice))
      ≡ ok (as_read sample_crypto (keybase_address alice)))
    × (show (as_read sample_crypto (keybase_address alice)) ≡ show (keybase_address alice))
parse-show_example = parse-show sample_crypto (keybase_address alice) alice-IsValid

nobody : get_contact sample_crypto sample_store [] (codes "a") ≡ err (external (codes "not found"))
unfolding get_contact
nobody = refl

abbrev alone : List (Bytes × Contact)
alone = (b'X' ∷ codes "b", new_contact (codes "b") (keybase_address alice)) ∷ []

smaller : (a b : ℕ) → a < b → a ≢ b
smaller a b h e = absurd (omega arith)

apart : codes "a" ≢ codes "b"
apart h = smaller b'a' b'b' (omega arith) (ap (λ s. get_or s 0 0) h)

add_contact-remove_contact_example :
    Added sample_crypto sample_store alone
      (new_contact (codes "a") (keybase_address alice))
      (codes "b")
      (new_contact (codes "a") (keybase_address alice))
      (add_contact sample_crypto sample_store
        (new_contact (codes "a") (keybase_address alice))
        alone)
    × Removed sample_crypto sample_store alone
        (codes "a")
        (codes "b")
        (remove_contact sample_crypto sample_store (codes "a") alone)
add_contact-remove_contact_example =
    add_contact-remove_contact sample_crypto sample_store alone (codes "a") (codes "b")
      (keybase_address alice) (keybase_address alice) alice-IsValid apart
