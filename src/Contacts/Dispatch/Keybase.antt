-- ===== src/Contacts/Dispatch/Keybase.antt =====
-- Keybase addresses are read back from their text (src/contacts/types.rs).
use mwc.Prelude.{
  ℕ, ◌<◌, ◌≤◌, ◌≡◌, ◌≢◌, refl, true, false, ◌&&◌, [], ◌∷◌, ◌++◌, append-nil, Option, none, some,
  Bytes, codes, length, leb, is_empty, ok, arith,
}
use mwc.Contacts.Address.{KeybaseAddress, is_username, is_topic, span}
use mwc.Contacts.Address.Chars.{Of, all_in-Of, span_run, span_all}
use mwc.Contacts.Address.Mq.{drop_scheme_front}
use mwc.Contacts.Dispatch.{match_topic, match_keybase, keybase_from_str, keybase_to_string}

-- A user name of 1 to 16 characters, and a topic that is not empty, if any, of their classes.
unfoldable pub IsKeybase : KeybaseAddress → Type 0
IsKeybase a =
    Of is_username a.username
    × (0 < length a.username)
    × (length a.username ≤ 16)
    × elim a.topic [ none ↦ Unit | some topic ↦ (topic ≢ []) × Of is_topic topic ]

colon_splits : is_username b':' ≡ false
unfolding is_username
colon_splits = refl

not_empty : (s : Bytes) → s ≢ [] → is_empty s ≡ false
not_empty [] h = absurd (h refl)
not_empty (c ∷ s) h = refl

fits : (n : ℕ) → 0 < n → n ≤ 16 → (leb 1 n && leb n 16) ≡ true
fits n lo hi = ground arith

-- What the text behind the scheme is matched to.
match_username :
    (name rest : Bytes) (topic : Option Bytes)
    → 0 < length name
    → length name ≤ 16
    → span is_username (name ++ rest) ≡ (name, rest)
    → match_topic rest ≡ some topic
    → match_keybase (codes "keybase://" ++ (name ++ rest))
      ≡ some (record { username = name; topic = topic })
unfolding match_keybase
match_username name rest topic lo hi run h =
    rw
      (drop_scheme_front (codes "keybase://") (name ++ rest), run, fits (length name) lo hi, h, run)
      refl

topic_read : (t : Bytes) → t ≢ [] → Of is_topic t → match_topic (b':' ∷ t) ≡ some (some t)
unfolding match_topic
topic_read t hn h = rw (all_in-Of is_topic t h, not_empty t hn) refl

no_topic : match_topic [] ≡ some none
unfolding match_topic
no_topic = refl

match_written :
    (name : Bytes) (topic : Option Bytes)
    → IsKeybase (record { username = name; topic = topic })
    → match_keybase (keybase_to_string (record { username = name; topic = topic }))
      ≡ some (record { username = name; topic = topic })
unfolding IsKeybase keybase_to_string
match_written name none (chars, lo, hi, _) =
    match_username name [] none lo hi (rw (append-nil name) (span_all is_username name chars))
      no_topic
match_written name (some t) (chars, lo, hi, (hn, ht)) =
    match_username name (b':' ∷ t) (some t) lo hi
      (span_run is_username name b':' t chars colon_splits) (topic_read t hn ht)

-- Every Keybase address in the form of the program is read back from its text.
pub keybase_from_str-to_string :
    (a : KeybaseAddress) → IsKeybase a → keybase_from_str (keybase_to_string a) ≡ ok a
unfolding keybase_from_str
keybase_from_str-to_string a h = rw (match_written a.username a.topic h) refl
