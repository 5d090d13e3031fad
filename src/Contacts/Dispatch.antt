-- ===== src/Contacts/Dispatch.antt =====
-- `Address` of src/contacts/types.rs: the Keybase and web addresses, and `Address::parse` over all kinds.
pub mod Keybase
pub mod Parse
use mwc.Prelude.{
  ℕ, Bool, true, false, not, ◌&&◌, ◌||◌, List, [], ◌∷◌, ◌++◌, Option, none, some, Bytes, codes,
  strip_prefix, length, ltb, leb, ◌==◌, if◌then◌else◌, is_empty, drop, Outcome, ok, err, ◌>>=◌,
  ◌>>◌, guard, ok_or,
}
use mwc.ErrorKind.{ErrorKind, keybase_address_parsing_error, https_address_parsing_error}
use mwc.Contacts.Address.{
  Crypto, MqKind, grinbox, mwcmqs, MqAddress, KeybaseAddress, is_username, is_topic, span, all_in,
  drop_scheme, to_string, from_str, stripped,
}

-- `:(?P<topic>[a-zA-Z0-9_-]+))?$`
pub match_topic : Bytes → Option (Option Bytes)
match_topic [] = some none
match_topic (c ∷ s) =
    if c == b':' && all_in is_topic s && not (is_empty s) then some (some s) else none

-- `^(keybase://)?(?P<username>[…]{1,16})…`
pub match_keybase : Bytes → Option KeybaseAddress
match_keybase s =
    let (username, rest) = span is_username (drop_scheme (codes "keybase://") s) in
    if leb 1 (length username) && leb (length username) 16
    then elim (match_topic rest) [
      | none ↦ none
      | some topic ↦ some (record { username = username; topic = topic })
    ]
    else none

pub keybase_from_str : Bytes → Outcome ErrorKind KeybaseAddress
keybase_from_str s = ok_or (match_keybase s) (keybase_address_parsing_error s)

unfoldable pub keybase_to_string : KeybaseAddress → Bytes
keybase_to_string a =
    codes "keybase://" ++ (a.username ++ elim a.topic [ none ↦ [] | some topic ↦ b':' ∷ topic ])

-- `Box<dyn Address>`
pub data Address : Type 0 where
  mq_address : MqKind → MqAddress → Address
  keybase_address : KeybaseAddress → Address
  https_address : Bytes → Address

pub data AddressType : Type 0 where
  grinbox_type mwcmqs_type keybase_type https_type : AddressType

pub address_type : Address → AddressType
address_type (mq_address grinbox a) = grinbox_type
address_type (mq_address mwcmqs a) = mwcmqs_type
address_type (keybase_address a) = keybase_type
address_type (https_address uri) = https_type

-- `Display`
unfoldable pub show : Address → Bytes
show (mq_address kind a) = to_string kind a
show (keybase_address a) = keybase_to_string a
show (https_address uri) = uri

-- `stripped`
pub stripped_text : Address → Bytes
stripped_text (mq_address kind a) = stripped kind a
stripped_text (keybase_address a) = a.username
stripped_text (https_address uri) = uri

-- `.+$`: no line feed
abbrev pub one_line : Bytes → Bool
one_line s = not (is_empty s) && all_in (λ c. not (c == 10)) s

abbrev pub has_scheme : Bytes → Bytes → Bool
has_scheme name s = elim (strip_prefix (name ++ codes "://") s) [
  | none ↦ false
  | some rest ↦ one_line rest
]

module _ (c : Crypto) where
  open c use {url_parses}

  pub https_from_str : Bytes → Outcome ErrorKind Bytes
  https_from_str s = do guard (url_parses s) (https_address_parsing_error s); ok s

  -- `Address::parse`; every scheme that the expression matches has a case.
  pub parse : Bytes → Outcome ErrorKind Address
  parse s =
      if has_scheme (codes "keybase") s
      then (do a ← keybase_from_str s; ok (keybase_address a))
      else if has_scheme (codes "mwcmq") s
      then (do a ← from_str c grinbox s; ok (mq_address grinbox a))
      else if has_scheme (codes "https") s || has_scheme (codes "http") s
      then (do a ← https_from_str s; ok (https_address a))
      else (do a ← from_str c mwcmqs s; ok (mq_address mwcmqs a))
