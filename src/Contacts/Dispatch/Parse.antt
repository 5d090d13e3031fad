-- ===== src/Contacts/Dispatch/Parse.antt =====
-- `Address::parse` reads back the text of an address of every kind (src/contacts/types.rs).
use mathlib.Core.Path.{subst}
use mwc.Prelude.{
  ℕ, ◌<◌, ◌≡◌, ◌≢◌, refl, ap, sym, ◌∙◌, inl, inr, true, ◌⊎◌, [], ◌∷◌, ◌++◌, Option, none, some,
  Bytes, codes, length, All-append, ok, ok_unique, arith,
}
use mwc.Contacts.Address.{
  Crypto, MqKind, grinbox, mwcmqs, MqAddress, KeybaseAddress, is_username, is_topic, is_domain,
  to_string, from_str, scheme,
}
use mwc.Contacts.Address.Chars.{Of, all_in-Of}
use mwc.Contacts.Address.Suffix.{port_read, FitsU16}
use mwc.Contacts.Address.Mq.{from_str-to_string}
use mwc.Contacts.Address.OneLine.{
  not_feed, Line, Of-weaken, IsMade, to_string-Line, to_string-port_read,
}
use mwc.Contacts.Dispatch.{
  Address, mq_address, keybase_address, https_address, show, keybase_to_string, keybase_from_str,
  https_from_str, parse, one_line,
}
use mwc.Contacts.Dispatch.Keybase.{IsKeybase, keybase_from_str-to_string}

line : (s : Bytes) → Line s → one_line s ≡ true
line [] h = absurd (h.0 refl)
line (c ∷ s) h = all_in-Of not_feed (c ∷ s) h.1

username_line : (c : ℕ) → is_username c ≡ true → not_feed c ≡ true
unfolding is_username
username_line c h = ground arith

topic_line : (c : ℕ) → is_topic c ≡ true → not_feed c ≡ true
unfolding is_topic
topic_line c h = ground arith

name-Line :
    (name rest : Bytes)
    → 0 < length name
    → Of is_username name
    → Of not_feed rest
    → Line (name ++ rest)
name-Line [] rest h k l = absurd (omega arith)
name-Line (c ∷ name) rest h k l =
    (cc, All-append _ (c ∷ name) rest (Of-weaken is_username not_feed (c ∷ name) username_line k) l)

keybase-Line :
    (name : Bytes) (topic : Option Bytes)
    → IsKeybase (record { username = name; topic = topic })
    → (s : Bytes) × (keybase_to_string (record { username = name; topic = topic })
        ≡ codes "keybase://" ++ s)
      × Line s
unfolding IsKeybase keybase_to_string
keybase-Line name none (chars, lo, hi, _) = (name ++ [], refl, name-Line name [] lo chars tt)
keybase-Line name (some t) (chars, lo, hi, (hn, ht)) = (
  name ++ b':' ∷ t,
  refl,
  name-Line name (b':' ∷ t) lo chars (refl, Of-weaken is_topic not_feed t topic_line ht),
)

module _ (c : Crypto) where
  open c use {url_parses}

  -- A text with a scheme is dispatched on it.
  parse_keybase :
      (s : Bytes) (a : KeybaseAddress)
      → Line s
      → keybase_from_str (codes "keybase://" ++ s) ≡ ok a
      → parse c (codes "keybase://" ++ s) ≡ ok (keybase_address a)
  unfolding parse
  parse_keybase s a h e = rw (line s h, e) refl

  parse_mq :
      (kind : MqKind) (s : Bytes) (a : MqAddress)
      → Line s
      → from_str c kind (scheme kind ++ s) ≡ ok a
      → parse c (scheme kind ++ s) ≡ ok (mq_address kind a)
  unfolding parse
  parse_mq grinbox s a h e = rw (line s h, e) refl
  parse_mq mwcmqs s a h e = rw e refl

  -- Addresses as the program makes them: of a public key, with a domain and a port of their classes; a
  -- Keybase user with a topic, if any; a web address with its scheme that the URL parser accepts.
  unfoldable pub IsValid : Address → Type 0
  IsValid (mq_address kind a) =
      IsMade c kind a × (a.domain ≢ []) × Of is_domain a.domain × FitsU16 a.port
  IsValid (keybase_address a) = IsKeybase a
  IsValid (https_address uri) =
      (url_parses uri ≡ true)
      × (rest : Bytes) × Line rest
      × ((uri ≡ codes "https://" ++ rest) ⊎ (uri ≡ codes "http://" ++ rest))

  -- The default port is left out.
  unfoldable pub as_read : Address → Address
  as_read (mq_address kind a) = mq_address kind (record a { port = port_read a.port })
  as_read (keybase_address a) = keybase_address a
  as_read (https_address uri) = https_address uri

  mq_back :
      (kind : MqKind) (a : MqAddress)
      → IsMade c kind a
      → a.domain ≢ []
      → Of is_domain a.domain
      → FitsU16 a.port
      → from_str c kind (to_string kind a) ≡ ok (record a { port = port_read a.port })
  unfolding IsMade
  mq_back kind a (k, made) hn hd hp =
      let (a', made', back, _, _) = from_str-to_string c kind k a.domain a.port hn hd hp in
      subst
        (λ (b : MqAddress).
          from_str c kind (to_string kind b) ≡ ok (record b { port = port_read a.port }))
        (ok_unique made' made) back

  https_back :
      (uri rest : Bytes)
      → url_parses uri ≡ true
      → Line rest
      → (uri ≡ codes "https://" ++ rest) ⊎ (uri ≡ codes "http://" ++ rest)
      → parse c uri ≡ ok (https_address uri)
  unfolding parse https_from_str
  https_back uri rest accepted l (inl e) =
      let fine : url_parses (codes "https://" ++ rest) ≡ true = ap url_parses (sym e) ∙ accepted in
      subst (λ u. parse c u ≡ ok (https_address u)) (sym e) (rw (line rest l, fine) refl)
  https_back uri rest accepted l (inr e) =
      let fine : url_parses (codes "http://" ++ rest) ≡ true = ap url_parses (sym e) ∙ accepted in
      subst (λ u. parse c u ≡ ok (https_address u)) (sym e) (rw (line rest l, fine) refl)

  -- Every valid address is read back from its text as an address of the same kind, where the default
  -- port comes back as no port; and what is read back has the same text.
  pub parse-show :
      (a : Address) → IsValid a → (parse c (show a) ≡ ok (as_read a)) × (show (as_read a) ≡ show a)
  unfolding show as_read IsValid
  parse-show (mq_address kind a) (made, hn, hd, hp) =
      let (s, text, l) = to_string-Line c kind a made hd in
      (
        rw text (
            parse_mq kind s (record a { port = port_read a.port }) l
              (rw (← text) (mq_back kind a made hn hd hp))),
        to_string-port_read kind a,
      )
  parse-show (keybase_address a) h =
      let (s, text, l) = keybase-Line a.username a.topic h in
      (rw text (parse_keybase s a l (rw (← text) (keybase_from_str-to_string a h))), refl)
  parse-show (https_address uri) (accepted, rest, l, e) = (https_back uri rest accepted l e, refl)
