-- ===== src/Contacts/Address/Cross.antt =====
-- MWCMQS addresses that are read as MWCMQ addresses (src/contacts/types.rs, src/broker/mwcmq.rs).
use mwc.Prelude.{
  ℕ, ◌<◌, ◌≡◌, ◌≢◌, refl, sym, ◌∙◌, [], ◌∷◌, ◌++◌, Bytes, bytes_eq, ◌||◌, Bool-cases, inl, inr,
  All-append, some, none, Option, ok, arith, Bool, true, not, ◌==◌, filter, append-nil,
}
use mathlib.Core.Path.{subst}
use mwc.Contacts.Address.{
  Crypto, grinbox, mwcmqs, MqAddress, default_domain, default_grinbox_port, is_base58, is_domain,
  is_digit, MqKind, show_port, shown_port, stripped, suffix, from_str, new, unwrap_or, public_key,
  show_u16,
}
use mwc.Contacts.Address.Chars.{Of}
use mwc.Contacts.Address.Key.{key_text}
use mwc.Contacts.Address.Port.{show_u16-Of}
use mwc.Contacts.Address.Suffix.{port_read, FitsU16, Shows, suffix-Shows, match_ported}
use mwc.Contacts.Address.Mq.{match_bare, captured, new_lem, stripped_lem, same_outcome}

-- The text behind the key, read by the other kind: only a domain that is not shown is another.
crossed :
    (key domain : Bytes) (port : Option ℕ) (rest : Bytes)
    → (s : Shows mwcmqs key domain port rest)
    → Shows grinbox key (unwrap_or s.captures.domain (default_domain grinbox)) port rest
crossed key domain port rest s = record {
  captures = s.captures;
  matched = s.matched;
  key_read = s.key_read;
  domain_read = refl;
  port_seen = s.port_seen;
}

-- The port that the text names, the default one where there is none.
abbrev pub port_or_default : Option ℕ → ℕ
port_or_default port = unwrap_or port default_grinbox_port

fits_or_default : (port : Option ℕ) → FitsU16 port → port_or_default port < 65536
fits_or_default none h = omega arith
fits_or_default (some p) h = h

-- `str::replace` of the quotes, by nothing
abbrev pub no_quote : ℕ → Bool
no_quote c = not (c == b'"')

abbrev pub without_quotes : Bytes → Bytes
without_quotes s = filter no_quote s

abbrev pub full_text : Bytes → Bytes → ℕ → Bytes
full_text key domain port = key ++ b'@' ∷ (domain ++ b':' ∷ show_u16 port)

-- A text in quotes, as `{:?}` writes one of plain characters.
abbrev pub quoted : Bytes → Bytes
quoted s = b'"' ∷ (s ++ b'"' ∷ [])

filter-append : (s t : Bytes) → without_quotes (s ++ t) ≡ without_quotes s ++ without_quotes t
filter-append [] t = refl
filter-append (c ∷ s) t = ground (arith, filter-append s t)

filter_all :
    (p : ℕ → Bool) (s : Bytes)
    → ((c : ℕ) → p c ≡ true → no_quote c ≡ true)
    → Of p s
    → without_quotes s ≡ s
filter_all p [] h k = refl
filter_all p (c ∷ s) h k = rw (h c k.0, filter_all p s h k.1) refl

base58_plain : (c : ℕ) → is_base58 c ≡ true → no_quote c ≡ true
unfolding is_base58
base58_plain c h = ground arith

domain_plain : (c : ℕ) → is_domain c ≡ true → no_quote c ≡ true
unfolding is_domain
domain_plain c h = ground arith

digit_plain : (c : ℕ) → is_digit c ≡ true → no_quote c ≡ true
digit_plain c h = ground arith

pub without_quotes-quoted :
    (key domain : Bytes) (port : ℕ)
    → Of is_base58 key
    → Of is_domain domain
    → without_quotes (quoted key ++ b'@' ∷ (domain ++ b':' ∷ show_u16 port))
      ≡ full_text key domain port
without_quotes-quoted key domain port hk hd =
    filter-append (key ++ b'"' ∷ []) (b'@' ∷ (domain ++ b':' ∷ show_u16 port))
    ∙ rw
        (
          filter-append key (b'"' ∷ []),
          filter_all is_base58 key base58_plain hk,
          filter-append domain (b':' ∷ show_u16 port),
          filter_all is_domain domain domain_plain hd,
          filter_all is_digit (show_u16 port) digit_plain (show_u16-Of port),
        )
        (rw (append-nil key) refl)

-- The characters of an address without its scheme.
unfoldable pub in_address : ℕ → Bool
in_address c = is_domain c || c == b'@' || c == b':'

domain-in_address : (c : ℕ) → is_domain c ≡ true → in_address c ≡ true
unfolding in_address
domain-in_address c h = rw h refl

base58-in_address : (c : ℕ) → is_base58 c ≡ true → in_address c ≡ true
unfolding is_base58 is_domain in_address
base58-in_address c h = ground arith

digit-in_address : (c : ℕ) → is_digit c ≡ true → in_address c ≡ true
unfolding is_domain in_address
digit-in_address c h = ground arith

Of-weaker : (p q : ℕ → Bool) (s : Bytes) → ((c : ℕ) → p c ≡ true → q c ≡ true) → Of p s → Of q s
Of-weaker p q [] h k = tt
Of-weaker p q (c ∷ s) h k = (h c k.0, Of-weaker p q s h k.1)

show_port-Of : (port : Option ℕ) → Of in_address (show_port port)
unfolding show_port in_address is_domain
show_port-Of none = tt
show_port-Of (some p) = elim (Bool-cases (p == default_grinbox_port)) [
  | inl usual ↦ rw usual tt
  | inr own ↦
      rw own (refl, Of-weaker is_digit in_address (show_u16 p) digit-in_address (show_u16-Of p))
]

suffix-Of :
    (kind : MqKind) (domain : Bytes) (port : Option ℕ)
    → Of is_domain domain
    → Of in_address (suffix kind domain port)
unfolding in_address is_domain
suffix-Of kind domain port h =
    elim (Bool-cases (not (bytes_eq domain (default_domain kind)) || shown_port port)) [
      | inl shown ↦ rw shown (
        refl,
        All-append _ domain (show_port port)
            (Of-weaker is_domain in_address domain domain-in_address h) (show_port-Of port),
      )
      | inr bare ↦ rw bare tt
    ]

module _ (c : Crypto) where
  open c use {PublicKey}

  -- How an MWCMQS address of a key is read by the parsers of both kinds.
  pub record CrossRead (k : PublicKey) (domain : Bytes) (port : Option ℕ) (a : MqAddress)
      : Type 0 where
    pub mq : MqAddress
    pub mqs : MqAddress
    pub mq_read : from_str c grinbox (stripped mwcmqs a) ≡ ok mq
    pub mqs_read : from_str c mwcmqs (stripped mwcmqs a) ≡ ok mqs
    pub full_read :
        from_str c grinbox (full_text a.public_key a.domain (port_or_default a.port))
        ≡ ok (record a { port = some (port_or_default port) })
    pub mq_key : public_key c mq ≡ ok k
    pub own_key : public_key c a ≡ ok k
    pub mq_same : mq.public_key ≡ a.public_key
    pub mqs_same : mqs.public_key ≡ a.public_key
    pub letters : Of is_base58 a.public_key
    pub domain_letters : Of is_domain a.domain

  pub new-CrossRead :
      (k : PublicKey) (domain : Bytes) (port : Option ℕ) (a : MqAddress)
      → domain ≢ []
      → Of is_domain domain
      → FitsU16 port
      → new c mwcmqs k (some domain) port ≡ ok a
      → CrossRead k domain port a
  unfolding public_key
  new-CrossRead k domain port a hn hd hp made =
      let (key, written, back, long, chars) = key_text c k in
      let rest = suffix mwcmqs domain port in
      let s = suffix-Shows mwcmqs key domain port hn hd hp in
      let p = port_or_default port in
      let same = same_outcome c (sym (new_lem c mwcmqs k key (some domain) port written) ∙ made) in
      subst (CrossRead k domain port) same (record {
        mq = record {
          public_key = key;
          domain = unwrap_or s.captures.domain (default_domain grinbox);
          port = port_read port;
        };
        mqs = record { public_key = key; domain = domain; port = port_read port };
        mq_read = rw (stripped_lem c mwcmqs key domain port) (
            captured c grinbox k key rest _ (key ++ rest) (port_read port) written back
              (crossed key domain (port_read port) rest s)
              (match_bare grinbox key rest long chars));
        mqs_read = rw (stripped_lem c mwcmqs key domain port) (
            captured c mwcmqs k key rest domain (key ++ rest) (port_read port) written back s
              (match_bare mwcmqs key rest long chars));
        full_read =
            captured c grinbox k key (b'@' ∷ (domain ++ b':' ∷ show_u16 p)) domain
              (full_text key domain p) (some p) written back
              (match_ported grinbox key domain p hn hd (fits_or_default port hp))
              (match_bare grinbox key (b'@' ∷ (domain ++ b':' ∷ show_u16 p)) long chars);
        mq_key = back;
        own_key = back;
        mq_same = refl;
        mqs_same = refl;
        letters = chars;
        domain_letters = hd;
      })

  -- The characters of an address as it is sent.
  pub stripped-Of :
      (k : PublicKey) (domain : Bytes) (port : Option ℕ) (a : MqAddress)
      → CrossRead k domain port a
      → Of in_address (stripped mwcmqs a)
  stripped-Of k domain port a r = rw (stripped_lem c mwcmqs a.public_key a.domain a.port) (
      All-append _ a.public_key (suffix mwcmqs a.domain a.port)
        (Of-weaker is_base58 in_address a.public_key base58-in_address r.letters)
        (suffix-Of mwcmqs a.domain a.port r.domain_letters))
