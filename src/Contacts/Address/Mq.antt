-- ===== src/Contacts/Address/Mq.antt =====
-- Message queue addresses are read back from their text (src/contacts/types.rs).
use mwc.Prelude.{
  ℕ, ◌+◌, ◌-◌, ◌*◌, ◌<◌, ◌≡◌, ◌≢◌, refl, ap, sym, ◌∙◌, ◌⊎◌, inl, inr, Bool-cases, ltb, [], ◌∷◌,
  ◌++◌, arith, All, take_front, drop_front, Bytes, some, none, Option, ok, length, take, drop,
  strip_prefix-append, codes, panic, Outcome,
}
use mathlib.Core.Path.{subst}
use mwc.ErrorKind.{ErrorKind}
use mwc.Contacts.Address.{
  Crypto, MqKind, grinbox, mwcmqs, MqAddress, Captures, scheme, default_domain, is_base58,
  is_domain, is_digit, u16_digits, match_mq, match_domain, match_port, to_string, stripped, suffix,
  from_str, from_captures, new, read_port, version_bytes, unwrap_or, drop_scheme, public_key,
  key_to_base58_check, key_from_base58_check, parse_u16,
}
use mwc.Contacts.Address.Chars.{Of, all_in-Of, span_run, strip_prefix-none, base58-ne-colon}
use mwc.Contacts.Address.Key.{key_text}
use mwc.Contacts.Address.Suffix.{port_read, FitsU16, Shows, suffix-Shows, colon_splits, not_empty}

match_key :
    (key rest : Bytes)
    → length key ≡ 52
    → Of is_base58 key
    → (take 52 (key ++ rest) ≡ key) × (drop 52 (key ++ rest) ≡ rest)
match_key key rest h hk = (
  ap (λ n. take n (key ++ rest)) (sym h) ∙ take_front key rest,
  ap (λ n. drop n (key ++ rest)) (sym h) ∙ drop_front key rest,
)

no_colons : (s : Bytes) → Of is_base58 s → All (λ c. c ≢ b':') s
no_colons [] h = tt
no_colons (c ∷ s) h = (base58-ne-colon c h.0, no_colons s h.1)

drop_scheme_bare :
    (kind : MqKind) (key rest : Bytes)
    → length key ≡ 52
    → Of is_base58 key
    → drop_scheme (scheme kind) (key ++ rest) ≡ key ++ rest
drop_scheme_bare grinbox key rest h hk = rw (
  strip_prefix-none (codes "mwcmq") (codes "//") key rest (omega arith) (no_colons key hk),
  drop_scheme,
)
drop_scheme_bare mwcmqs key rest h hk = rw (
  strip_prefix-none (codes "mwcmqs") (codes "//") key rest (omega arith) (no_colons key hk),
  drop_scheme,
)

pub drop_scheme_front : (p s : Bytes) → drop_scheme p (p ++ s) ≡ s
drop_scheme_front p s = rw (strip_prefix-append p s, drop_scheme)

pub match_bare :
    (kind : MqKind) (key rest : Bytes)
    → length key ≡ 52
    → Of is_base58 key
    → match_mq kind (key ++ rest) ≡ match_domain key rest
unfolding match_mq
match_bare kind key rest h hk =
    let (front, back) = match_key key rest h hk in
    rw (drop_scheme_bare kind key rest h hk, front, back, h, all_in-Of is_base58 key hk)

match_full :
    (kind : MqKind) (key rest : Bytes)
    → length key ≡ 52
    → Of is_base58 key
    → match_mq kind (scheme kind ++ (key ++ rest)) ≡ match_domain key rest
unfolding match_mq
match_full kind key rest h hk =
    let (front, back) = match_key key rest h hk in
    rw (drop_scheme_front (scheme kind) (key ++ rest), front, back, h, all_in-Of is_base58 key hk)

abbrev outcome_ok : MqAddress → Outcome ErrorKind MqAddress
outcome_ok a = ok a

-- The number of a run of digits.
abbrev pub digits_value : ℕ → Bytes → ℕ
digits_value n [] = n
digits_value n (c ∷ s) = digits_value (n * 10 + (c - b'0')) s

u16_digits_large :
    (n : ℕ) (s : Bytes) → n < 65536 → 65535 < digits_value n s → u16_digits n s ≡ none
unfolding u16_digits
u16_digits_large n [] h k = absurd (omega arith)
u16_digits_large n (c ∷ s) h k = elim (Bool-cases (ltb 65535 (n * 10 + (c - b'0')))) [
  | inl over ↦ rw over refl
  | inr fits ↦ rw fits (u16_digits_large (n * 10 + (c - b'0')) s (ground arith) k)
]

parse_u16_bad :
    (digits : Bytes) → (digits ≡ []) ⊎ (65535 < digits_value 0 digits) → parse_u16 digits ≡ none
unfolding parse_u16
parse_u16_bad [] h = refl
parse_u16_bad (c ∷ s) (inl e) = cc
parse_u16_bad (c ∷ s) (inr h) = u16_digits_large 0 (c ∷ s) (omega arith) h

match_digits :
    (key domain digits : Bytes)
    → domain ≢ []
    → Of is_domain domain
    → Of is_digit digits
    → match_domain key (b'@' ∷ (domain ++ b':' ∷ digits))
      ≡ some (record { key = key; domain = some domain; port = some digits })
unfolding match_domain match_port
match_digits key domain digits hn hd hp = rw (
  span_run is_domain domain b':' digits hd colon_splits,
  not_empty domain hn,
  all_in-Of _ digits hp,
)

module _ (c : Crypto) where
  open c use {PublicKey}

  pub captured :
      (kind : MqKind) (k : PublicKey) (key rest domain text : Bytes) (port : Option ℕ)
      → key_to_base58_check c k (version_bytes c) ≡ some key
      → key_from_base58_check c key (version_bytes c) ≡ ok k
      → Shows kind key domain port rest
      → match_mq kind text ≡ match_domain key rest
      → from_str c kind text ≡ ok (record { public_key = key; domain = domain; port = port })
  unfolding from_str from_captures new
  captured kind k key rest domain text port written back s h =
      rw (h, s.matched, s.port_seen, s.key_read, back, written, s.domain_read)

  pub new_lem :
      (kind : MqKind) (k : PublicKey) (key : Bytes) (domain : Option Bytes) (port : Option ℕ)
      → key_to_base58_check c k (version_bytes c) ≡ some key
      → new c kind k domain port
        ≡ ok (record {
          public_key = key;
          domain = unwrap_or domain (default_domain kind);
          port = port;
        })
  unfolding new
  new_lem kind k key domain port written = rw written

  pub stripped_lem :
      (kind : MqKind) (key domain : Bytes) (port : Option ℕ)
      → stripped kind (record { public_key = key; domain = domain; port = port })
        ≡ key ++ suffix kind domain port
  unfolding stripped to_string
  stripped_lem kind key domain port = drop_front (scheme kind) (key ++ suffix kind domain port)

  -- The address of any public key, with a domain that is not empty and has only the characters of
  -- a domain, and with a port below 65536 or none, is written as a text that is read back as the
  -- same address, and so is the text without the scheme; but the default port 443 comes back as no
  -- port. The key of the address is the public key.
  pub from_str-to_string :
      (kind : MqKind) (k : PublicKey) (domain : Bytes) (port : Option ℕ)
      → domain ≢ []
      → Of is_domain domain
      → FitsU16 port
      → (a : MqAddress) × (new c kind k (some domain) port ≡ ok a)
        × (from_str c kind (to_string kind a) ≡ ok (record a { port = port_read port }))
        × (from_str c kind (stripped kind a) ≡ ok (record a { port = port_read port }))
        × (public_key c a ≡ ok k)
  from_str-to_string kind k domain port hn hd hp =
      let (key, written, back, long, chars) = key_text c k in
      let rest = suffix kind domain port in
      let s = suffix-Shows kind key domain port hn hd hp in
      let a : MqAddress = record { public_key = key; domain = domain; port = port } in
      (
        a,
        new_lem kind k key (some domain) port written,
        unfold to_string in
            captured kind k key rest domain (scheme kind ++ (key ++ rest)) (port_read port) written
              back s (match_full kind key rest long chars),
        rw (stripped_lem kind key domain port) (
            captured kind k key rest domain (key ++ rest) (port_read port) written back s
              (match_bare kind key rest long chars)),
        unfold public_key in back,
      )

  read_bad :
      (kind : MqKind) (text digits : Bytes) {m : Captures}
      → match_mq kind text ≡ some m
      → m.port ≡ some digits
      → parse_u16 digits ≡ none
      → from_str c kind text ≡ panic
  unfolding from_str from_captures read_port
  read_bad kind text digits h e p = rw (h, e, p)

  -- An address of any key of 52 base 58 characters, a domain and a port of digits makes the parser
  -- panic, with and without the scheme, where the port is empty or its number is not below 65536.
  pub from_str_bad_port :
      (kind : MqKind) (key domain digits : Bytes)
      → length key ≡ 52
      → Of is_base58 key
      → domain ≢ []
      → Of is_domain domain
      → Of is_digit digits
      → (digits ≡ []) ⊎ (65535 < digits_value 0 digits)
      → (from_str c kind (key ++ b'@' ∷ (domain ++ b':' ∷ digits)) ≡ panic)
        × (from_str c kind (scheme kind ++ (key ++ b'@' ∷ (domain ++ b':' ∷ digits))) ≡ panic)
  from_str_bad_port kind key domain digits long chars hn hd hp bad =
      let rest = b'@' ∷ (domain ++ b':' ∷ digits) in
      let matched = match_digits key domain digits hn hd hp in
      let none' = parse_u16_bad digits bad in
      (
        read_bad kind (key ++ rest) digits (match_bare kind key rest long chars ∙ matched) refl
            none',
        read_bad kind (scheme kind ++ (key ++ rest)) digits
            (match_full kind key rest long chars ∙ matched) refl none',
      )

  pub same_outcome : {a b : MqAddress} → outcome_ok a ≡ outcome_ok b → a ≡ b
  same_outcome h = cc

  -- An address made of a public key is read back from its text without the scheme with the same key.
  pub stripped_read :
      (kind : MqKind) (k : PublicKey) (domain : Bytes) (port : Option ℕ) (a : MqAddress)
      → domain ≢ []
      → Of is_domain domain
      → FitsU16 port
      → new c kind k (some domain) port ≡ ok a
      → (b : MqAddress) × (from_str c kind (stripped kind a) ≡ ok b)
        × (public_key c b ≡ ok k)
        × (public_key c a ≡ ok k)
        × (b.public_key ≡ a.public_key)
  unfolding public_key
  stripped_read kind k domain port a hn hd hp made =
      let (a', made', _, back, key) = from_str-to_string kind k domain port hn hd hp in
      let same : a' ≡ a = same_outcome (sym made' ∙ made) in
      subst
        (λ a.
          (b : MqAddress) × (from_str c kind (stripped kind a) ≡ ok b)
          × (public_key c b ≡ ok k)
          × (public_key c a ≡ ok k)
          × (b.public_key ≡ a.public_key))
        same (record a' { port = port_read port }, back, key, key, refl)
