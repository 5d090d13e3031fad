-- ===== src/Contacts/Address/SameKey.antt =====
-- A text that is read as an address of both kinds is read with the same key by both
-- (src/contacts/types.rs).
use mwc.Prelude.{
  ◌≡◌, refl, ap, sym, ◌∙◌, inl, inr, Bool, true, false, ◌&&◌, [], ◌∷◌, ◌++◌, Option, none, some,
  Bool-cases, Option-cases, Bytes, codes, strip_prefix, length, take, drop, ◌==◌, arith, Outcome,
  ok, bind_ok, ok_unique, ended, ok_or, ok_or_ok, ended_ok,
}
use mwc.ErrorKind.{ErrorKind, grinbox_address_parsing_error}
use mwc.Contacts.Address.{
  Crypto, MqKind, grinbox, mwcmqs, MqAddress, Captures, scheme, is_base58, is_domain, all_in, span,
  drop_scheme, match_port, match_domain, match_mq, read_port, version_bytes, key_from_base58_check,
  key_to_base58_check, new, from_captures, from_str,
}

strip_prefix_front : (p s rest : Bytes) → strip_prefix p s ≡ some rest → s ≡ p ++ rest
strip_prefix_front [] s rest h = cc
strip_prefix_front (x ∷ p) [] rest h = cc
strip_prefix_front (x ∷ p) (c ∷ s) rest h = ground (arith, strip_prefix_front p s rest)

match_port_key :
    (key domain rest : Bytes) {m : Captures} → match_port key domain rest ≡ some m → m.key ≡ key
unfolding match_port
match_port_key key domain [] h = ground arith
match_port_key key domain (c ∷ s) h = ground arith

match_domain_key : (key rest : Bytes) {m : Captures} → match_domain key rest ≡ some m → m.key ≡ key
unfolding match_domain
match_domain_key key [] h = ground arith
match_domain_key key (c ∷ s) h =
    ground (arith, match_port_key key (span is_domain s).0 (span is_domain s).1)

-- The key is the first 52 characters behind the scheme.
match_mq_key :
    (kind : MqKind) (s : Bytes) {m : Captures}
    → match_mq kind s ≡ some m
    → m.key ≡ take 52 (drop_scheme (scheme kind) s)
unfolding match_mq
match_mq_key kind s {m} h =
    let body = drop_scheme (scheme kind) s in
    elim (Bool-cases (length (take 52 body) == 52 && all_in is_base58 (take 52 body))) [
      | inl fits ↦ match_domain_key (take 52 body) (drop 52 body) (rw fits at h)
      | inr other ↦ let h' = rw other at h in cc
    ]

-- The scheme of one kind is refused by the other, since no key has a colon.
and_false : (b : Bool) → (b && false) ≡ false
and_false true = refl
and_false false = refl

grinbox_refuses : (rest : Bytes) → match_mq grinbox (codes "mwcmqs://" ++ rest) ≡ none
unfolding match_mq all_in is_base58
grinbox_refuses rest = rw (and_false (length (take 52 (codes "mwcmqs://" ++ rest)) == 52)) refl

mwcmqs_refuses : (rest : Bytes) → match_mq mwcmqs (codes "mwcmq://" ++ rest) ≡ none
unfolding match_mq all_in is_base58
mwcmqs_refuses rest = rw (and_false (length (take 52 (codes "mwcmq://" ++ rest)) == 52)) refl

abbrev found : Captures → Option Captures
found m = some m

-- What both matchers take has no scheme, and so the same key.
matched_key :
    (s : Bytes) {m n : Captures}
    → match_mq grinbox s ≡ found m
    → match_mq mwcmqs s ≡ found n
    → m.key ≡ n.key
matched_key s {m} {n} h k = elim (Option-cases (strip_prefix (scheme grinbox) s)) [
  | inr (rest, front) ↦
      let whole = strip_prefix_front (scheme grinbox) s rest front in
      let h' = rw whole at k in let no = mwcmqs_refuses rest in cc
  | inl bare ↦ elim (Option-cases (strip_prefix (scheme mwcmqs) s)) [
    | inr (rest, front) ↦
        let whole = strip_prefix_front (scheme mwcmqs) s rest front in
        let h' = rw whole at h in let no = grinbox_refuses rest in cc
    | inl bare' ↦
        let one : m.key ≡ take 52 s = rw (bare, drop_scheme) at (match_mq_key grinbox s h) in
        let two : n.key ≡ take 52 s = rw (bare', drop_scheme) at (match_mq_key mwcmqs s k) in
        one ∙ sym two
  ]
]

abbrev some_key : Bytes → Option Bytes
some_key k = some k

module _ (c : Crypto) where
  open c use {PublicKey}

  abbrev ok_address : MqAddress → Outcome ErrorKind MqAddress
  ok_address a = ok a

  same_key : {a b : MqAddress} → ok_address a ≡ ok_address b → a.public_key ≡ b.public_key
  same_key {a} {b} h = let e : a ≡ b = cc in ap (λ z. z.public_key) e

  -- The text of an address's key.
  captured_key :
      (kind : MqKind) (m : Captures) {a : MqAddress}
      → from_captures c kind m ≡ ok_address a
      → (k : PublicKey) × (key : Bytes) × (key_from_base58_check c m.key (version_bytes c) ≡ ok k)
        × (key_to_base58_check c k (version_bytes c) ≡ some key)
        × (a.public_key ≡ key)
  unfolding from_captures new
  captured_key kind m h =
      let (port, h1, r1) = bind_ok (read_port m.port) _ h in
      let (k, h2, r2) = bind_ok (key_from_base58_check c m.key (version_bytes c)) _ r1 in
      let (key, h3, r3) = bind_ok (ended (key_to_base58_check c k (version_bytes c))) _ r2 in
      (k, key, h2, ended_ok (key_to_base58_check c k (version_bytes c)) h3, sym (same_key r3))

  -- A text that both parsers take gives both the same key.
  pub from_str_same_key :
      (s : Bytes) {a b : MqAddress}
      → from_str c grinbox s ≡ ok_address a
      → from_str c mwcmqs s ≡ ok_address b
      → a.public_key ≡ b.public_key
  unfolding from_str
  from_str_same_key s h k =
      let (m, h1, r1) =
        bind_ok (ok_or (match_mq grinbox s) (grinbox_address_parsing_error s)) _ h in
      let (n, k1, s1) = bind_ok (ok_or (match_mq mwcmqs s) (grinbox_address_parsing_error s)) _ k in
      let same =
        matched_key s (ok_or_ok (match_mq grinbox s) _ h1) (ok_or_ok (match_mq mwcmqs s) _ k1) in
      let (p, key, from, to, e) = captured_key grinbox m r1 in
      let (q, key', from', to', e') = captured_key mwcmqs n s1 in
      let p_q : p ≡ q = ok_unique from (rw same from') in
      let keys : some_key key ≡ some_key key' = sym to ∙ rw p_q to' in
      e ∙ (let k : key ≡ key' = cc in k) ∙ sym e'
