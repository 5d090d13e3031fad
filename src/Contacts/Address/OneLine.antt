-- ===== src/Contacts/Address/OneLine.antt =====
-- The text of a message queue address is one line behind its scheme (src/contacts/types.rs).
use mathlib.Core.Path.{subst}
use mwc.Prelude.{
  ℕ, ◌≡◌, ◌≢◌, refl, ap, sym, ◌∙◌, inl, inr, Bool, true, not, ◌||◌, [], ◌∷◌, ◌++◌, Option, none,
  some, Bytes, length, All-append, ◌==◌, Bool-cases, ok, bytes_eq, arith,
}
use mwc.Contacts.Address.{
  Crypto, MqKind, MqAddress, is_digit, is_base58, is_domain, to_string, scheme, suffix, show_port,
  shown_port, show_u16, new, default_domain, default_grinbox_port,
}
use mwc.Contacts.Address.Chars.{Of}
use mwc.Contacts.Address.Key.{key_text}
use mwc.Contacts.Address.Port.{show_u16-Of}
use mwc.Contacts.Address.Suffix.{port_read}
use mwc.Contacts.Address.Mq.{new_lem}

abbrev pub not_feed : ℕ → Bool
not_feed c = not (c == 10)

-- A text that `.+$` matches.
abbrev pub Line : Bytes → Type 0
Line s = (s ≢ []) × Of not_feed s

pub Of-weaken : (p q : ℕ → Bool) (s : Bytes) → ((c : ℕ) → p c ≡ true → q c ≡ true) → Of p s → Of q s
Of-weaken p q [] k h = tt
Of-weaken p q (c ∷ s) k h = (k c h.0, Of-weaken p q s k h.1)

base58_line : (c : ℕ) → is_base58 c ≡ true → not_feed c ≡ true
unfolding is_base58
base58_line c h = ground arith

domain_line : (c : ℕ) → is_domain c ≡ true → not_feed c ≡ true
unfolding is_domain
domain_line c h = ground arith

digit_line : (c : ℕ) → is_digit c ≡ true → not_feed c ≡ true
digit_line c h = ground arith

port_line : (port : Option ℕ) → Of not_feed (show_port port)
unfolding show_port
port_line none = tt
port_line (some p) = elim (Bool-cases (p == default_grinbox_port)) [
  | inl usual ↦ rw usual tt
  | inr own ↦ rw own (refl, Of-weaken is_digit not_feed (show_u16 p) digit_line (show_u16-Of p))
]

suffix_line :
    (kind : MqKind) (domain : Bytes) (port : Option ℕ)
    → Of is_domain domain
    → Of not_feed (suffix kind domain port)
suffix_line kind domain port h =
    elim (Bool-cases (not (bytes_eq domain (default_domain kind)) || shown_port port)) [
      | inl shown ↦ rw shown (
        refl,
        All-append _ domain (show_port port) (Of-weaken is_domain not_feed domain domain_line h)
            (port_line port),
      )
      | inr hidden ↦ rw hidden tt
    ]

-- Leaving out the default port does not change what is shown.
suffix-port_read :
    (kind : MqKind) (domain : Bytes) (port : Option ℕ)
    → suffix kind domain (port_read port) ≡ suffix kind domain port
unfolding show_port
suffix-port_read kind domain none = refl
suffix-port_read kind domain (some p) = elim (Bool-cases (p == default_grinbox_port)) [
  | inl usual ↦ rw usual refl
  | inr own ↦ rw (own, own) refl
]

pub to_string-port_read :
    (kind : MqKind) (a : MqAddress)
    → to_string kind (record a { port = port_read a.port }) ≡ to_string kind a
unfolding to_string
to_string-port_read kind a =
    ap (λ s. scheme kind ++ (a.public_key ++ s)) (suffix-port_read kind a.domain a.port)

long-Line :
    (key rest : Bytes) → length key ≡ 52 → Of is_base58 key → Of not_feed rest → Line (key ++ rest)
long-Line [] rest h k l = absurd (omega arith)
long-Line (c ∷ key) rest h k l =
    (cc, All-append _ (c ∷ key) rest (Of-weaken is_base58 not_feed (c ∷ key) base58_line k) l)

module _ (c : Crypto) where
  open c use {PublicKey}

  -- An address that is made of a public key.
  unfoldable pub IsMade : MqKind → MqAddress → Type 0
  IsMade kind a = (k : PublicKey) × (new c kind k (some a.domain) a.port ≡ ok a)

  pub to_string-Line :
      (kind : MqKind) (a : MqAddress)
      → IsMade kind a
      → Of is_domain a.domain
      → (s : Bytes) × (to_string kind a ≡ scheme kind ++ s) × Line s
  unfolding to_string IsMade
  to_string-Line kind a (k, made) h =
      let (key, written, back, long, chars) = key_text c k in
      let e = sym (new_lem c kind k key (some a.domain) a.port written) ∙ made in
      let same : key ≡ a.public_key = cc in
      (
        a.public_key ++ suffix kind a.domain a.port,
        refl,
        subst (λ t. Line (t ++ suffix kind a.domain a.port)) same
            (long-Line key _ long chars (suffix_line kind a.domain a.port h)),
      )
