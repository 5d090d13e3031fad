-- ===== src/Contacts/Address/Suffix.antt =====
-- What stands behind the key in the text of a message queue address (src/contacts/types.rs).
use mwc.Prelude.{
  ℕ, ◌<◌, ◌≡◌, ◌≢◌, refl, sym, true, false, not, [], ◌∷◌, ◌++◌, Bytes, some, none, if◌then◌else◌,
  Option, ok, ◌==◌, bytes_eq, Bool-cases, inl, inr, is_empty, bytes_eq→eq, append-nil,
}
use mwc.Contacts.Address.{
  MqKind, Captures, default_domain, default_grinbox_port, is_domain, match_domain, match_port,
  show_port, suffix, read_port, show_u16, unwrap_or,
}
use mwc.Contacts.Address.Chars.{Of, all_in-Of, span_run, span_all}
use mwc.Contacts.Address.Port.{show_u16-Of, read_port-show_u16}

-- A port that the text shows is read back; the default one is left out of it.
abbrev pub port_read : Option ℕ → Option ℕ
port_read none = none
port_read (some p) = if p == default_grinbox_port then none else some p

abbrev pub FitsU16 : Option ℕ → Type 0
FitsU16 none = Unit
FitsU16 (some p) = p < 65536

-- The text behind the key is matched, and gives the domain and the port.
pub record Shows (kind : MqKind) (key domain : Bytes) (port : Option ℕ) (rest : Bytes)
    : Type 0 where
  pub captures : Captures
  pub matched : match_domain key rest ≡ some captures
  pub key_read : captures.key ≡ key
  pub domain_read : unwrap_or captures.domain (default_domain kind) ≡ domain
  pub port_seen : read_port captures.port ≡ ok port

pub not_empty : (s : Bytes) → s ≢ [] → not (is_empty s) ≡ true
not_empty [] h = absurd (h refl)
not_empty (c ∷ s) h = refl

match_nothing :
    (kind : MqKind) (key domain : Bytes)
    → bytes_eq domain (default_domain kind) ≡ true
    → Shows kind key domain none []
match_nothing kind key domain h = record {
  captures = record { key = key; domain = none; port = none };
  matched = unfold match_domain in refl;
  key_read = refl;
  domain_read = sym (bytes_eq→eq _ _ h);
  port_seen = unfold read_port in refl;
}

match_named :
    (kind : MqKind) (key domain : Bytes)
    → domain ≢ []
    → Of is_domain domain
    → Shows kind key domain none (b'@' ∷ domain)
match_named kind key domain hn hd = record {
  captures = record { key = key; domain = some domain; port = none };
  matched =
      unfold match_domain match_port in rw (span_all is_domain domain hd, not_empty domain hn);
  key_read = refl;
  domain_read = refl;
  port_seen = unfold read_port in refl;
}

pub colon_splits : is_domain b':' ≡ false
unfolding is_domain
colon_splits = refl

pub match_ported :
    (kind : MqKind) (key domain : Bytes) (p : ℕ)
    → domain ≢ []
    → Of is_domain domain
    → p < 65536
    → Shows kind key domain (some p) (b'@' ∷ (domain ++ b':' ∷ show_u16 p))
match_ported kind key domain p hn hd hp = record {
  captures = record { key = key; domain = some domain; port = some (show_u16 p) };
  matched =
      unfold match_domain match_port in
      rw (
        span_run is_domain domain b':' (show_u16 p) hd colon_splits,
        not_empty domain hn,
        all_in-Of _ (show_u16 p) (show_u16-Of p),
      );
  key_read = refl;
  domain_read = refl;
  port_seen = read_port-show_u16 p hp;
}

pub suffix-Shows :
    (kind : MqKind) (key domain : Bytes) (port : Option ℕ)
    → domain ≢ []
    → Of is_domain domain
    → FitsU16 port
    → Shows kind key domain (port_read port) (suffix kind domain port)
unfolding show_port
suffix-Shows kind key domain none hn hd hp =
    elim (Bool-cases (bytes_eq domain (default_domain kind))) [
      | inl same ↦ rw same (match_nothing kind key domain same)
      | inr other ↦ rw (other, append-nil domain) (match_named kind key domain hn hd)
    ]
suffix-Shows kind key domain (some p) hn hd hp = elim (Bool-cases (p == default_grinbox_port)) [
  | inl usual ↦ elim (Bool-cases (bytes_eq domain (default_domain kind))) [
    | inl same ↦ rw (usual, same) (match_nothing kind key domain same)
    | inr other ↦ rw (usual, other, append-nil domain) (match_named kind key domain hn hd)
  ]
  | inr own ↦ elim (Bool-cases (bytes_eq domain (default_domain kind))) [
    | inl same ↦ rw (own, same) (match_ported kind key domain p hn hd hp)
    | inr other ↦ rw (own, other) (match_ported kind key domain p hn hd hp)
  ]
]
