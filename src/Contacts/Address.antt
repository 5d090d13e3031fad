-- ===== src/Contacts/Address.antt =====
-- The addresses of src/contacts/types.rs and the key text of src/common/crypto.rs. Each regular
-- expression is a matcher: no expression here can match in two ways, since no class holds the
-- separator that follows it. SHA-256, the curve and the URL parser are not under src/.
pub mod Chars
pub mod Key
pub mod Port
pub mod Suffix
pub mod Mq
pub mod OneLine
pub mod SameKey
pub mod Cross
mod Tests
use mwc.Prelude.{
  ℕ, zero, suc, ◌+◌, ◌-◌, ◌*◌, ◌/◌, ◌%◌, ◌≡◌, ◌≢◌, Bool, true, false, not, ◌&&◌, ◌||◌, List, [],
  ◌∷◌, ◌++◌, Option, none, some, Bytes, codes, bytes_eq, strip_prefix, length, take, drop, ltb, leb,
  ◌==◌, if◌then◌else◌, is_empty, IsByte, All, Outcome, ok, err, panic, ◌>>=◌, ◌>>◌, guard, ended,
  unwrap, ok_or,
}
use mwc.ErrorKind.{
  ErrorKind, invalid_base58_version, invalid_base58_key, grinbox_address_parsing_error,
  keybase_address_parsing_error, https_address_parsing_error,
}
use mwc.Codec.Base58.{to_base58_check, from_base58_check}

-- What the program uses of SHA-256, of the curve and of the URL parser, with their documented
-- behaviour: a hash is 32 bytes, and a key is read back from its 33 compressed bytes.
pub record Crypto : Type 1 where
  pub PublicKey : Type 0
  pub sha256 : Bytes → Bytes
  pub serialize : PublicKey → Bytes
  pub from_slice : Bytes → Option PublicKey
  pub url_parses : Bytes → Bool
  pub is_mainnet : Bool
  pub hash_length : (p : Bytes) → length (sha256 p) ≡ 32
  pub hash_bytes : (p : Bytes) → All IsByte (sha256 p)
  pub key_length : (k : PublicKey) → length (serialize k) ≡ 33
  pub key_bytes : (k : PublicKey) → All IsByte (serialize k)
  pub from_slice-serialize : (k : PublicKey) → from_slice (serialize k) ≡ some k

abbrev pub double_sha256 : (Bytes → Bytes) → Bytes → Bytes
double_sha256 sha256 payload = sha256 (sha256 payload)

-- The rounds given to the loops of `to_base58`.
abbrev pub base58_fuel : ℕ
base58_fuel = 200

abbrev pub default_grinbox_port : ℕ
default_grinbox_port = 443

-- The two kinds of message queue addresses, whose code is the same but for these constants.
pub data MqKind : Type 0 where
  grinbox mwcmqs : MqKind

abbrev pub scheme : MqKind → Bytes
scheme grinbox = codes "mwcmq://"
scheme mwcmqs = codes "mwcmqs://"

abbrev pub default_domain : MqKind → Bytes
default_domain grinbox = codes "mq.mwc.mw"
default_domain mwcmqs = codes "mqs.mwc.mw"

pub record MqAddress : Type 0 where
  pub public_key : Bytes
  pub domain : Bytes
  pub port : Option ℕ

pub record KeybaseAddress : Type 0 where
  pub username : Bytes
  pub topic : Option Bytes

abbrev pub between : ℕ → ℕ → ℕ → Bool
between lo hi c = leb lo c && leb c hi

abbrev pub is_digit : ℕ → Bool
is_digit = between b'0' b'9'

abbrev pub is_alpha : ℕ → Bool
is_alpha c = between b'a' b'z' c || between b'A' b'Z' c

-- `[123456789ABC…xyz]`, without 0, I, O and l
unfoldable pub is_base58 : ℕ → Bool
is_base58 c =
    between b'1' b'9' c || is_alpha c && not (c == b'I') && not (c == b'O') && not (c == b'l')

-- `[a-zA-Z0-9\.]`
unfoldable pub is_domain : ℕ → Bool
is_domain c = is_alpha c || is_digit c || c == b'.'

-- `[0-9A-Za-z_]`
unfoldable pub is_username : ℕ → Bool
is_username c = is_alpha c || is_digit c || c == b'_'

-- `[a-zA-Z0-9_-]`
unfoldable pub is_topic : ℕ → Bool
is_topic c = is_alpha c || is_digit c || c == b'_' || c == b'-'

-- The longest run of a class, and what is behind it.
pub span : (ℕ → Bool) → Bytes → Bytes × Bytes
span p [] = ([], [])
span p (c ∷ s) = let (run, rest) = span p s in if p c then (c ∷ run, rest) else ([], c ∷ s)

pub all_in : (ℕ → Bool) → Bytes → Bool
all_in p [] = true
all_in p (c ∷ s) = if p c then all_in p s else false

-- A run of `lo` to `hi` characters of a class, to the end or up to the separator.
abbrev pub drop_scheme : Bytes → Bytes → Bytes
drop_scheme prefix s = elim (strip_prefix prefix s) [ none ↦ s | some rest ↦ rest ]

pub record Captures : Type 0 where
  pub key : Bytes
  pub domain : Option Bytes
  pub port : Option Bytes

-- `(:(?P<port>[0-9]*))?$`
pub match_port : Bytes → Bytes → Bytes → Option Captures
match_port key domain [] = some (record { key = key; domain = some domain; port = none })
match_port key domain (c ∷ s) =
    if c == b':' && all_in is_digit s
    then some (record { key = key; domain = some domain; port = some s })
    else none

-- `(@(?P<domain>[a-zA-Z0-9\.]+)(:(?P<port>[0-9]*))?)?$`
pub match_domain : Bytes → Bytes → Option Captures
unfolding match_port span
match_domain key [] = some (record { key = key; domain = none; port = none })
match_domain key (c ∷ s) =
    let (domain, rest) = span is_domain s in
    if c == b'@' && not (is_empty domain) then match_port key domain rest else none

-- `^(scheme)?(?P<public_key>[…]{52})…`
pub match_mq : MqKind → Bytes → Option Captures
unfolding match_domain
match_mq kind s =
    let body = drop_scheme (scheme kind) s in
    let key = take 52 body in
    if length key == 52 && all_in is_base58 key then match_domain key (drop 52 body) else none

-- `u16::from_str_radix(_, 10)` on digits
pub u16_digits : ℕ → Bytes → Option ℕ
u16_digits n [] = some n
u16_digits n (c ∷ s) =
    let next = n * 10 + (c - b'0') in if ltb 65535 next then none else u16_digits next s

pub parse_u16 : Bytes → Option ℕ
unfolding u16_digits
parse_u16 [] = none
parse_u16 (c ∷ s) = u16_digits 0 (c ∷ s)

-- `{}` of a u16: at most five digits
pub decimal : ℕ → ℕ → Bytes
decimal zero n = []
decimal (suc fuel) n =
    let front = decimal fuel (n / 10) in
    if ltb n 10 then (b'0' + n) ∷ [] else front ++ (b'0' + n % 10) ∷ []

pub show_u16 : ℕ → Bytes
unfolding decimal
show_u16 n = decimal 5 n

abbrev pub unwrap_or {ℓ} : {A : Type ℓ} → Option A → A → A
unwrap_or none d = d
unwrap_or (some a) d = a

-- `.map(|m| u16::from_str_radix(m.as_str(), 10).unwrap())`
pub read_port : Option Bytes → Outcome ErrorKind (Option ℕ)
unfolding parse_u16
read_port none = ok none
read_port (some s) = do n ← unwrap (parse_u16 s); ok (some n)

-- `self.port.is_some() && self.port.unwrap() != DEFAULT_GRINBOX_PORT`
abbrev pub shown_port : Option ℕ → Bool
shown_port none = false
shown_port (some p) = not (p == default_grinbox_port)

pub show_port : Option ℕ → Bytes
unfolding show_u16
show_port none = []
show_port (some p) = if not (p == default_grinbox_port) then b':' ∷ show_u16 p else []

-- What `Display` writes behind the key.
abbrev pub suffix : MqKind → Bytes → Option ℕ → Bytes
suffix kind domain port =
    if not (bytes_eq domain (default_domain kind)) || shown_port port
    then b'@' ∷ (domain ++ show_port port)
    else []

-- `Display`
pub to_string : MqKind → MqAddress → Bytes
unfolding show_port
to_string kind a = scheme kind ++ (a.public_key ++ suffix kind a.domain a.port)

-- `format!("{}", self)[8..]`, or `[9..]`
pub stripped : MqKind → MqAddress → Bytes
unfolding to_string
stripped kind a = drop (length (scheme kind)) (to_string kind a)

module _ (c : Crypto) where
  open c use {PublicKey, sha256, serialize, from_slice, url_parses, is_mainnet}

  pub version_bytes : Bytes
  version_bytes = if is_mainnet then 1 ∷ 69 ∷ [] else 1 ∷ 121 ∷ []

  -- `PublicKey::from_base58_check`
  pub key_from_base58_check : Bytes → Bytes → Outcome ErrorKind PublicKey
  key_from_base58_check s version_expect = do
    (version_actual, key_bytes) ← from_base58_check (double_sha256 sha256) s (length version_expect)
    guard (bytes_eq version_actual version_expect) invalid_base58_version
    ok_or (from_slice key_bytes) invalid_base58_key

  -- `PublicKey::to_base58_check`
  pub key_to_base58_check : PublicKey → Bytes → Option Bytes
  key_to_base58_check k version =
      to_base58_check (double_sha256 sha256) base58_fuel (serialize k) version

  -- `new`
  unfoldable pub new : MqKind → PublicKey → Option Bytes → Option ℕ → Outcome ErrorKind MqAddress
  unfolding key_to_base58_check version_bytes
  new kind k domain port = do
    key ← ended (key_to_base58_check k version_bytes)
    ok (record { public_key = key; domain = unwrap_or domain (default_domain kind); port = port })

  -- `public_key`
  unfoldable pub public_key : MqAddress → Outcome ErrorKind PublicKey
  unfolding key_from_base58_check version_bytes
  public_key a = key_from_base58_check a.public_key version_bytes

  pub from_captures : MqKind → Captures → Outcome ErrorKind MqAddress
  unfolding new read_port key_from_base58_check version_bytes
  from_captures kind m = do
    port ← read_port m.port
    k ← key_from_base58_check m.key version_bytes
    new kind k m.domain port

  -- `from_str`
  pub from_str : MqKind → Bytes → Outcome ErrorKind MqAddress
  unfolding match_mq from_captures
  from_str kind s = do
    m ← ok_or (match_mq kind s) (grinbox_address_parsing_error s)
    from_captures kind m
