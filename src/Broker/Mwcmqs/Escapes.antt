-- ===== src/Broker/Mwcmqs/Escapes.antt =====
-- The characters that the server escapes in a message (src/broker/mwcmq.rs).
use mwc.Prelude.{
  ℕ, ◌-◌, ◌≡◌, ◌≢◌, refl, ap, sym, ◌∙◌, inl, inr, Bool, false, List, [], ◌∷◌, ◌++◌, Bytes, codes,
  length, All, ◌==◌, ==_iff, Bool-cases, if◌then◌else◌, starts_with, replace, replace_behind, arith,
}
use mwc.Codec.Hex.{is_space, trim_start, trim_end}
use mwc.Broker.Mwcmqs.Message.{unescape}

-- `%22` and the like for five characters
abbrev pub escape_char : ℕ → Bytes
escape_char c =
    if c == b'"'
    then codes "%22"
    else if c == b'{'
    then codes "%7B"
    else if c == b'}'
    then codes "%7D"
    else if c == b':'
    then codes "%3A"
    else if c == b','
    then codes "%2C"
    else c ∷ []

abbrev pub escape : Bytes → Bytes
escape [] = []
escape (c ∷ s) = escape_char c ++ escape s

-- A character as the escapes see it.
data Symbol : Type 0 where
  quote open_brace close_brace colon comma : Symbol
  plain : (c : ℕ) → c ≢ b'%' → Symbol

abbrev char : Symbol → ℕ
char quote = b'"'
char open_brace = b'{'
char close_brace = b'}'
char colon = b':'
char comma = b','
char (plain c h) = c

-- How a character stands before each replacement, and behind the last one.
abbrev stage0 : Symbol → Bytes
stage0 quote = codes "%22"
stage0 open_brace = codes "%7B"
stage0 close_brace = codes "%7D"
stage0 colon = codes "%3A"
stage0 comma = codes "%2C"
stage0 (plain c h) = c ∷ []

abbrev stage1 : Symbol → Bytes
stage1 quote = char quote ∷ []
stage1 open_brace = codes "%7B"
stage1 close_brace = codes "%7D"
stage1 colon = codes "%3A"
stage1 comma = codes "%2C"
stage1 (plain c h) = c ∷ []

abbrev stage2 : Symbol → Bytes
stage2 quote = char quote ∷ []
stage2 open_brace = char open_brace ∷ []
stage2 close_brace = codes "%7D"
stage2 colon = codes "%3A"
stage2 comma = codes "%2C"
stage2 (plain c h) = c ∷ []

abbrev stage3 : Symbol → Bytes
stage3 quote = char quote ∷ []
stage3 open_brace = char open_brace ∷ []
stage3 close_brace = char close_brace ∷ []
stage3 colon = codes "%3A"
stage3 comma = codes "%2C"
stage3 (plain c h) = c ∷ []

abbrev stage4 : Symbol → Bytes
stage4 quote = char quote ∷ []
stage4 open_brace = char open_brace ∷ []
stage4 close_brace = char close_brace ∷ []
stage4 colon = char colon ∷ []
stage4 comma = codes "%2C"
stage4 (plain c h) = c ∷ []

abbrev stage5 : Symbol → Bytes
stage5 quote = char quote ∷ []
stage5 open_brace = char open_brace ∷ []
stage5 close_brace = char close_brace ∷ []
stage5 colon = char colon ∷ []
stage5 comma = char comma ∷ []
stage5 (plain c h) = c ∷ []

abbrev write : (Symbol → Bytes) → List Symbol → Bytes
write f [] = []
write f (y ∷ ys) = f y ++ write f ys

-- A replacement that turns each character as it stands before into what stands behind.
Turns : Bytes → Bytes → (Symbol → Bytes) → (Symbol → Bytes) → Type 0
Turns p to f g =
    (y : Symbol) (rest : Bytes)
    → replace_behind 0 p to (f y ++ rest) ≡ g y ++ replace_behind 0 p to rest

replace-write :
    (p to : Bytes) (f g : Symbol → Bytes) (ys : List Symbol)
    → Turns p to f g
    → replace (write f ys) p to ≡ write g ys
unfolding Turns
replace-write p to f g [] h = refl
replace-write p to f g (y ∷ ys) h =
    h y (write f ys) ∙ ap (λ t. g y ++ t) (replace-write p to f g ys h)

percent_ne : (c : ℕ) → c ≢ b'%' → (b'%' == c) ≡ false
percent_ne c h = ground arith

other_start : (p : Bytes) (c : ℕ) (s : Bytes) → c ≢ b'%' → starts_with (b'%' ∷ p) (c ∷ s) ≡ false
other_start p c s h = rw (starts_with, percent_ne c h) refl

pub turn_plain :
    (p to : Bytes) (c : ℕ) (rest : Bytes)
    → c ≢ b'%'
    → replace_behind 0 (b'%' ∷ p) to (c ∷ rest) ≡ c ∷ replace_behind 0 (b'%' ∷ p) to rest
turn_plain p to c rest h =
    ap
      (λ (found : Bool).
        (if found then to else c ∷ [])
        ++ replace_behind (if found then length (b'%' ∷ p) - 1 else 0) (b'%' ∷ p) to rest)
      (other_start p c rest h)

turn0 : Turns (codes "%22") (b'"' ∷ []) stage0 stage1
unfolding Turns
turn0 quote rest = refl
turn0 open_brace rest = refl
turn0 close_brace rest = refl
turn0 colon rest = refl
turn0 comma rest = refl
turn0 (plain c h) rest = turn_plain (codes "22") (b'"' ∷ []) c rest h

turn1 : Turns (codes "%7B") (codes "{") stage1 stage2
unfolding Turns
turn1 quote rest = refl
turn1 open_brace rest = refl
turn1 close_brace rest = refl
turn1 colon rest = refl
turn1 comma rest = refl
turn1 (plain c h) rest = turn_plain (codes "7B") (codes "{") c rest h

turn2 : Turns (codes "%7D") (codes "}") stage2 stage3
unfolding Turns
turn2 quote rest = refl
turn2 open_brace rest = refl
turn2 close_brace rest = refl
turn2 colon rest = refl
turn2 comma rest = refl
turn2 (plain c h) rest = turn_plain (codes "7D") (codes "}") c rest h

turn3 : Turns (codes "%3A") (codes ":") stage3 stage4
unfolding Turns
turn3 quote rest = refl
turn3 open_brace rest = refl
turn3 close_brace rest = refl
turn3 colon rest = refl
turn3 comma rest = refl
turn3 (plain c h) rest = turn_plain (codes "3A") (codes ":") c rest h

turn4 : Turns (codes "%2C") (codes ",") stage4 stage5
unfolding Turns
turn4 quote rest = refl
turn4 open_brace rest = refl
turn4 close_brace rest = refl
turn4 colon rest = refl
turn4 comma rest = refl
turn4 (plain c h) rest = turn_plain (codes "2C") (codes ",") c rest h

-- Text that can be sent: no percent sign and no space.
abbrev pub IsSendable : ℕ → Type 0
IsSendable c = (c ≢ b'%') × (is_space c ≡ false)

stage5_lem : (y : Symbol) → stage5 y ≡ char y ∷ []
stage5_lem quote = refl
stage5_lem open_brace = refl
stage5_lem close_brace = refl
stage5_lem colon = refl
stage5_lem comma = refl
stage5_lem (plain c h) = refl

record Read (c : ℕ) : Type 0 where
  pub symbol : Symbol
  pub is : stage5 symbol ≡ c ∷ []
  pub escaped : escape_char c ≡ stage0 symbol

as_symbol : (c : ℕ) (y : Symbol) → c ≡ char y → escape_char (char y) ≡ stage0 y → Read c
as_symbol c y e h = record {
  symbol = y;
  is = stage5_lem y ∙ ap (λ d. d ∷ []) (sym e);
  escaped = ap escape_char e ∙ h;
}

as_char : (c : ℕ) → c ≢ b'%' → Read c
as_char c h = elim (Bool-cases (c == b'"')) [
  | inl e ↦ as_symbol c quote ((==_iff c b'"').0 e) refl
  | inr e0 ↦ elim (Bool-cases (c == b'{')) [
    | inl e ↦ as_symbol c open_brace ((==_iff c b'{').0 e) refl
    | inr e1 ↦ elim (Bool-cases (c == b'}')) [
      | inl e ↦ as_symbol c close_brace ((==_iff c b'}').0 e) refl
      | inr e2 ↦ elim (Bool-cases (c == b':')) [
        | inl e ↦ as_symbol c colon ((==_iff c b':').0 e) refl
        | inr e3 ↦ elim (Bool-cases (c == b',')) [
          | inl e ↦ as_symbol c comma ((==_iff c b',').0 e) refl
          | inr e4 ↦ record {
            symbol = plain c h;
            is = refl;
            escaped = rw (e0, e1, e2, e3, e4) refl;
          }
        ]
      ]
    ]
  ]
]

pub trim_start_none : (s : Bytes) → All IsSendable s → trim_start s ≡ s
trim_start_none [] h = refl
trim_start_none (c ∷ s) h = rw h.0.1 refl

pub trim_end_none : (s : Bytes) → All IsSendable s → trim_end s ≡ s
trim_end_none [] h = refl
trim_end_none (c ∷ s) h = rw h.0.1 (ap (λ t. c ∷ t) (trim_end_none s h.1))

-- The symbols of a text.
symbols_of : (s : Bytes) → All IsSendable s → List Symbol
symbols_of [] h = []
symbols_of (c ∷ s) h = (as_char c h.0.0).symbol ∷ symbols_of s h.1

write-escape : (s : Bytes) (h : All IsSendable s) → escape s ≡ write stage0 (symbols_of s h)
unfolding symbols_of
write-escape [] h = refl
write-escape (c ∷ s) h =
    let r = as_char c h.0.0 in
    ap (λ t. t ++ escape s) r.escaped ∙ ap (λ t. stage0 r.symbol ++ t) (write-escape s h.1)

write_plain : (s : Bytes) (h : All IsSendable s) → write stage5 (symbols_of s h) ≡ s
unfolding symbols_of
write_plain [] h = refl
write_plain (c ∷ s) h =
    let r = as_char c h.0.0 in
    ap (λ t. t ++ write stage5 (symbols_of s h.1)) r.is ∙ ap (λ t. c ∷ t) (write_plain s h.1)

-- A text with no percent sign and no space, whose quotes, braces, colons and commas are escaped, is
-- read back by the five replacements.
pub unescape-escape : (s : Bytes) → All IsSendable s → unescape (escape s) ≡ s
unfolding unescape
unescape-escape s h =
    let ys = symbols_of s h in
    rw
      (
        write-escape s h,
        replace-write (codes "%22") (b'"' ∷ []) stage0 stage1 ys turn0,
        replace-write (codes "%7B") (codes "{") stage1 stage2 ys turn1,
        replace-write (codes "%7D") (codes "}") stage2 stage3 ys turn2,
        replace-write (codes "%3A") (codes ":") stage3 stage4 ys turn3,
        replace-write (codes "%2C") (codes ",") stage4 stage5 ys turn4,
        write_plain s h,
        trim_start_none s h,
        trim_end_none s h,
      )
      refl
