-- ===== src/Contacts/Address/Chars.antt =====
-- Character classes and runs, for the matchers of src/contacts/types.rs.
use mwc.Prelude.{
  ℕ, ◌<◌, ◌≡◌, ◌≢◌, refl, Bool, true, false, List, [], ◌∷◌, ◌++◌, arith, All, Bytes, get_or,
  all_below, all_below_sound, length, none, strip_prefix,
}
use mwc.Codec.Base58.{alphabet}
use mwc.Codec.Base58.Value.{Below}
use mwc.Codec.Base58.Layout.{symbols}
use mwc.Contacts.Address.{is_base58, span, all_in}

-- Every character of the text is of the class.
abbrev pub Of : (ℕ → Bool) → Bytes → Type 0
Of p = All (λ c. p c ≡ true)

pub all_in-Of : (p : ℕ → Bool) (s : Bytes) → Of p s → all_in p s ≡ true
unfolding all_in
all_in-Of p [] h = refl
all_in-Of p (c ∷ s) h = ground (arith, all_in-Of p s h.1)

pub span_run :
    (p : ℕ → Bool) (s : Bytes) (c : ℕ) (rest : Bytes)
    → Of p s
    → p c ≡ false
    → span p (s ++ c ∷ rest) ≡ (s, c ∷ rest)
unfolding span
span_run p [] c rest h e = rw e
span_run p (x ∷ s) c rest h e = rw (span_run p s c rest h.1 e, h.0)

pub span_all : (p : ℕ → Bool) (s : Bytes) → Of p s → span p s ≡ (s, [])
unfolding span
span_all p [] h = refl
span_all p (x ∷ s) h = rw (span_all p s h.1, h.0)

base58_table : all_below 58 (λ d. is_base58 (get_or alphabet d 0)) ≡ true
unfolding is_base58
base58_table = refl

pub symbols-Of : (ds : List ℕ) → Below 58 ds → Of is_base58 (symbols ds)
symbols-Of [] h = tt
symbols-Of (d ∷ ds) h = (
  all_below_sound 58 (λ d. is_base58 (get_or alphabet d 0)) d base58_table h.0,
  symbols-Of ds h.1,
)

pub base58-ne-colon : (c : ℕ) → is_base58 c ≡ true → c ≢ b':'
unfolding is_base58
base58-ne-colon c h = ground arith

-- A scheme does not stand in front of a text whose first characters are no colon.
pub strip_prefix-none :
    (p q s rest : Bytes)
    → length p < length s
    → All (λ c. c ≢ b':') s
    → strip_prefix (p ++ b':' ∷ q) (s ++ rest) ≡ none
strip_prefix-none [] q [] rest h k = absurd (omega arith)
strip_prefix-none [] q (c ∷ s) rest h k = ground arith
strip_prefix-none (x ∷ p) q [] rest h k = absurd (omega arith)
strip_prefix-none (x ∷ p) q (c ∷ s) rest h k =
    ground (arith, strip_prefix-none p q s rest (omega arith) k.1)
