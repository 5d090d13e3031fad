-- ===== src/Api/Auth/Secret.antt =====
-- Only the secret opens the REST interface (src/api/auth.rs).
use mwc.Prelude.{
  ◌≡◌, ◌≢◌, refl, ap, sym, ◌∙◌, ◌⊎◌, inl, inr, false, [], ◌∷◌, ◌++◌, Option, none, some,
  Option-cases, Bool-cases, Bytes, codes, bytes_eq, bytes_eq→eq, bytes_eq_refl, bytes_ne, ok, panic,
}
use mwc.Api.Auth.{chained, unauthorized, basic, new, call}

prefix_cancel : (p a b : Bytes) → p ++ a ≡ p ++ b → a ≡ b
prefix_cancel [] a b h = h
prefix_cancel (x ∷ p) a b h = prefix_cancel p a b (cc)

abbrev some_text : Bytes → Option Bytes
some_text t = some t

bytes_ne_eq : (a b : Bytes) → bytes_eq a b ≡ false → a ≢ b
bytes_ne_eq a b h e = let same = ap (λ t. bytes_eq t b) e ∙ bytes_eq_refl b in cc

module _ (to_base64 : Bytes → Bytes) (to_str : Bytes → Option Bytes) where
  -- Base 64 keeps texts apart.
  abbrev pub IsFaithful : Type 0
  IsFaithful = (a b : Bytes) → to_base64 a ≡ to_base64 b → a ≡ b

  -- The header of a secret is of visible characters.
  abbrev pub IsVisible : Type 0
  IsVisible = (s : Bytes) → to_str (basic to_base64 to_str s) ≡ some (basic to_base64 to_str s)

  basic-injective :
      IsFaithful → (a b : Bytes) → basic to_base64 to_str a ≡ basic to_base64 to_str b → a ≡ b
  basic-injective faithful a b h = prefix_cancel (codes "mwc:") a b (
      faithful (codes "mwc:" ++ a) (codes "mwc:" ++ b) (
        prefix_cancel (codes "Basic ") (to_base64 (codes "mwc:" ++ a))
          (to_base64 (codes "mwc:" ++ b)) h))

  -- What becomes of a header, and just for which headers.
  abbrev pub Answered : Bytes → Option Bytes → Type 0
  Answered secret header =
      ((call to_base64 to_str (new to_base64 to_str (some secret)) header ≡ ok chained)
        × (text : Bytes) × (header ≡ some text)
        × (to_str text ≡ some (basic to_base64 to_str secret)))
      ⊎ ((call to_base64 to_str (new to_base64 to_str (some secret)) header ≡ ok unauthorized)
          × ((header ≡ none)
              ⊎ ((text shown : Bytes) × (header ≡ some text)
                  × (to_str text ≡ some shown)
                  × (shown ≢ basic to_base64 to_str secret))))
      ⊎ ((call to_base64 to_str (new to_base64 to_str (some secret)) header ≡ panic)
          × (text : Bytes) × (header ≡ some text)
          × (to_str text ≡ none))

  shown-Answered :
      (secret text shown : Bytes) → to_str text ≡ some shown → Answered secret (some text)
  unfolding call
  shown-Answered secret text shown e =
      elim (Bool-cases (bytes_eq (basic to_base64 to_str secret) shown)) [
        | inl same ↦
            let eq = bytes_eq→eq (basic to_base64 to_str secret) shown same in
            inl (rw (e, same) refl, text, refl, e ∙ ap some_text (sym eq))
        | inr other ↦ inr (
            inl (
              rw (e, other) refl,
              inr (text, shown, refl, e, λ k. bytes_ne_eq _ shown other (sym k)),
            ))
      ]

  header-Answered : (secret : Bytes) (header : Option Bytes) → Answered secret header
  unfolding call
  header-Answered secret none = inr (inl (refl, inl refl))
  header-Answered secret (some text) = elim (Option-cases (to_str text)) [
    | inl e ↦ inr (inr (rw e refl, text, refl, e))
    | inr (shown, e) ↦ shown-Answered secret text shown e
  ]

  -- Where base 64 keeps texts apart and its texts can be read from a header: with a secret set, a
  -- request is passed on just where the text of its header is the one of the secret, refused where
  -- it has another text or no header, and panics where the header has no text; the header of another
  -- secret is refused; with no secret set, every request is passed on.
  pub call-new :
      IsFaithful
      → IsVisible
      → (secret guess : Bytes) (header : Option Bytes) → secret ≢ guess
      → Answered secret header
        × (call to_base64 to_str
              (new to_base64 to_str (some secret))
              (some (basic to_base64 to_str secret))
            ≡ ok chained)
        × (call to_base64 to_str
              (new to_base64 to_str (some secret))
              (some (basic to_base64 to_str guess))
            ≡ ok unauthorized)
        × (call to_base64 to_str (new to_base64 to_str none) header ≡ ok chained)
  unfolding call
  call-new faithful visible secret guess header apart = (
    header-Answered secret header,
    rw (visible secret, bytes_eq_refl (basic to_base64 to_str secret)) refl,
    rw
        (
          visible guess,
          bytes_ne (basic to_base64 to_str secret) (basic to_base64 to_str guess)
              (λ e. apart (basic-injective faithful secret guess e)),
        )
        refl,
    refl,
  )
