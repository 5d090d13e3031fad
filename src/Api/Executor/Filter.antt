-- ===== src/Api/Executor/Filter.antt =====
-- Escape sequences are removed (src/api/handlers/executor.rs).
use mwc.Prelude.{
  ℕ, ◌≡◌, ◌≢◌, refl, ap, ◌∙◌, inl, inr, Bool, true, false, ◌||◌, Bool-cases, [], ◌∷◌, ◌++◌, Bytes,
  All, ◌==◌, arith,
}
use mwc.Api.Executor.{filter_loop, filter_escape_symbols}

abbrev pub NoEscape : Bytes → Type 0
NoEscape = All (λ ch. ch ≢ 27)

escape_free : (ch : ℕ) (b : Bool) → (ch == 27 || b) ≡ false → ch ≢ 27
escape_free ch b h = ground arith

filter_loop-NoEscape : (s : Bytes) (in_esc : Bool) → NoEscape (filter_loop in_esc s)
unfolding filter_loop
filter_loop-NoEscape [] in_esc = tt
filter_loop-NoEscape (ch ∷ s) in_esc = elim (Bool-cases (ch == 27 || in_esc)) [
  | inl now ↦ rw now (filter_loop-NoEscape s _)
  | inr plain ↦ rw plain (escape_free ch in_esc plain, filter_loop-NoEscape s _)
]

-- Outside a sequence a text without escapes is kept as it is.
keeps : (s rest : Bytes) → NoEscape s → filter_loop false (s ++ rest) ≡ s ++ filter_loop false rest
unfolding filter_loop
keeps [] rest h = refl
keeps (ch ∷ s) rest h =
    let plain : (ch == 27) ≡ false = ground (arith, h.0) in
    elim (Bool-cases (ch == b'm')) [
      | inl end ↦ rw (plain, end) (ap (λ t. ch ∷ t) (keeps s rest h.1))
      | inr other ↦ rw (plain, other) (ap (λ t. ch ∷ t) (keeps s rest h.1))
    ]

-- Inside a sequence everything is dropped up to its end.
drops :
    (body rest : Bytes)
    → All (λ ch. ch ≢ b'm') body
    → filter_loop true (body ++ b'm' ∷ rest) ≡ filter_loop false rest
unfolding filter_loop
drops [] rest h = refl
drops (ch ∷ body) rest h =
    let other : (ch == b'm') ≡ false = ground (arith, h.0) in
    elim (Bool-cases (ch == 27)) [
      | inl again ↦ rw (other, again) (drops body rest h.1)
      | inr plain ↦ rw (other, plain) (drops body rest h.1)
    ]

-- The result has no escape characters. A sequence, from an escape to the next `m`, is cut out of a
-- text, and what stands before it without escapes is kept.
pub filter_escape_symbols-sequence :
    (front body rest : Bytes)
    → NoEscape front
    → All (λ ch. ch ≢ b'm') body
    → (filter_escape_symbols (front ++ 27 ∷ (body ++ b'm' ∷ rest))
        ≡ front ++ filter_escape_symbols rest)
      × NoEscape (filter_escape_symbols rest)
unfolding filter_escape_symbols filter_loop
filter_escape_symbols-sequence front body rest hf hb = (
  keeps front (27 ∷ (body ++ b'm' ∷ rest)) hf ∙ ap (λ t. front ++ t) (drops body rest hb),
  filter_loop-NoEscape rest false,
)
