-- ===== src/Prelude/Splits.antt =====
-- Splitting and searching where a character stands, and where it does not.
use Prim.Native.Nat.{ℕ}
use mathlib.Core.Path.{◌≡◌, refl}
use mathlib.Core.List.{[], ◌∷◌, ◌++◌}
use mathlib.Core.Option.{none, some}
use mathlib.Core.Logic.{◌≢◌}
use mathlib.Core.Bool.{Bool, true, false}
use native.Mathlib.Omega.{arith}
use mwc.Prelude.Tests.{◌==◌, if◌then◌else◌, ==_refl}
use mwc.Prelude.Lists.{length, All}
use mwc.Prelude.Text.{Bytes}
use mwc.Prelude.Split.{split, find}

-- The character does not stand in the text.
abbrev pub Without : ℕ → Bytes → Type 0
Without d s = All (λ c. c ≢ d) s

pub ==_ne : (a b : ℕ) → a ≢ b → (a == b) ≡ false
==_ne a b h = ground arith

pub split_front :
    (d : ℕ) (s rest : Bytes) → Without d s → split d (s ++ d ∷ rest) ≡ s ∷ split d rest
split_front d [] rest h = rw (==_refl d) refl
split_front d (c ∷ s) rest h = rw (split_front d s rest h.1, ==_ne c d h.0) refl

pub split_none : (d : ℕ) (s : Bytes) → Without d s → split d s ≡ s ∷ []
split_none d [] h = refl
split_none d (c ∷ s) h = rw (split_none d s h.1, ==_ne c d h.0) refl

pub find_front : (d : ℕ) (s rest : Bytes) → Without d s → find d (s ++ d ∷ rest) ≡ some (length s)
find_front d [] rest h = rw (==_refl d) refl
find_front d (c ∷ s) rest h = rw (find_front d s rest h.1, ==_ne c d h.0) refl

pub find_absent : (d : ℕ) (s : Bytes) → Without d s → find d s ≡ none
find_absent d [] h = refl
find_absent d (c ∷ s) h = rw (find_absent d s h.1, ==_ne c d h.0) refl

-- For a literal, by evaluation.
abbrev pub absent : ℕ → Bytes → Bool
absent d [] = true
absent d (c ∷ s) = if c == d then false else absent d s

pub absent-Without : (d : ℕ) (s : Bytes) → absent d s ≡ true → Without d s
absent-Without d [] h = tt
absent-Without d (c ∷ s) h = (λ e. ground arith, absent-Without d s (ground arith))
