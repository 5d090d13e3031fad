-- ===== src/Prelude/Split.antt =====
-- What the code uses of Rust's `str`, on ASCII texts: splitting, searching and replacing.
use Prim.Native.Nat.{ℕ, zero, suc, ◌-◌}
use mathlib.Core.List.{List, [], ◌∷◌, ◌++◌}
use mathlib.Core.Option.{Option, none, some}
use mathlib.Core.Bool.{Bool, true, false}
use mwc.Prelude.Tests.{◌==◌, if◌then◌else◌}
use mwc.Prelude.Lists.{length}
use mwc.Prelude.Text.{Bytes, strip_prefix}

abbrev pub push_front : ℕ → List Bytes → List Bytes
push_front c [] = (c ∷ []) ∷ []
push_front c (w ∷ ws) = (c ∷ w) ∷ ws

-- `split` at a character
abbrev pub split : ℕ → Bytes → List Bytes
split d [] = [] ∷ []
split d (c ∷ s) = let rest = split d s in if c == d then [] ∷ rest else push_front c rest

-- `find` of a character
abbrev pub find : ℕ → Bytes → Option ℕ
find d [] = none
find d (c ∷ s) =
    let rest = find d s in
    if c == d then some 0 else elim rest [ none ↦ none | some i ↦ some (suc i) ]

abbrev pub starts_with : Bytes → Bytes → Bool
starts_with p s = elim (strip_prefix p s) [ none ↦ false | some _ ↦ true ]

-- Whether `find` of a text finds it.
abbrev pub contains : Bytes → Bytes → Bool
contains p [] = starts_with p []
contains p (c ∷ s) = if starts_with p (c ∷ s) then true else contains p s

-- `str::replace` of a text that is not empty, behind the characters that are still to be skipped.
abbrev pub replace_behind : ℕ → Bytes → Bytes → Bytes → Bytes
replace_behind skip p to [] = []
replace_behind (suc skip) p to (c ∷ s) = replace_behind skip p to s
replace_behind zero p to (c ∷ s) =
    let found = starts_with p (c ∷ s) in
    (if found then to else c ∷ []) ++ replace_behind (if found then length p - 1 else 0) p to s

abbrev pub replace : Bytes → Bytes → Bytes → Bytes
replace s p to = replace_behind 0 p to s
