-- ===== src/Effects.antt =====
-- A call that changes a world: what it returns, and the world behind it. An error does not undo what
-- was written before it.
pub mod Steady
use mwc.Prelude.{◌≡◌, refl, Option, none, some, ◌⊎◌, inl, inr, Outcome, ok, err, panic, diverge}
use mwc.ErrorKind.{Error}

abbrev pub Action {ℓ κ} : Type ℓ → Type κ → Type (ℓ ⊔ κ)
Action W A = W → Outcome Error A × W

-- A call of a library: it ends, with an error or a value.
abbrev pub Call {ℓ κ} : Type ℓ → Type κ → Type (ℓ ⊔ κ)
Call S A = S → (Error ⊎ A) × S

abbrev pub result {ℓ} : {A : Type ℓ} → Error ⊎ A → Outcome Error A
result (inl e) = err e
result (inr a) = ok a

abbrev pub modify {ℓ} : {W : Type ℓ} → (W → W) → Action W (Unit {0})
modify f w = (ok tt, f w)

abbrev pub and_then {ℓ κ μ} :
    {W : Type ℓ} {A : Type κ} {B : Type μ}
    → Outcome Error A × W
    → (A → Action W B)
    → Outcome Error B × W
and_then (ok a, w) f = f a w
and_then (err e, w) f = (err e, w)
and_then (panic, w) f = (panic, w)
and_then (diverge, w) f = (diverge, w)

infixl 5 ◌>>=◌ ◌>>◌
abbrev pub ◌>>=◌ {ℓ κ μ} :
    {W : Type ℓ} {A : Type κ} {B : Type μ} → Action W A → (A → Action W B) → Action W B
◌>>=◌ m f w = and_then (m w) f

abbrev pub ◌>>◌ {ℓ κ} : {W : Type ℓ} {B : Type κ} → Action W (Unit {0}) → Action W B → Action W B
m >> k = m >>= λ _. k

module _ {ℓ κ} {W : Type ℓ} {A : Type κ} where
  abbrev pub pure : A → Action W A
  pure a w = (ok a, w)

  abbrev pub fail : Error → Action W A
  fail e w = (err e, w)

  abbrev pub gets : (W → A) → Action W A
  gets f w = (ok (f w), w)

  -- A result without a change.
  abbrev pub lift : Outcome Error A → Action W A
  lift r w = (r, w)

  abbrev pub as_error : Outcome Error A × W → Error → Outcome Error A × W
  as_error (ok a, w) e = (ok a, w)
  as_error (err _, w) e = (err e, w)
  as_error (panic, w) e = (panic, w)
  as_error (diverge, w) e = (diverge, w)

  -- `map_err(|_| e)`
  abbrev pub map_err : Action W A → Error → Action W A
  map_err m e w = as_error (m w) e

  abbrev pub or_else : Outcome Error A × W → Action W A → Outcome Error A × W
  or_else (ok a, w) g = (ok a, w)
  or_else (err _, w) g = g w
  or_else (panic, w) g = (panic, w)
  or_else (diverge, w) g = (diverge, w)

  -- `match … { Err(_) => …, Ok(_) => () }`
  abbrev pub otherwise : Action W A → Action W A → Action W A
  otherwise m g w = or_else (m w) g

  abbrev pub caught : Outcome Error A × W → Outcome Error (Option A) × W
  caught (ok a, w) = (ok (some a), w)
  caught (err _, w) = (ok none, w)
  caught (panic, w) = (panic, w)
  caught (diverge, w) = (diverge, w)

  -- `Result::ok`: an error is no value.
  abbrev pub try : Action W A → Action W (Option A)
  try m w = caught (m w)

  abbrev pub expected : Outcome Error A × W → Outcome Error A × W
  expected (ok a, w) = (ok a, w)
  expected (err _, w) = (panic, w)
  expected (panic, w) = (panic, w)
  expected (diverge, w) = (diverge, w)

  -- `expect`, or `unwrap`, of a call's result.
  abbrev pub expect : Action W A → Action W A
  expect m w = expected (m w)

replied_cases {ℓ κ} :
    {S : Type ℓ} {A : Type κ} (r : (Error ⊎ A) × S)
    → ((e : Error) × (s' : S) × (r ≡ (inl e, s'))) ⊎ ((a : A) × (s' : S) × (r ≡ (inr a, s')))
replied_cases (inl e, s) = inl (e, s, refl)
replied_cases (inr a, s) = inr (a, s, refl)

-- Whether a library's call fails.
pub call_cases {ℓ κ} :
    {S : Type ℓ} {A : Type κ} (f : Call S A) (s : S)
    → ((e : Error) × (s' : S) × (f s ≡ (inl e, s'))) ⊎ ((a : A) × (s' : S) × (f s ≡ (inr a, s')))
call_cases f s = replied_cases (f s)

abbrev pub returns {ℓ κ} : {W : Type ℓ} {A : Type κ} → A → W → Outcome Error A × W
returns a w = (ok a, w)

-- A chain that ends well ended well in each part.
pub and_then_ok {ℓ κ μ} :
    {W : Type ℓ} {A : Type κ} {B : Type μ} (r : Outcome Error A × W) (f : A → Action W B) {x : B}
    {w' : W}
    → and_then r f ≡ returns x w'
    → (a : A) × (w : W) × (r ≡ returns a w) × (f a w ≡ returns x w')
and_then_ok (ok a, w) f h = (a, w, refl, h)
and_then_ok (err e, w) f h = cc
and_then_ok (panic, w) f h = cc
and_then_ok (diverge, w) f h = cc
