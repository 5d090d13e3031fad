-- ===== src/Effects/Steady.antt =====
-- Calls that end, and leave a property and a part of the world as they were.
use mwc.Prelude.{
  ◌≡◌, refl, ◌∙◌, Bool, true, false, Outcome, ok, err, panic, diverge, if◌then◌else◌, ◌⊎◌, inl, inr,
}
use mwc.ErrorKind.{Error}
use mwc.Effects.{
  Action, and_then, ◌>>=◌, pure, fail, gets, lift, as_error, map_err, or_else, otherwise, caught,
  try, result,
}

-- Every result but `diverge`.
abbrev pub Ends {ℓ} : {A : Type ℓ} → Outcome Error A → Type 0
Ends (ok a) = Unit
Ends (err e) = Unit
Ends panic = Unit
Ends diverge = ⊥

pub result-Ends {ℓ} : {A : Type ℓ} (r : Error ⊎ A) → Ends (result r)
result-Ends (inl e) = tt
result-Ends (inr a) = tt

module _ {ℓ κ μ} {W : Type ℓ} {V : Type κ} (P : W → Type μ) (view : W → V) where
  -- How a call that starts in `w` comes back.
  pub record Returned {ν} {A : Type ν} (w : W) (r : Outcome Error A × W) : Type (κ ⊔ μ) where
    pub ends : Ends r.0
    pub holds : P r.1
    pub kept : view r.1 ≡ view w

  abbrev pub Steady {ν} : {A : Type ν} → Action W A → Type (ℓ ⊔ κ ⊔ μ)
  Steady m = (w : W) → P w → Returned w (m w)

  module _ {ν} {A : Type ν} where
    pub pure-Steady : (a : A) → Steady (pure a)
    pure-Steady a w h = record { ends = tt; holds = h; kept = refl }

    pub fail-Steady : (e : Error) → Steady (fail {A = A} e)
    fail-Steady e w h = record { ends = tt; holds = h; kept = refl }

    pub gets-Steady : (f : W → A) → Steady (gets f)
    gets-Steady f w h = record { ends = tt; holds = h; kept = refl }

    pub lift-Steady : (r : Outcome Error A) → Ends r → Steady (lift r)
    lift-Steady r e w h = record { ends = e; holds = h; kept = refl }

    -- The errors' treatments change no world.
    as_error-Returned :
        (w : W) (r : Outcome Error A × W) (e : Error) → Returned w r → Returned w (as_error r e)
    as_error-Returned w (ok a, w') e h = h
    as_error-Returned w (err _, w') e h = record { ends = tt; holds = h.holds; kept = h.kept }
    as_error-Returned w (panic, w') e h = h
    as_error-Returned w (diverge, w') e h = h

    pub map_err-Steady : (m : Action W A) (e : Error) → Steady m → Steady (map_err m e)
    map_err-Steady m e s w h = as_error-Returned w (m w) e (s w h)

    caught-Returned : (w : W) (r : Outcome Error A × W) → Returned w r → Returned w (caught r)
    caught-Returned w (ok a, w') h = record { ends = tt; holds = h.holds; kept = h.kept }
    caught-Returned w (err _, w') h = record { ends = tt; holds = h.holds; kept = h.kept }
    caught-Returned w (panic, w') h = record { ends = tt; holds = h.holds; kept = h.kept }
    caught-Returned w (diverge, w') h = record { ends = h.ends; holds = h.holds; kept = h.kept }

    pub try-Steady : (m : Action W A) → Steady m → Steady (try m)
    try-Steady m s w h = caught-Returned w (m w) (s w h)

    or_else-Returned :
        (w : W) (r : Outcome Error A × W) (g : Action W A)
        → Steady g
        → Returned w r
        → Returned w (or_else r g)
    or_else-Returned w (ok a, w') g s h = h
    or_else-Returned w (err _, w') g s h =
        let k = s w' h.holds in record { ends = k.ends; holds = k.holds; kept = k.kept ∙ h.kept }
    or_else-Returned w (panic, w') g s h = h
    or_else-Returned w (diverge, w') g s h = h

    pub otherwise-Steady : (m g : Action W A) → Steady m → Steady g → Steady (otherwise m g)
    otherwise-Steady m g s t w h = or_else-Returned w (m w) g t (s w h)

    pub if-Steady :
        (b : Bool) {m g : Action W A} → Steady m → Steady g → Steady (if b then m else g)
    if-Steady true s t = s
    if-Steady false s t = t

  module _ {ν ο} {A : Type ν} {B : Type ο} where
    and_then-Returned :
        (w : W) (r : Outcome Error A × W) (f : A → Action W B)
        → Returned w r
        → ((a : A) → Steady (f a))
        → Returned w (and_then r f)
    and_then-Returned w (ok a, w') f h s =
        let k = s a w' h.holds in record { ends = k.ends; holds = k.holds; kept = k.kept ∙ h.kept }
    and_then-Returned w (err e, w') f h s = record { ends = tt; holds = h.holds; kept = h.kept }
    and_then-Returned w (panic, w') f h s = record { ends = tt; holds = h.holds; kept = h.kept }
    and_then-Returned w (diverge, w') f h s = record {
      ends = h.ends;
      holds = h.holds;
      kept = h.kept;
    }

    pub bind-Steady :
        {m : Action W A} {f : A → Action W B}
        → Steady m
        → ((a : A) → Steady (f a))
        → Steady (m >>= f)
    bind-Steady {m} {f} s t w h = and_then-Returned w (m w) f (s w h) t
