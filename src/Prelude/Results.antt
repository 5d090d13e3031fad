-- ===== src/Prelude/Results.antt =====
-- How a Rust call ends: with a value, with an error, by a panic, or (`diverge`) not within the rounds
-- that the model gives its loops.
use mathlib.Core.Path.{◌≡◌, refl}
use mathlib.Core.Bool.{Bool, true, false}
use mathlib.Core.Option.{Option, none, some}

pub data Outcome {ℓ κ} (E : Type ℓ) (A : Type κ) : Type (ℓ ⊔ κ) where
  ok : A → Outcome E A
  err : E → Outcome E A
  panic : Outcome E A
  diverge : Outcome E A

infixl 5 ◌>>=◌ ◌>>◌
abbrev pub ◌>>=◌ {ℓ κ μ} :
    {E : Type ℓ} {A : Type κ} {B : Type μ} → Outcome E A → (A → Outcome E B) → Outcome E B
ok a >>= f = f a
err e >>= f = err e
panic >>= f = panic
diverge >>= f = diverge

abbrev pub ◌>>◌ {ℓ κ} : {E : Type ℓ} {B : Type κ} → Outcome E (Unit {0}) → Outcome E B → Outcome E B
m >> k = m >>= λ _. k

-- `ok_or`
abbrev pub ok_or {ℓ κ} : {E : Type ℓ} {A : Type κ} → Option A → E → Outcome E A
ok_or none e = err e
ok_or (some a) e = ok a

-- `map_err(|_| e)`; a panic is not caught.
abbrev pub map_err {ℓ κ μ} : {E : Type ℓ} {F : Type κ} {A : Type μ} → Outcome E A → F → Outcome F A
map_err (ok a) e = ok a
map_err (err _) e = err e
map_err panic e = panic
map_err diverge e = diverge

abbrev pub guard {ℓ} : {E : Type ℓ} → Bool → E → Outcome E (Unit {0})
guard true e = ok tt
guard false e = err e

-- `is_ok`
abbrev pub is_ok {ℓ κ} : {E : Type ℓ} {A : Type κ} → Outcome E A → Bool
is_ok (ok _) = true
is_ok (err _) = false
is_ok panic = false
is_ok diverge = false

-- A loop's result, where `none` means that its rounds are used up.
abbrev pub ended {ℓ κ} : {E : Type ℓ} {A : Type κ} → Option A → Outcome E A
ended none = diverge
ended (some a) = ok a

-- `unwrap` of an `Option`
abbrev pub unwrap {ℓ κ} : {E : Type ℓ} {A : Type κ} → Option A → Outcome E A
unwrap none = panic
unwrap (some a) = ok a

-- A chain that ends well ended well in each part.
pub bind_ok {ℓ κ μ} :
    {E : Type ℓ} {A : Type κ} {B : Type μ} (m : Outcome E A) (f : A → Outcome E B) {b : B}
    → (m >>= f) ≡ Outcome.ok b
    → (a : A) × (m ≡ ok a) × (f a ≡ ok b)
bind_ok (ok a) f h = (a, refl, h)
bind_ok (err e) f h = cc
bind_ok panic f h = cc
bind_ok diverge f h = cc

pub map_err_ok {ℓ κ μ} :
    {E : Type ℓ} {F : Type κ} {A : Type μ} (m : Outcome E A) (e : F) {a : A}
    → map_err m e ≡ ok a
    → m ≡ ok a
map_err_ok (ok a) e h = cc
map_err_ok (err _) e h = cc
map_err_ok panic e h = cc
map_err_ok diverge e h = cc

pub unwrap_ok {ℓ κ} :
    {E : Type ℓ} {A : Type κ} (o : Option A) {a : A} → unwrap {E = E} o ≡ ok a → o ≡ some a
unwrap_ok none h = cc
unwrap_ok (some a) h = cc

-- A call ends with one value.
pub ok_unique {ℓ κ} :
    {E : Type ℓ} {A : Type κ} {m : Outcome E A} {a b : A} → m ≡ Outcome.ok a → m ≡ ok b → a ≡ b
ok_unique h k = cc

pub ok_or_ok {ℓ κ} :
    {E : Type ℓ} {A : Type κ} (o : Option A) (e : E) {a : A} → ok_or o e ≡ ok a → o ≡ some a
ok_or_ok none e h = cc
ok_or_ok (some a) e h = cc

pub ended_ok {ℓ κ} :
    {E : Type ℓ} {A : Type κ} (o : Option A) {a : A} → ended {E = E} o ≡ ok a → o ≡ some a
ended_ok none h = cc
ended_ok (some a) h = cc

pub guard_ok {ℓ} : {E : Type ℓ} (b : Bool) (e : E) {u : Unit {0}} → guard b e ≡ ok u → b ≡ true
guard_ok true e h = refl
guard_ok false e h = cc
