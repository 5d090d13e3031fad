-- ===== src/Codec/Base58/Value.antt =====
-- The number that a list of digits stands for, from either end, for the proofs about the loops of
-- src/common/base58.rs.
use native.Mathlib.Nat.{zero-add}
use native.Mathlib.Decide.{dec_le}
use mathlib.Core.Path.{ap₂}
use mwc.Prelude.{
  ℕ, zero, suc, ◌+◌, ◌*◌, ◌<◌, ◌≤◌, ◌≡◌, refl, sym, ap, ◌∙◌, List, [], ◌∷◌, ◌++◌, arith, length,
  get_or, set, drop, replicate, All,
}

-- `b ^ length xs`
abbrev pub scale : ℕ → List ℕ → ℕ
scale b [] = 1
scale b (x ∷ xs) = b * scale b xs

-- The most significant digit first.
abbrev pub value : ℕ → List ℕ → ℕ
value b [] = 0
value b (x ∷ xs) = x * scale b xs + value b xs

-- The least significant digit first.
abbrev pub low : ℕ → List ℕ → ℕ
low b [] = 0
low b (x ∷ xs) = x + b * low b xs

abbrev pub Below : ℕ → List ℕ → Type 0
Below b = All (λ x. x < b)

abbrev pub Zeros : List ℕ → Type 0
Zeros = All (λ x. x ≡ 0)

-- The reverse of the first list in front of the second.
abbrev pub onto : List ℕ → List ℕ → List ℕ
onto [] xs = xs
onto (r ∷ rs) xs = onto rs (r ∷ xs)

shift : (n i : ℕ) → suc n + i ≡ n + suc i
shift n i = omega arith

pub get_or-onto : (rs xs : List ℕ) (i d : ℕ) → get_or (onto rs xs) (length rs + i) d ≡ get_or xs i d
get_or-onto [] xs i d = ap (λ k. get_or xs k d) (zero-add i)
get_or-onto (r ∷ rs) xs i d =
    ap (λ k. get_or (onto rs (r ∷ xs)) k d) (shift (length rs) i)
    ∙ get_or-onto rs (r ∷ xs) (suc i) d

pub set-onto :
    (rs xs : List ℕ) (i v : ℕ) → set (onto rs xs) (length rs + i) v ≡ onto rs (set xs i v)
set-onto [] xs i v = ap (λ k. set xs k v) (zero-add i)
set-onto (r ∷ rs) xs i v =
    ap (λ k. set (onto rs (r ∷ xs)) k v) (shift (length rs) i) ∙ set-onto rs (r ∷ xs) (suc i) v

drop_more-onto : (rs xs : List ℕ) (i : ℕ) → drop (length rs + i) (onto rs xs) ≡ drop i xs
drop_more-onto [] xs i = ap (λ k. drop k xs) (zero-add i)
drop_more-onto (r ∷ rs) xs i =
    ap (λ k. drop k (onto rs (r ∷ xs))) (shift (length rs) i) ∙ drop_more-onto rs (r ∷ xs) (suc i)

pub drop-onto : (rs xs : List ℕ) → drop (length rs) (onto rs xs) ≡ xs
drop-onto rs xs = ap (λ k. drop k (onto rs xs)) (omega arith) ∙ drop_more-onto rs xs 0

pub onto-onto : (xs rs ys : List ℕ) → onto (onto xs rs) ys ≡ onto rs (xs ++ ys)
onto-onto [] rs ys = refl
onto-onto (x ∷ xs) rs ys = onto-onto xs (x ∷ rs) ys

pub length-onto : (rs xs : List ℕ) → length (onto rs xs) ≡ length rs + length xs
length-onto [] xs = omega arith
length-onto (r ∷ rs) xs = omega (arith, length-onto rs (r ∷ xs))

pub onto-Below : (b : ℕ) (rs xs : List ℕ) → Below b rs → Below b xs → Below b (onto rs xs)
onto-Below b [] xs hr hx = hx
onto-Below b (r ∷ rs) xs hr hx = onto-Below b rs (r ∷ xs) hr.1 (hr.0, hx)

pub low-onto : (b : ℕ) (xs rs : List ℕ) → low b (onto xs rs) ≡ value b xs + scale b xs * low b rs
low-onto b [] rs = omega arith
low-onto b (x ∷ xs) rs = rw (low-onto b xs (x ∷ rs)) (omega arith)

pub value-onto :
    (b : ℕ) (rs xs : List ℕ) → value b (onto rs xs) ≡ low b rs * scale b xs + value b xs
value-onto b [] xs = omega arith
value-onto b (r ∷ rs) xs = rw (value-onto b rs (r ∷ xs)) (omega arith)

pub low-Zeros : (b : ℕ) (xs : List ℕ) → Zeros xs → low b xs ≡ 0
low-Zeros b [] h = refl
low-Zeros b (x ∷ xs) h = rw (h.0, low-Zeros b xs h.1) (omega arith)

pub value-lt-scale : (b : ℕ) (xs : List ℕ) → Below b xs → value b xs < scale b xs
value-lt-scale b [] h = omega arith
value-lt-scale b (x ∷ xs) h = grind (arith, value-lt-scale b xs h.1)

pub scale-pos : (b : ℕ) (xs : List ℕ) → 0 < b → 0 < scale b xs
scale-pos b [] h = omega arith
scale-pos b (x ∷ xs) h = grind (arith, scale-pos b xs h)

pub scale_of_length : (b : ℕ) (xs ys : List ℕ) → length xs ≡ length ys → scale b xs ≡ scale b ys
scale_of_length b [] [] h = refl
scale_of_length b [] (y ∷ ys) h = absurd (omega arith)
scale_of_length b (x ∷ xs) [] h = absurd (omega arith)
scale_of_length b (x ∷ xs) (y ∷ ys) h = ap (λ k. b * k) (scale_of_length b xs ys (omega arith))

pub scale-append : (b : ℕ) (xs ys : List ℕ) → scale b (xs ++ ys) ≡ scale b xs * scale b ys
scale-append b [] ys = omega arith
scale-append b (x ∷ xs) ys = rw (scale-append b xs ys) (omega arith)

pub value-append :
    (b : ℕ) (xs ys : List ℕ) → value b (xs ++ ys) ≡ value b xs * scale b ys + value b ys
value-append b [] ys = omega arith
value-append b (x ∷ xs) ys = rw (value-append b xs ys, scale-append b xs ys) (omega arith)

pub value-zeros : (b n : ℕ) (xs : List ℕ) → value b (replicate n 0 ++ xs) ≡ value b xs
value-zeros b zero xs = refl
value-zeros b (suc n) xs = omega (arith, value-zeros b n xs)

mul_le : (a b c : ℕ) → a ≤ b → a * c ≤ b * c
mul_le a b c h = grind arith

head_le : (s x y v w : ℕ) → v < s → x * s + v ≡ y * s + w → y ≤ x
head_le s x y v w hv e = elim (dec_le y x) [
  | yes p ↦ p
  | no p ↦ absurd (omega (arith, mul_le (suc x) y s (omega arith)))
]

-- With as many digits, only one list stands for a number.
pub value-injective :
    (b : ℕ) (xs ys : List ℕ)
    → length xs ≡ length ys
    → Below b xs
    → Below b ys
    → value b xs ≡ value b ys
    → xs ≡ ys
value-injective b [] [] n hx hy e = refl
value-injective b [] (y ∷ ys) n hx hy e = absurd (omega arith)
value-injective b (x ∷ xs) [] n hx hy e = absurd (omega arith)
value-injective b (x ∷ xs) (y ∷ ys) n hx hy e =
    let same : scale b xs ≡ scale b ys = scale_of_length b xs ys (omega arith) in
    let sum : x * scale b xs + value b xs ≡ y * scale b xs + value b ys =
      e ∙ ap (λ k. y * k + value b ys) (sym same) in
    let fits : value b ys < scale b xs = rw same (value-lt-scale b ys hy.1) in
    let above : y ≤ x = head_le _ x y _ _ (value-lt-scale b xs hx.1) sum in
    let below : x ≤ y = head_le _ y x _ _ fits (sym sum) in
    let heads : x ≡ y = omega arith in
    let tails : value b xs ≡ value b ys = omega (arith, ap (λ (k : ℕ). k * scale b xs) heads) in
    ap₂ (λ k l. k ∷ l) heads (value-injective b xs ys (omega arith) hx.1 hy.1 tails)
