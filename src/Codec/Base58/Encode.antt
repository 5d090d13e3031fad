-- ===== src/Codec/Base58/Encode.antt =====
-- `to_base58` of src/common/base58.rs: its loops end, and the buffer holds the number in base 58.
use mathlib.Core.Path.{subst}
use native.Mathlib.Decide.{dec_le}
use mwc.Prelude.{
  ℕ, zero, suc, ◌+◌, ◌-◌, ◌*◌, ◌/◌, ◌%◌, ◌^◌, ◌<◌, ◌≤◌, ◌≡◌, refl, sym, ap, ◌∙◌, ◌⊎◌, inl, inr,
  false, not, ◌||◌, List, [], ◌∷◌, Option, some, arith, length, get_or, set, drop, append-nil, ltb,
  ◌==◌, if◌then◌else◌, Bool-cases,
}
use mwc.Codec.Base58.{carry_loop}
use mwc.Codec.Base58.Value.{
  scale, value, low, Below, Zeros, onto, get_or-onto, set-onto, drop-onto, onto-onto, length-onto,
  onto-Below, low-onto, low-Zeros,
}

-- What one run of the inner loop leaves: `cells` is the buffer from its last byte on, and `total`
-- the number that it stands for.
pub record Carried (total size : ℕ) (r : Option (ℕ × List ℕ)) : Type 0 where
  pub j : ℕ
  pub cells : List ℕ
  pub result : r ≡ some (j, onto cells [])
  pub full : length cells ≡ size
  pub digits : Below 58 cells
  pub number : low 58 cells ≡ total
  pub zeros : Zeros (drop (size - 1 - j) cells) ⊎ (j ≡ 0)

get_at : (rp post : List ℕ) (d : ℕ) → get_or (onto rp (d ∷ post)) (length rp) 0 ≡ d
get_at rp post d =
    ap (λ k. get_or (onto rp (d ∷ post)) k 0) (omega arith) ∙ get_or-onto rp (d ∷ post) 0 0

set_at : (rp post : List ℕ) (d v : ℕ) → set (onto rp (d ∷ post)) (length rp) v ≡ onto rp (v ∷ post)
set_at rp post d v =
    ap (λ k. set (onto rp (d ∷ post)) k v) (omega arith) ∙ set-onto rp (d ∷ post) 0 v

-- The sum fits a u32.
fits_u32 : (c d : ℕ) → d < 58 → c < 256 → (c + 256 * d) % 2 ^ 32 ≡ c + 256 * d
fits_u32 c d hd hc = omega arith

-- One round of the loop at the position behind `rp`.
carry_step :
    (fuel high : ℕ) (rp : List ℕ) (d c : ℕ) (post : List ℕ)
    → d < 58
    → c < 256
    → carry_loop (suc fuel) high (length rp) c (onto rp (d ∷ post)) ≡ (
        if ltb high (length rp) || not (c == 0)
        then carry_loop fuel high
            (length rp - 1)
            ((c + 256 * d) / 58)
            (onto rp ((c + 256 * d) % 58 ∷ post))
        else some (length rp, onto rp (d ∷ post)))
unfolding carry_loop
carry_step fuel high rp d c post hd hc =
    rw (get_at rp post d, set_at rp post d ((c + 256 * d) % 2 ^ 32 % 58), fits_u32 c d hd hc)

drop_above :
    (high d d' : ℕ) (rp : List ℕ)
    → Zeros (drop (length (d' ∷ rp) - high) (d ∷ d' ∷ rp))
    → Zeros (drop (length rp - high) (d' ∷ rp))
drop_above high d d' rp h = elim (dec_le (suc (length rp)) high) [
  | yes p ↦
      let all : Zeros (d ∷ d' ∷ rp) =
        subst (λ k. Zeros (drop k (d ∷ d' ∷ rp)))
          (let e : suc (length rp) - high ≡ 0 = omega arith in e) h in
      subst (λ k. Zeros (drop k (d' ∷ rp))) (let e : 0 ≡ length rp - high = omega arith in e) all.1
  | no p ↦
      subst (λ k. Zeros (drop k (d ∷ d' ∷ rp)))
        (let e : suc (length rp) - high ≡ suc (length rp - high) = omega arith in e) h
]

-- The loop ends at a position with nothing but zeros up to it.
leave :
    (rp : List ℕ) (d : ℕ) (post : List ℕ)
    → Below 58 (d ∷ rp)
    → Below 58 post
    → Zeros (d ∷ rp)
    → Carried (value 58 post) (suc (length rp) + length post) (some (length rp, onto rp (d ∷ post)))
leave rp d post hd hp hz = record {
  j = length rp;
  cells = onto post (d ∷ rp);
  result = ap (λ k. some (length rp, k)) (ends rp d post);
  full = omega (arith, length-onto post (d ∷ rp));
  digits = onto-Below 58 post (d ∷ rp) hp hd;
  number = rw (low-onto 58 post (d ∷ rp), low-Zeros 58 (d ∷ rp) hz) (omega arith);
  zeros = inl (
      subst (λ k. Zeros (drop k (onto post (d ∷ rp))))
        (let e : length post ≡ suc (length rp) + length post - 1 - length rp = omega arith in e)
        (rw (drop-onto post (d ∷ rp)) hz));
}
  where
    ends : (rp : List ℕ) (d : ℕ) (post : List ℕ) → onto rp (d ∷ post) ≡ onto (onto post (d ∷ rp)) []
    ends rp d post = sym (onto-onto post (d ∷ rp) [] ∙ ap (onto (d ∷ rp)) (append-nil post))

pub retarget :
    {t t' n n' : ℕ} {r : Option (ℕ × List ℕ)} → t ≡ t' → n ≡ n' → Carried t n r → Carried t' n' r
retarget {t' = t'} {n = n} {r = r} p q h =
    subst (λ k. Carried t' k r) q (subst (λ k. Carried k n r) p h)

left_facts : (high j c : ℕ) → (ltb high j || not (c == 0)) ≡ false → (j ≤ high) × (c ≡ 0)
left_facts high j c h = ground arith

all-Zeros :
    (high : ℕ) (d : ℕ) (rp : List ℕ)
    → length rp ≤ high
    → Zeros (drop (length rp - high) (d ∷ rp))
    → Zeros (d ∷ rp)
all-Zeros high d rp h z =
    subst (λ k. Zeros (drop k (d ∷ rp))) (let e : length rp - high ≡ 0 = omega arith in e) z

-- At the first byte the carry is used up, since the number fits the buffer.
last_round :
    (fuel high x : ℕ) (post : List ℕ)
    → x < 58
    → Below 58 post
    → Carried
        (x * scale 58 post + value 58 post)
        (1 + length post)
        (carry_loop (suc fuel) high 0 0 (x ∷ post))
unfolding carry_loop
last_round fuel high x post hx hp = record {
  j = 0;
  cells = onto post (x ∷ []);
  result = rw (onto-onto post (x ∷ []) [], append-nil post) (ground arith);
  full = omega (arith, length-onto post (x ∷ []));
  digits = onto-Below 58 post (x ∷ []) hp (hx, tt);
  number = rw (low-onto 58 post (x ∷ [])) (omega arith);
  zeros = inr refl;
}

carry_sum :
    (d c l s v : ℕ)
    → (l * 256 + (c + 256 * d) / 58) * (58 * s) + ((c + 256 * d) % 58 * s + v)
      ≡ ((d + 58 * l) * 256 + c) * s + v
carry_sum d c l s v =
    let parts : (c + 256 * d) / 58 * 58 + (c + 256 * d) % 58 ≡ c + 256 * d = omega arith in
    omega (arith, ap (λ (k : ℕ). k * s) parts)

spent_total : (l c s v : ℕ) → l ≡ 0 → c ≡ 0 → v ≡ (l * 256 + c) * s + v
spent_total l c s v hl hc = rw (hl, hc) (omega arith)

-- What the inner loop promises with this much fuel, at any position.
abbrev Runs : ℕ → Type 0
Runs fuel =
    (high : ℕ) (rp : List ℕ) (d c : ℕ) (post : List ℕ)
    → length rp + 1 < fuel
    → Below 58 (d ∷ rp)
    → Below 58 post
    → c < 256
    → Zeros (drop (length rp - high) (d ∷ rp))
    → low 58 (d ∷ rp) * 256 + c < scale 58 (d ∷ rp)
    → Carried ((low 58 (d ∷ rp) * 256 + c) * scale 58 post + value 58 post)
        (suc (length rp) + length post) (carry_loop fuel high (length rp) c (onto rp (d ∷ post)))

next_round :
    (fuel : ℕ)
    → Runs (suc fuel)
    → (high : ℕ) (rp : List ℕ) (d c : ℕ) (post : List ℕ) → length rp + 1 < suc (suc fuel)
    → Below 58 (d ∷ rp)
    → Below 58 post
    → c < 256
    → Zeros (drop (length rp - high) (d ∷ rp))
    → low 58 (d ∷ rp) * 256 + c < scale 58 (d ∷ rp)
    → Carried
        ((low 58 (d ∷ rp) * 256 + c) * scale 58 post + value 58 post)
        (suc (length rp) + length post)
        (carry_loop
          (suc fuel)
          high
          (length rp - 1)
          ((c + 256 * d) / 58)
          (onto rp ((c + 256 * d) % 58 ∷ post)))
next_round fuel ih high [] d c post hf hd hp hc hz fits =
    let spent : (c + 256 * d) / 58 ≡ 0 = omega arith in
    let same : (c + 256 * d) % 58 ≡ d * 256 + c = omega arith in
    rw (spent, same)
      (retarget (omega arith) refl (last_round fuel high (d * 256 + c) post (omega arith) hp))
next_round fuel ih high (d' ∷ rp) d c post hf hd hp hc hz fits =
    let at : length rp ≡ suc (length rp) - 1 = omega arith in
    let full : suc (length rp) + suc (length post) ≡ suc (suc (length rp)) + length post =
      omega arith in
    let total = (low 58 (d ∷ d' ∷ rp) * 256 + c) * scale 58 post + value 58 post in
    let size = suc (suc (length rp)) + length post in
    subst
      (λ k. Carried total size (
        carry_loop (suc fuel) high k ((c + 256 * d) / 58)
          (onto rp (d' ∷ (c + 256 * d) % 58 ∷ post))))
      at
      (retarget (carry_sum d c (d' + 58 * low 58 rp) (scale 58 post) (value 58 post)) full (
        ih high rp d' ((c + 256 * d) / 58) ((c + 256 * d) % 58 ∷ post) (omega arith) hd.1
          (omega arith, hp) (omega arith) (drop_above high d d' rp hz) (omega arith)))

pub carry_loop-Carried : (fuel : ℕ) → Runs fuel
carry_loop-Carried zero high rp d c post hf hd hp hc hz fits = absurd (omega arith)
carry_loop-Carried (suc zero) high rp d c post hf hd hp hc hz fits = absurd (omega arith)
carry_loop-Carried (suc (suc fuel)) high rp d c post hf hd hp hc hz fits =
    rw (carry_step (suc fuel) high rp d c post hd.0 hc)
      (elim (Bool-cases (ltb high (length rp) || not (c == 0))) [
        | inl more ↦
            rw more
              (next_round fuel (carry_loop-Carried (suc fuel)) high rp d c post hf hd hp hc hz fits)
        | inr done ↦
            let (far, none_left) = left_facts high (length rp) c done in
            let zs : Zeros (d ∷ rp) = all-Zeros high d rp far hz in
            rw done (
              retarget (spent_total (low 58 (d ∷ rp)) c _ _ (low-Zeros 58 (d ∷ rp) zs) none_left)
                refl (leave rp d post hd hp zs))
      ])
