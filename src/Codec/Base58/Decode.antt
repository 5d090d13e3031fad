-- ===== src/Codec/Base58/Decode.antt =====
-- The loops of `from_base58` in src/common/base58.rs: the words hold the number that the digits spell.
use mwc.Prelude.{
  ℕ, zero, suc, ◌+◌, ◌*◌, ◌/◌, ◌%◌, ◌^◌, ◌<◌, ◌≡◌, refl, ap, ◌∙◌, not, List, [], ◌∷◌, arith, length,
  get_or, Bytes, map, ◌==◌, if◌then◌else◌, ok,
}
use mwc.Codec.Base58.{alphabet, mul_add, decode_loop}
use mwc.Codec.Base58.Size.{mul_mono}
use mwc.Codec.Base58.Tables.{IsDigitOf, symbol-IsDigitOf}
use mwc.Codec.Base58.Value.{scale, value, Below, scale-pos}

-- One digit: the words with the carry hold 58 times the old number and the digit.
pub record Multiplied (ws : List ℕ) (c : ℕ) (r : List ℕ × ℕ) : Type 0 where
  pub full : scale (2 ^ 32) r.0 ≡ scale (2 ^ 32) ws
  pub words : length r.0 ≡ length ws
  pub digits : Below (2 ^ 32) r.0
  pub carry : r.1 < 58
  pub number : value (2 ^ 32) r.0 + r.1 * scale (2 ^ 32) ws ≡ 58 * value (2 ^ 32) ws + c

one_word :
    (w c c' s v v' : ℕ)
    → v' + c' * s ≡ 58 * v + c
    → (w * 58 + c') % 2 ^ 32 * s + v' + (w * 58 + c') / 2 ^ 32 * (2 ^ 32 * s) ≡ 58 * (w * s + v) + c
one_word w c c' s v v' h =
    let parts : (w * 58 + c') / 2 ^ 32 * 2 ^ 32 + (w * 58 + c') % 2 ^ 32 ≡ w * 58 + c' =
      omega arith in
    omega (arith, ap (λ (k : ℕ). k * s) parts)

pub mul_add-Multiplied :
    (ws : List ℕ) (c : ℕ) → Below (2 ^ 32) ws → c < 58 → Multiplied ws c (mul_add ws c)
unfolding mul_add
mul_add-Multiplied [] c hw hc = record {
  full = refl;
  words = refl;
  digits = tt;
  carry = hc;
  number = omega arith;
}
mul_add-Multiplied (w ∷ ws) c hw hc =
    let ih = mul_add-Multiplied ws c hw.1 hc in
    let small : (w * 58 + (mul_add ws c).1) / 2 ^ 32 % 64 ≡ (w * 58 + (mul_add ws c).1) / 2 ^ 32 =
      let k = ih.carry in omega arith in
    record {
      full = ap (λ k. 2 ^ 32 * k) ih.full;
      words = ap suc ih.words;
      digits = (omega arith, ih.digits);
      carry = let k = ih.carry in omega arith;
      number = rw (small, ih.full) (one_word w c (mul_add ws c).1 _ _ _ ih.number);
    }

guards_pass :
    {A : Type 0} (x d y : ℕ) (a b c r : A)
    → x ≡ 0
    → d < 58
    → y ≡ 0
    → (if x == 1 then a else if d == 255 then b else if not (y == 0) then c else r) ≡ r
guards_pass x d y a b c r hx hd hy = ground arith

pub decode_one :
    (i c d : ℕ) (bs : Bytes) (out : List ℕ)
    → IsDigitOf c d
    → (mul_add out d).1 ≡ 0
    → decode_loop i (c ∷ bs) out ≡ decode_loop (i + 1) bs (mul_add out d).0
unfolding decode_loop
decode_one i c d bs out h k = rw (h.1) (guards_pass (c / 2 ^ 7 % 2) d _ _ _ _ _ h.0 h.2 k)

no_carry : (c s x v : ℕ) → v + c * s ≡ x → x < s → c ≡ 0
no_carry zero s x v e h = refl
no_carry (suc c) s x v e h = absurd (omega arith)

below_words : (v d s w t : ℕ) → 0 < s → v * (58 * s) + (d * s + w) < t → 58 * v + d < t
below_words v d s w t hs h = omega (arith, mul_mono (58 * v + d) (58 * v + d) 1 s (omega arith) hs)

-- Digits whose number fits the words are read without an error.
pub record Decoded (n total : ℕ) (i : ℕ) (s : Bytes) (out : List ℕ) : Type 0 where
  pub words : List ℕ
  pub result : decode_loop i s out ≡ ok words
  pub full : length words ≡ n
  pub digits : Below (2 ^ 32) words
  pub number : value (2 ^ 32) words ≡ total

pub decode_loop-Decoded :
    (i : ℕ) (ds : List ℕ) (out : List ℕ)
    → Below 58 ds
    → Below (2 ^ 32) out
    → value (2 ^ 32) out * scale 58 ds + value 58 ds < scale (2 ^ 32) out
    → Decoded
        (length out)
        (value (2 ^ 32) out * scale 58 ds + value 58 ds)
        i
        (map (λ d. get_or alphabet d 0) ds)
        out
decode_loop-Decoded i [] out hd ho fits = record {
  words = out;
  result = unfold decode_loop in refl;
  full = refl;
  digits = ho;
  number = omega arith;
}
decode_loop-Decoded i (d ∷ ds) out hd ho fits =
    let m = mul_add-Multiplied out d ho hd.0 in
    let s = scale 58 ds in
    let spent : (mul_add out d).1 ≡ 0 =
      no_carry _ _ _ _ m.number
        (below_words _ d s (value 58 ds) _ (scale-pos 58 ds (omega arith)) fits) in
    let next : value (2 ^ 32) (mul_add out d).0 ≡ 58 * value (2 ^ 32) out + d =
      let e = m.number in omega (arith, ap (λ (k : ℕ). k * scale (2 ^ 32) out) spent) in
    let grown : value (2 ^ 32) (mul_add out d).0 * s ≡ (58 * value (2 ^ 32) out + d) * s =
      ap (λ k. k * s) next in
    let f = m.full in
    let rest = decode_loop-Decoded (i + 1) ds (mul_add out d).0 hd.1 m.digits (omega arith) in
    record {
      words = rest.words;
      result =
          decode_one i (get_or alphabet d 0) d _ out (symbol-IsDigitOf d hd.0) spent ∙ rest.result;
      full = rest.full ∙ m.words;
      digits = rest.digits;
      number = let e = rest.number in omega arith;
    }
