-- ===== src/Codec/Base58/Buffer.antt =====
-- The outer loop of `to_base58` in src/common/base58.rs over all bytes.
use mathlib.Core.Path.{subst}
use mwc.Prelude.{
  ℕ, suc, ◌+◌, ◌-◌, ◌*◌, ◌^◌, ◌<◌, ◌≤◌, ◌≡◌, refl, ◌∙◌, ◌⊎◌, inl, inr, List, [], ◌∷◌, Option, some,
  arith, length, drop,
}
use mwc.Codec.Base58.{carry_loop, encode_loop}
use mwc.Codec.Base58.Value.{
  scale, value, low, Below, Zeros, onto, value-onto, scale-pos, length-onto, onto-Below,
}
use mwc.Codec.Base58.Encode.{Carried, retarget, carry_loop-Carried}
use mwc.Codec.Base58.Size.{scale-pow, mul_mono}

-- A number below the weight of the first cell leaves that cell at zero.
top_zero : (d : ℕ) (rp : List ℕ) → low 58 (d ∷ rp) < scale 58 rp → Zeros (drop (length rp) (d ∷ rp))
top_zero d [] h = (omega arith, tt)
top_zero d (e ∷ rp) h = top_zero e rp (omega arith)

-- The buffer `cells`, from its last byte on, between two rounds; `bs` are the bytes to come.
pub record Ready (size high : ℕ) (bs cells : List ℕ) : Type 0 where
  pub full : length cells ≡ suc size
  pub digits : Below 58 cells
  pub zeros : Zeros (drop (size - high) cells) ⊎ (high ≡ 0)
  pub room : (low 58 cells + 1) * scale 256 bs ≤ 58 * 58 ^ size
  pub first_free : (low 58 cells + 1) * scale 256 bs ≤ 256 * 58 ^ size

pub record Encoded (size total : ℕ) (r : Option (List ℕ)) : Type 0 where
  pub buffer : List ℕ
  pub result : r ≡ some buffer
  pub full : length buffer ≡ suc size
  pub digits : Below 58 buffer
  pub number : value 58 buffer ≡ total

drop_factor : (a s p : ℕ) → 0 < s → a * (256 * s) ≤ p → a * 256 ≤ p
drop_factor a s p hs h = omega (arith, mul_mono (a * 256) (a * 256) 1 s (omega arith) hs)

next_room : (l b s p : ℕ) → b < 256 → (l + 1) * (256 * s) ≤ p → (l * 256 + b + 1) * s ≤ p
next_room l b s p hb h =
    omega (arith, mul_mono (l * 256 + b + 1) ((l + 1) * 256) s s (omega arith) (omega arith))

Ready-Zeros :
    (size high b : ℕ) (bs : List ℕ) (d : ℕ) (rp : List ℕ)
    → Ready size high (b ∷ bs) (d ∷ rp)
    → Zeros (drop (length rp - high) (d ∷ rp))
Ready-Zeros size high b bs d rp r =
    let deep : size ≡ length rp = let e = r.full in omega arith in
    elim (r.zeros) [
      | inl z ↦ subst (λ k. Zeros (drop (k - high) (d ∷ rp))) deep z
      | inr at_first ↦
          let free : low 58 (d ∷ rp) < 58 ^ size =
            omega (
              arith,
              drop_factor _ (scale 256 bs) _ (scale-pos 256 bs (omega arith)) r.first_free,
            ) in
          subst (λ k. Zeros (drop k (d ∷ rp)))
            (let e : length rp ≡ length rp - high = omega arith in e)
            (top_zero d rp (rw (scale-pow 58 rp, ← deep) free))
    ]

one_byte :
    (fuel size high b : ℕ) (bs : List ℕ) (d : ℕ) (rp : List ℕ)
    → suc size < fuel
    → b < 256
    → Ready size high (b ∷ bs) (d ∷ rp)
    → Carried
        (low 58 (d ∷ rp) * 256 + b)
        (suc size)
        (carry_loop fuel high size b (onto (d ∷ rp) []))
one_byte fuel size high b bs d rp hf hb r =
    let deep : length rp ≡ size = let e = r.full in omega arith in
    let room : (low 58 (d ∷ rp) + 1) * 256 ≤ 58 * 58 ^ size =
      drop_factor _ (scale 256 bs) _ (scale-pos 256 bs (omega arith)) r.room in
    let weight : scale 58 (d ∷ rp) ≡ 58 * 58 ^ size = rw (scale-pow 58 rp, deep) refl in
    subst
      (λ k.
        Carried (low 58 (d ∷ rp) * 256 + b) (suc k) (carry_loop fuel high k b (onto (d ∷ rp) [])))
      deep
      (retarget (omega arith) (omega arith) (
        carry_loop-Carried fuel high rp d b [] (omega arith) r.digits tt hb
          (Ready-Zeros size high b bs d rp r) (omega arith)))

encode_next :
    (fuel size high b : ℕ) (bs buffer : List ℕ) {j : ℕ} {next : List ℕ}
    → carry_loop fuel high size b buffer ≡ some (j, next)
    → encode_loop fuel (suc size) high (b ∷ bs) buffer ≡ encode_loop fuel (suc size) j bs next
unfolding encode_loop
encode_next fuel size high b bs buffer h =
    let e : suc size - 1 ≡ size = omega arith in rw (e, h, encode_loop)

Ready-next :
    (size high b : ℕ) (bs : List ℕ) (d : ℕ) (rp : List ℕ)
    → b < 256
    → Ready size high (b ∷ bs) (d ∷ rp)
    → {r : Option (ℕ × List ℕ)} (c : Carried (low 58 (d ∷ rp) * 256 + b) (suc size) r)
    → Ready size c.j bs c.cells
Ready-next size high b bs d rp hb r c = record {
  full = c.full;
  digits = c.digits;
  zeros =
      subst (λ k. Zeros (drop (k - c.j) c.cells) ⊎ (c.j ≡ 0))
        (let e : suc size - 1 ≡ size = omega arith in e) c.zeros;
  room = rw (c.number) (next_room (low 58 (d ∷ rp)) b (scale 256 bs) _ hb r.room);
  first_free = rw (c.number) (next_room (low 58 (d ∷ rp)) b (scale 256 bs) _ hb r.first_free);
}

pub encode_loop-Encoded :
    (fuel size high : ℕ) (bs cells : List ℕ)
    → suc size < fuel
    → Below 256 bs
    → Ready size high bs cells
    → Encoded size
        (low 58 cells * scale 256 bs + value 256 bs)
        (encode_loop fuel (suc size) high bs (onto cells []))
encode_loop-Encoded fuel size high [] cells hf hb r = record {
  buffer = onto cells [];
  result = unfold encode_loop in refl;
  full = let e = r.full in omega (arith, length-onto cells []);
  digits = onto-Below 58 cells [] r.digits tt;
  number = rw (value-onto 58 cells []) refl;
}
encode_loop-Encoded fuel size high (b ∷ bs) [] hf hb r = absurd (let e = r.full in omega arith)
encode_loop-Encoded fuel size high (b ∷ bs) (d ∷ rp) hf hb r =
    let c = one_byte fuel size high b bs d rp hf hb.0 r in
    let rest =
      encode_loop-Encoded fuel size c.j bs c.cells hf hb.1
        (Ready-next size high b bs d rp hb.0 r c) in
    record {
      buffer = rest.buffer;
      result = encode_next fuel size high b bs _ c.result ∙ rest.result;
      full = rest.full;
      digits = rest.digits;
      number = rest.number ∙ rw (c.number) (omega arith);
    }
