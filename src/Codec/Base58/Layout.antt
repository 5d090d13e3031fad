-- ===== src/Codec/Base58/Layout.antt =====
-- Leading runs, and the bytes of words: what the texts and vectors of src/common/base58.rs look like.
use mwc.Prelude.{
  ℕ, zero, suc, ◌+◌, ◌-◌, ◌*◌, ◌/◌, ◌%◌, ◌^◌, ◌<◌, ◌≤◌, ◌≡◌, ◌≢◌, refl, ap, List, [], ◌∷◌, ◌++◌,
  arith, length, get_or, replicate, Bytes, map, drop,
}
use mwc.Codec.Base58.{alphabet, leading, word_bytes}
use mwc.Codec.Base58.Value.{scale, value, Below}
use mwc.Codec.Base58.Tables.{symbol-ne-one}

-- A list is its leading run of `a` and what is behind it.
pub leading_split :
    (a : ℕ) (xs : List ℕ) → replicate (leading a xs) a ++ drop (leading a xs) xs ≡ xs
leading_split a [] = refl
leading_split a (x ∷ xs) = ground (arith, leading_split a xs)

pub leading-le-length : (a : ℕ) (xs : List ℕ) → leading a xs ≤ length xs
leading-le-length a [] = omega arith
leading-le-length a (x ∷ xs) = ground (arith, leading-le-length a xs)

pub length-drop : (n : ℕ) (xs : List ℕ) → length (drop n xs) ≡ length xs - n
length-drop zero xs = omega arith
length-drop (suc n) [] = omega arith
length-drop (suc n) (x ∷ xs) = omega (arith, length-drop n xs)

-- The first entry, if there is one, is not `a`.
abbrev pub Stops : ℕ → List ℕ → Type 0
Stops a xs = leading a xs ≡ 0

pub leading-Stops : (a : ℕ) (xs : List ℕ) → Stops a (drop (leading a xs) xs)
leading-Stops a [] = refl
leading-Stops a (x ∷ xs) = ground (arith, leading-Stops a xs)

pub leading_more : (a n : ℕ) (xs : List ℕ) → leading a (replicate n a ++ xs) ≡ n + leading a xs
leading_more a zero xs = omega arith
leading_more a (suc n) xs = ground (arith, leading_more a n xs)

pub drop_run : (a n : ℕ) (xs : List ℕ) → drop n (replicate n a ++ xs) ≡ xs
drop_run a zero xs = refl
drop_run a (suc n) xs = drop_run a n xs

head-Stops : (a x : ℕ) (xs : List ℕ) → x ≢ a → Stops a (x ∷ xs)
head-Stops a x xs h = ground arith

Stops-head : (a x : ℕ) (xs : List ℕ) → Stops a (x ∷ xs) → x ≢ a
Stops-head a x xs h = ground arith

abbrev pub symbols : List ℕ → Bytes
symbols = map (λ d. get_or alphabet d 0)

pub symbols-Stops : (ds : List ℕ) → Below 58 ds → Stops 0 ds → Stops b'1' (symbols ds)
symbols-Stops [] hd h = refl
symbols-Stops (d ∷ ds) hd h =
    head-Stops b'1' (get_or alphabet d 0) (symbols ds) (symbol-ne-one d hd.0 (Stops-head 0 d ds h))

-- The bytes of words.
pub scale-word_bytes : (ws : List ℕ) → scale 256 (word_bytes ws) ≡ scale (2 ^ 32) ws
unfolding word_bytes
scale-word_bytes [] = refl
scale-word_bytes (w ∷ ws) = omega (arith, scale-word_bytes ws)

four_bytes :
    (w s : ℕ)
    → w < 2 ^ 32
    → w / 2 ^ 24 % 256 * (256 * (256 * (256 * s)))
        + (w / 2 ^ 16 % 256 * (256 * (256 * s)) + (w / 2 ^ 8 % 256 * (256 * s) + w % 256 * s))
      ≡ w * s
four_bytes w s h =
    let parts : w / 2 ^ 24 % 256 * 2 ^ 24
          + w / 2 ^ 16 % 256 * 2 ^ 16
          + w / 2 ^ 8 % 256 * 2 ^ 8
          + w % 256
        ≡ w =
      omega arith in
    omega (arith, ap (λ (k : ℕ). k * s) parts)

pub word_bytes_value :
    (ws : List ℕ) → Below (2 ^ 32) ws → value 256 (word_bytes ws) ≡ value (2 ^ 32) ws
unfolding word_bytes
word_bytes_value [] h = refl
word_bytes_value (w ∷ ws) h =
    rw (scale-word_bytes ws, word_bytes_value ws h.1)
      (omega (arith, four_bytes w (scale (2 ^ 32) ws) h.0))

pub length-word_bytes : (ws : List ℕ) → length (word_bytes ws) ≡ 4 * length ws
unfolding word_bytes
length-word_bytes [] = omega arith
length-word_bytes (w ∷ ws) = omega (arith, length-word_bytes ws)

pub word_bytes-Below : (ws : List ℕ) → Below 256 (word_bytes ws)
unfolding word_bytes
word_bytes-Below [] = tt
word_bytes-Below (w ∷ ws) =
    (omega arith, (omega arith, (omega arith, (omega arith, word_bytes-Below ws))))
