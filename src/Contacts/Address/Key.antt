-- ===== src/Contacts/Address/Key.antt =====
-- The text of a public key (src/common/crypto.rs): 52 base58 characters, read back as the key.
use native.Mathlib.Nat.{pow-le-pow_right}
use native.Mathlib.Decide.{dec_le}
use mwc.Prelude.{
  ◌⊎◌, inl, inr, Bool-cases, ℕ, suc, ◌*◌, ◌^◌, ◌<◌, ◌≤◌, ◌≡◌, refl, ap, ◌∙◌, List, [], ◌∷◌, ◌++◌,
  arith, All, All-append, All-take, Bytes, IsByte, some, if◌then◌else◌, Option, ok, length, take,
  length-append, bytes_eq_refl,
}
use mwc.Codec.Base58.{to_base58_check, from_base58_check}
use mwc.Codec.Base58.Value.{scale, value, Below, value-lt-scale}
use mwc.Codec.Base58.Size.{scale-pow}
use mwc.Codec.Base58.Layout.{Stops, symbols}
use mwc.Codec.Base58.Written.{Written, to_base58-Written}
use mwc.Codec.Base58.Check.{from_base58_check-to_base58_check, length_first}
use mwc.Contacts.Address.{
  double_sha256, Crypto, base58_fuel, version_bytes, is_base58, key_from_base58_check,
  key_to_base58_check,
}
use mwc.Contacts.Address.Chars.{Of, symbols-Of}

length-symbols : (ds : List ℕ) → length (symbols ds) ≡ length ds
length-symbols [] = refl
length-symbols (d ∷ ds) = ap suc (length-symbols ds)

Stops-pos : (d : ℕ) (ds : List ℕ) → Stops 0 (d ∷ ds) → 0 < d
Stops-pos d ds h = ground arith

first_digit : (d s : ℕ) → 0 < d → s ≤ d * s
first_digit d s h = grind arith

-- A number between 58 ^ 51 and 58 ^ 52 has 52 digits.
digits_length :
    (ds : List ℕ)
    → Below 58 ds
    → Stops 0 ds
    → 58 ^ 51 ≤ value 58 ds
    → value 58 ds < 58 ^ 52
    → length ds ≡ 52
digits_length [] hb hs lo hi = absurd (omega arith)
digits_length (d ∷ ds) hb hs lo hi =
    let below : value 58 (d ∷ ds) < 58 ^ length (d ∷ ds) =
      rw (← scale-pow 58 (d ∷ ds)) (value-lt-scale 58 (d ∷ ds) hb) in
    let above : 58 ^ length ds ≤ value 58 (d ∷ ds) =
      rw (← scale-pow 58 ds) (omega (arith, first_digit d (scale 58 ds) (Stops-pos d ds hs))) in
    elim (dec_le 52 (suc (length ds))) [
      | yes enough ↦ elim (dec_le 52 (length ds)) [
        | yes more ↦ absurd (omega (arith, pow-le-pow_right {n = 58} (omega arith) more))
        | no right ↦ omega arith
      ]
      | no short ↦ absurd (
          omega (
            arith,
            pow-le-pow_right {n = 58} (omega arith)
                (let le : suc (length ds) ≤ 51 = omega arith in le),
          ))
    ]

-- A payload that starts with a version of the program and has 39 bytes is written in 52 characters.
Written-length :
    (v : ℕ) (body : Bytes) {r : Option Bytes} (s : Bytes)
    → (v ≡ 69) ⊎ (v ≡ 121)
    → length body ≡ 37
    → All IsByte body
    → Written (1 ∷ v ∷ body) r
    → r ≡ some s
    → (length s ≡ 52) × Of is_base58 s
Written-length v body s hv hl hb w h =
    let same : s ≡ symbols w.digits = let e = w.result in cc in
    let weight : scale 256 body ≡ 256 ^ 37 = scale-pow 256 body ∙ ap (λ k. 256 ^ k) hl in
    let second : v * scale 256 body ≡ v * 256 ^ 37 = ap (λ k. v * k) weight in
    let rest = value-lt-scale 256 body hb in
    let n = w.number in
    let digits : length w.digits ≡ 52 =
      digits_length w.digits w.below w.stops (omega (arith, second)) (omega (arith, second)) in
    rw same (length-symbols w.digits ∙ digits, symbols-Of w.digits w.below)

module _ (c : Crypto) where
  open c use {
    PublicKey, sha256, serialize, from_slice, is_mainnet, hash_length, hash_bytes, key_length,
    key_bytes, from_slice-serialize,
  }

  abbrev hash : Bytes → Bytes
  hash = double_sha256 sha256

  -- The version's second byte.
  abbrev network : ℕ
  network = if is_mainnet then 69 else 121

  network_cases : (network ≡ 69) ⊎ (network ≡ 121)
  network_cases = elim (Bool-cases is_mainnet) [ inl e ↦ inl (rw e) | inr e ↦ inr (rw e) ]

  version_lem : version_bytes c ≡ 1 ∷ network ∷ []
  unfolding version_bytes
  version_lem = ground arith

  abbrev body : PublicKey → Bytes
  body k = serialize k ++ take 4 (hash (1 ∷ network ∷ serialize k))

  body-length : (k : PublicKey) → length (body k) ≡ 37
  body-length k = omega (
    arith,
    length-append (serialize k) (take 4 (hash (1 ∷ network ∷ serialize k))),
    key_length k,
    length_first 4 (hash (1 ∷ network ∷ serialize k))
        (omega (arith, hash_length (sha256 (1 ∷ network ∷ serialize k)))),
  )

  body-bytes : (k : PublicKey) → All IsByte (body k)
  body-bytes k =
      All-append IsByte (serialize k) _ (key_bytes k) (All-take IsByte 4 _ (hash_bytes _))

  network-byte : network < 256
  network-byte = let h = network_cases in omega arith

  read_back :
      (k : PublicKey) (s : Bytes)
      → from_base58_check hash s 2 ≡ ok (1 ∷ network ∷ [], serialize k)
      → key_from_base58_check c s (1 ∷ network ∷ []) ≡ ok k
  unfolding key_from_base58_check
  read_back k s h = rw (h, bytes_eq_refl (1 ∷ network ∷ []), from_slice-serialize k)

  -- The text of a key with the version of the network: it has 52 base58 characters, and the key is
  -- read back from it.
  pub key_text :
      (k : PublicKey)
      → (s : Bytes) × (key_to_base58_check c k (version_bytes c) ≡ some s)
        × (key_from_base58_check c s (version_bytes c) ≡ ok k)
        × (length s ≡ 52)
        × Of is_base58 s
  unfolding key_to_base58_check to_base58_check
  key_text k =
      let version = 1 ∷ network ∷ [] in
      let (s, written, back) =
        from_base58_check-to_base58_check hash
          (λ p. (omega (arith, hash_length (sha256 p)), hash_bytes (sha256 p))) base58_fuel
          (1 ∷ network ∷ []) (serialize k) (omega arith) (omega (arith, key_length k))
          (omega arith, (network-byte, tt)) (key_bytes k) (omega arith) in
      let payload = 1 ∷ network ∷ body k in
      let w =
        to_base58-Written base58_fuel (1 ∷ network ∷ body k) (omega (arith, body-length k))
          (omega arith, (network-byte, body-bytes k)) in
      let (long, chars) =
        Written-length network (body k) s network_cases (body-length k) (body-bytes k) w written in
      rw version_lem (s, written, read_back k s back, long, chars)
