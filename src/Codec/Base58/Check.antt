-- ===== src/Codec/Base58/Check.antt =====
-- The base58 forms with a version and a checksum (src/common/base58.rs). SHA-256 is a parameter,
-- of which only the length and the range of its bytes is used.
use mwc.Prelude.{
  Bool-cases, inl, inr, bytes_eq→eq, ℕ, ◌-◌, ◌<◌, ◌≤◌, ◌≡◌, refl, sym, ap, ◌∙◌, false, ◌++◌, arith,
  length, Bytes, IsByte, All, take, some, ok, length-append, take_front, drop_front, All-append,
  bytes_eq, bytes_eq_refl, ltb, ◌∷◌, err, zero, suc, [], if◌then◌else◌, All-take, take-append-drop,
}
use mwc.ErrorKind.{invalid_base58_checksum}
use mwc.Codec.Base58.{to_base58_check, from_base58_check, check_payload, split_version}
use mwc.Codec.Base58.RoundTrip.{from_base58-to_base58}

pub length_first : (n : ℕ) (h : Bytes) → n ≤ length h → length (take n h) ≡ n
length_first zero h k = refl
length_first (suc n) [] k = elim k [ ]
length_first (suc n) (x ∷ h) k = ap suc (length_first n h (omega arith))

module _ (double_sha256 : Bytes → Bytes) where
  abbrev pub IsHash : Type 0
  IsHash = (p : Bytes) → (4 ≤ length (double_sha256 p)) × All IsByte (double_sha256 p)

  split_front :
      (version bytes : Bytes)
      → split_version double_sha256 (version ++ bytes) (length version) ≡ ok (version, bytes)
  unfolding split_version
  split_front version bytes =
      let inside : ltb (length (version ++ bytes)) (length version) ≡ false =
        ground (arith, length-append version bytes) in
      rw (inside, take_front version bytes, drop_front version bytes)

  -- A body and a checksum of four bytes are told apart, and only the hash of the body passes.
  check_body :
      (body sum : Bytes) (n : ℕ)
      → 0 < length body
      → length sum ≡ 4
      → check_payload double_sha256 (body ++ sum) n ≡ (
          if bytes_eq (take 4 (double_sha256 body)) sum
          then split_version double_sha256 body n
          else err invalid_base58_checksum)
  unfolding check_payload
  check_body body sum n h four =
      let long : ltb (length (body ++ sum)) 5 ≡ false = ground (arith, length-append body sum) in
      let index : length (body ++ sum) - 4 ≡ length body = omega (arith, length-append body sum) in
      rw (long, index, take_front body sum, drop_front body sum)

  -- The length of the first four bytes of a hash.
  four_of_hash : IsHash → (p : Bytes) → length (take 4 (double_sha256 p)) ≡ 4
  four_of_hash hash p = length_first 4 (double_sha256 p) (hash p).0

  -- Where the hash has at least four bytes and only bytes, a vector with its version in front, that
  -- is not empty and holds at most 128 bytes, is written with its checksum, given more than 183 rounds,
  -- and is read back as the same version and vector.
  pub from_base58_check-to_base58_check :
      IsHash
      → (fuel : ℕ) (version bytes : Bytes) → 0 < length (version ++ bytes)
      → length (version ++ bytes) ≤ 128
      → All IsByte version
      → All IsByte bytes
      → 183 < fuel
      → (s : Bytes) × (to_base58_check double_sha256 fuel bytes version ≡ some s)
        × (from_base58_check double_sha256 s (length version) ≡ ok (version, bytes))
  unfolding to_base58_check from_base58_check
  from_base58_check-to_base58_check hash fuel version bytes pos fits hv hb hf =
      let p = version ++ bytes in
      let sum = take 4 (double_sha256 p) in
      let four = four_of_hash hash p in
      let whole : length (p ++ sum) ≤ 132 = omega (arith, length-append p sum) in
      let (s, written, back) =
        from_base58-to_base58 fuel (p ++ sum) (omega arith)
          (All-append IsByte p sum (All-append IsByte version bytes hv hb)
            (All-take IsByte 4 (double_sha256 p) (hash p).1))
          whole in
      (
        s,
        written,
        rw back (
            check_body p sum (length version) pos four
            ∙ rw (bytes_eq_refl sum) (split_front version bytes)),
      )

  split_version-eq_ok :
      (body : Bytes) (n : ℕ) {v b : Bytes}
      → split_version double_sha256 body n ≡ ok (v, b)
      → (v ≡ take n body) × (v ++ b ≡ body)
  unfolding split_version
  split_version-eq_ok body n h = ground (arith, take-append-drop n body)

  -- A payload of at least five bytes is accepted only if its last four bytes are the first four of
  -- the hash of the rest; then the rest is given back, cut behind the version.
  pub check_payload-eq_ok :
      (body sum : Bytes) (n : ℕ) {v b : Bytes}
      → 0 < length body
      → length sum ≡ 4
      → check_payload double_sha256 (body ++ sum) n ≡ ok (v, b)
      → (take 4 (double_sha256 body) ≡ sum) × (v ≡ take n body) × (v ++ b ≡ body)
  check_payload-eq_ok body sum n {v} {b} pos h4 h =
      let k = sym (check_body body sum n pos h4) ∙ h in
      elim (Bool-cases (bytes_eq (take 4 (double_sha256 body)) sum)) [
        | inl same ↦
            let (first, whole) = split_version-eq_ok body n (rw same at k) in
            (bytes_eq→eq _ _ same, first, whole)
        | inr other ↦ absurd (let bad = rw other at k in cc)
      ]
