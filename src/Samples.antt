-- ===== src/Samples.antt =====
-- Small instances of what is not under src/, for the tests: keys, signatures and slates are Booleans.
pub mod Table
pub mod Library
pub mod Files
use mwc.Prelude.{
  ℕ, zero, suc, ◌≡◌, refl, ap, sym, Bool, true, false, ◌&&◌, [], ◌∷◌, ◌++◌, Option, none, some,
  Bytes, IsByte, All, length, take, drop, ◌==◌, replicate, if◌then◌else◌, take_front, drop_front,
  arith,
}
use mathlib.Core.Path.{subst}
use mwc.Contacts.Address.{Crypto, MqAddress}
use mwc.Proof.Cipher.{Cipher, EncryptedMessage, Carried}

abbrev pub sample_hash : Bytes → Bytes
sample_hash p = replicate 32 7

abbrev pub serialize : Bool → Bytes
serialize true = 2 ∷ replicate 32 1
serialize false = 3 ∷ replicate 32 1

abbrev pub from_slice : Bytes → Option Bool
from_slice [] = none
from_slice (c ∷ s) = if c == 2 then some true else some false

pub serialize_length : (k : Bool) → length (serialize k) ≡ 33
serialize_length true = refl
serialize_length false = refl

pub serialize_bytes : (k : Bool) → All IsByte (serialize k)
serialize_bytes true = omega arith
serialize_bytes false = omega arith

pub from_slice_back : (k : Bool) → from_slice (serialize k) ≡ some k
from_slice_back true = refl
from_slice_back false = refl

abbrev pub sample_crypto : Crypto
sample_crypto = record {
  PublicKey = Bool;
  sha256 = sample_hash;
  serialize = serialize;
  from_slice = from_slice;
  url_parses = λ s. true;
  is_mainnet = true;
  hash_length = λ p. refl;
  hash_bytes = λ p. omega arith;
  key_length = serialize_length;
  key_bytes = serialize_bytes;
  from_slice-serialize = from_slice_back;
}

-- A field is written with its length in front.
abbrev field : Bytes → Bytes
field s = length s ∷ s

abbrev read_field : Bytes → (Bytes × Bytes)
read_field [] = ([], [])
read_field (n ∷ s) = (take n s, drop n s)

abbrev write_port : Option ℕ → Bytes
write_port none = 0 ∷ []
write_port (some p) = 1 ∷ p ∷ []

abbrev read_port : Bytes → Option ℕ
read_port (suc n ∷ p ∷ s) = some p
read_port _ = none

port_back : (port : Option ℕ) → read_port (write_port port) ≡ port
port_back none = refl
port_back (some p) = refl

abbrev write_address : Option MqAddress → Bytes
write_address none = 0 ∷ []
write_address (some a) = 1 ∷ (field a.public_key ++ (field a.domain ++ write_port a.port))

abbrev read_address : Bytes → Option MqAddress
read_address (suc n ∷ s) =
    let (key, s') = read_field s in
    let (domain, s'') = read_field s' in
    some (record { public_key = key; domain = domain; port = read_port s'' })
read_address _ = none

address_back : (a : Option MqAddress) → read_address (write_address a) ≡ a
address_back none = refl
address_back (some a) =
    rw
      (
        take_front a.public_key (field a.domain ++ write_port a.port),
        drop_front a.public_key (field a.domain ++ write_port a.port),
        take_front a.domain (write_port a.port),
        drop_front a.domain (write_port a.port),
        port_back a.port,
      )
      refl

abbrev pub write_message : EncryptedMessage → Bytes
write_message m =
    field m.encrypted_message ++ (field m.salt ++ (field m.nonce ++ write_address m.destination))

abbrev pub read_message : Bytes → Option EncryptedMessage
read_message s =
    let (text, s1) = read_field s in
    let (salt, s2) = read_field s1 in
    let (nonce, s3) = read_field s2 in
    some (record {
      destination = read_address s3;
      encrypted_message = text;
      salt = salt;
      nonce = nonce;
    })

pub message_back : (m : EncryptedMessage) → read_message (write_message m) ≡ some m
message_back m =
    let last = write_address m.destination in
    let behind_salt = field m.nonce ++ last in
    let behind_text = field m.salt ++ behind_salt in
    rw
      (
        take_front m.encrypted_message behind_text,
        drop_front m.encrypted_message behind_text,
        take_front m.salt behind_salt,
        drop_front m.salt behind_salt,
        take_front m.nonce last,
        drop_front m.nonce last,
        address_back m.destination,
      )
      refl

abbrev pub bit : Bool → Bytes
bit true = 1 ∷ []
bit false = 0 ∷ []

abbrev pub read_bit : Bytes → Option Bool
read_bit (suc n ∷ []) = some true
read_bit (zero ∷ []) = some false
read_bit _ = none

pub bit_back : (b : Bool) → read_bit (bit b) ≡ some b
bit_back true = refl
bit_back false = refl

pub bit-Carried : (b : Bool) → Carried (bit b)
unfolding Carried
bit-Carried true = (cc, omega arith, omega arith)
bit-Carried false = (cc, omega arith, omega arith)

pub and_comm : (a b : Bool) → (a && b) ≡ (b && a)
and_comm true true = refl
and_comm true false = refl
and_comm false true = refl
and_comm false false = refl

abbrev pub same_bit : Bool → Bool → Bool
same_bit true b = b
same_bit false true = false
same_bit false false = true

same_bit_refl : (b : Bool) → same_bit b b ≡ true
same_bit_refl true = refl
same_bit_refl false = refl

-- A text is sealed if it is one of a bit.
abbrev pub seal : Bytes → Option Bytes
seal (zero ∷ []) = some (0 ∷ [])
seal (suc zero ∷ []) = some (1 ∷ [])
seal _ = none

abbrev pub some_bit : Bool → Option Bool
some_bit b = some b

abbrev some_text : Bytes → Option Bytes
some_text t = some t

Carried-as : (text sealed : Bytes) → some_text text ≡ some sealed → Carried text → Carried sealed
Carried-as text sealed h k = subst Carried (let e : text ≡ sealed = cc in e) k

pub seal_back :
    (text : Bytes) {sealed : Bytes}
    → seal text ≡ some sealed
    → (some sealed ≡ some text) × Carried sealed
unfolding Carried
seal_back [] h = cc
seal_back (zero ∷ []) h = (sym h, Carried-as (0 ∷ []) _ h (bit-Carried false))
seal_back (suc zero ∷ []) h = (sym h, Carried-as (1 ∷ []) _ h (bit-Carried true))
seal_back (suc (suc n) ∷ []) h = cc
seal_back (zero ∷ d ∷ s) h = cc
seal_back (suc zero ∷ d ∷ s) h = cc
seal_back (suc (suc n) ∷ d ∷ s) h = cc

pub signed_back : (k s : Bool) → some_bit k ≡ some_bit s → same_bit s k ≡ true
signed_back true true h = refl
signed_back true false h = cc
signed_back false true h = cc
signed_back false false h = refl

abbrev pub sample_cipher : Cipher sample_crypto
sample_cipher = record {
  SecretKey = Bool;
  Signature = Bool;
  Slate = Bool;
  public_key_from_secret_key = λ k. k;
  multiply = λ p k. some (p && k);
  pbkdf2 = λ salt s. salt ++ s;
  seal_in_place = λ key nonce text. seal text;
  open_in_place = λ key nonce sealed. some sealed;
  is_utf8 = λ s. true;
  secp_sign = λ digest k. some k;
  secp_verify = λ digest s p. same_bit s p;
  serialize_der = bit;
  from_der = read_bit;
  message_to_string = write_message;
  message_from_str = read_message;
  slate_to_string = bit;
  deserialize_upgrade = read_bit;
  multiply_shared = λ a b. ap (λ (x : Bool). some x) (and_comm a b);
  open-seal = λ key nonce text h. seal_back text h;
  verify-sign = λ digest k h. signed_back k _ h;
  from_der-serialize_der = bit_back;
  der_carried = bit-Carried;
  message_from_str-to_string = message_back;
  deserialize_upgrade-to_string = bit_back;
  slate_is_utf8 = λ s. refl;
}
