-- ===== src/Broker/Mwcmqs/Relayed.antt =====
-- A slate that is posted over MWCMQS is delivered by the listener of its receiver, from the text that
-- the server gives it (src/broker/mwcmq.rs).
use mwc.Prelude.{
  ℕ, ◌<◌, ◌/◌, ◌%◌, ◌≡◌, ◌≢◌, refl, ap, sym, ◌∙◌, true, List, [], ◌∷◌, ◌++◌, Option, some, Bytes,
  IsByte, All, All-append, ok, codes, ◌==◌, split_front, split_none, Without, absent-Without,
  replace_behind, contains, length, if◌then◌else◌, arith,
}
use mathlib.Core.Path.{subst}
use mwc.Codec.Hex.{to_hex, hex_digit, trim, trim_end}
use mwc.Contacts.Address.{Crypto, MqAddress, mwcmqs, new, stripped, to_string, is_domain}
use mwc.Contacts.Address.Chars.{Of}
use mwc.Contacts.Address.Suffix.{FitsU16}
use mwc.Contacts.Address.Cross.{new-CrossRead, in_address, stripped-Of}
use mwc.Proof.Cipher.{Cipher, Carried}
use mwc.Broker.Calls.{on_slate}
use mwc.Broker.Mwcmqs.Message.{
  Link, further, nginx_down, sleeps, Turn, delivered, calls, unescape, handle, parts_of, value_of,
  clean_from, read_param, walk, on_parts, on_text,
}
use mwc.Broker.Mwcmqs.Escapes.{IsSendable, turn_plain, trim_start_none, trim_end_none}
use mwc.Broker.Mwcmqs.Post.{Post, post_request}
use mwc.Broker.Mwcmqs.Posted.{post_request-Made, handle-Made}

-- A character that separates nothing in a message.
abbrev pub IsInner : ℕ → Type 0
IsInner c = (c ≢ b' ') × (c ≢ b'&') × (c ≢ b'=')

abbrev Sound : ℕ → Type 0
Sound c = IsSendable c × IsInner c

all_weaker : {P Q : ℕ → Type 0} (s : Bytes) → ((c : ℕ) → P c → Q c) → All P s → All Q s
all_weaker [] h k = tt
all_weaker (c ∷ s) h k = (h c k.0, all_weaker s h k.1)

address-Sound : (c : ℕ) → in_address c ≡ true → Sound c
unfolding in_address is_domain
address-Sound c h = (
  ((λ e. ground arith), ground arith),
  ((λ e. ground arith), (λ e. ground arith), (λ e. ground arith)),
)

digit-Sound : (d : ℕ) → d < 16 → Sound (hex_digit d)
digit-Sound d h = (
  ((λ e. ground arith), ground arith),
  ((λ e. ground arith), (λ e. ground arith), (λ e. ground arith)),
)

hex-Sound : (bs : Bytes) → All IsByte bs → All Sound (to_hex bs)
unfolding to_hex
hex-Sound [] h = tt
hex-Sound (b ∷ bs) h =
    let byte = h.0 in
    (digit-Sound (b / 16) (omega arith), (digit-Sound (b % 16) (omega arith), hex-Sound bs h.1))

trimmed : (s : Bytes) → All Sound s → trim s ≡ s
trimmed s h =
    let sendable = all_weaker s (λ c k. k.0) h in
    ap trim_end (trim_start_none s sendable) ∙ trim_end_none s sendable

no_escape : (p to s : Bytes) → All Sound s → replace_behind 0 (b'%' ∷ p) to s ≡ s
no_escape p to [] h = refl
no_escape p to (c ∷ s) h = turn_plain p to c s h.0.0.0 ∙ ap (λ t. c ∷ t) (no_escape p to s h.1)

cleaned : (s : Bytes) → All Sound s → clean_from s ≡ s
cleaned s h =
    ap (λ t. replace_behind 0 (codes "%40") (codes "@") t) (trimmed s h)
    ∙ no_escape (codes "40") (codes "@") s h

-- The text of a message with its three parameters.
abbrev pub relayed : Bytes → Bytes → Bytes → Bytes
relayed from signature value =
    codes "from="
    ++ (from ++ b'&' ∷ (codes "signature=" ++ (signature ++ b'&' ∷ (codes "mapmessage=" ++ value))))

abbrev part : Bytes → Bytes → Bytes
part name value = name ++ b'=' ∷ value

inner-Without : (d : ℕ) (name s : Bytes) → Without d name → Without d s → Without d (name ++ s)
inner-Without d name s h k = All-append _ name s h k

parts_of-relayed :
    (from signature value : Bytes)
    → All IsInner from
    → All IsInner signature
    → All IsInner value
    → parts_of (relayed from signature value)
      ≡ part (codes "from") from
        ∷ part (codes "signature") signature
        ∷ part (codes "mapmessage") value
        ∷ []
parts_of-relayed from signature value hf hs hv =
    let spaces : Without 32 (relayed from signature value) =
      (inner-Without 32 (codes "from=") _ (absent-Without 32 (codes "from=") refl) (
        All-append _ from _ (all_weaker from (λ c k. k.0) hf) (
          (λ e. cc),
          inner-Without 32 (codes "signature=") _ (absent-Without 32 (codes "signature=") refl) (
              All-append _ signature _ (all_weaker signature (λ c k. k.0) hs) (
                (λ e. cc),
                inner-Without 32 (codes "mapmessage=") _
                    (absent-Without 32 (codes "mapmessage=") refl)
                    (all_weaker value (λ c k. k.0) hv),
              )),
        ))) in
    let tail = codes "signature=" ++ (signature ++ b'&' ∷ (codes "mapmessage=" ++ value)) in
    rw (split_none 32 (relayed from signature value) spaces) (
      split_front 38 (codes "from=" ++ from) tail (
        inner-Without 38 (codes "from=") from (absent-Without 38 (codes "from=") refl)
          (all_weaker from (λ c k. k.1) hf))
      ∙ ap (λ (ws : List Bytes). (codes "from=" ++ from) ∷ ws)
          (split_front 38 (codes "signature=" ++ signature) (codes "mapmessage=" ++ value) (
              inner-Without 38 (codes "signature=") signature
                (absent-Without 38 (codes "signature=") refl)
                (all_weaker signature (λ c k. k.1) hs))
            ∙ ap (λ (ws : List Bytes). (codes "signature=" ++ signature) ∷ ws)
                (split_none 38 (codes "mapmessage=" ++ value) (
                  inner-Without 38 (codes "mapmessage=") value
                    (absent-Without 38 (codes "mapmessage=") refl)
                    (all_weaker value (λ c k. k.1) hv)))))

value_read :
    (name value : Bytes)
    → Without 61 name
    → All IsInner value
    → value_of (part name value) ≡ some value
value_read name value h k =
    rw (split_front 61 name value h, split_none 61 value (all_weaker value (λ c p. p.2) k)) refl

module _ (c : Crypto) (x : Cipher c) where
  open x use {SecretKey, Slate, public_key_from_secret_key, serialize_der, der_carried}

  -- The handler is called with the slate, as from the address, and the listener goes on.
  abbrev pub Delivers : MqAddress → Slate → Turn Slate → Type 0
  Delivers address slate turn =
      (turn.actions ≡ calls (on_slate (to_string mwcmqs address) slate) ∷ [])
      × (turn.going ≡ further)

  module _ (mine : MqAddress) (b : SecretKey) (l : Link) where
    -- What `on_text` does with the parts.
    abbrev of_parts : Bytes → List Bytes → Turn Slate
    of_parts text parts =
        if length parts == 3
        then on_parts c x (some mine) b parts l
        else if contains (codes "nginx") text
        then record { actions = sleeps 5000 ∷ []; link = nginx_down l; going = further }
        else record { actions = []; link = record l { is_error = true }; going = further }

    on_text-relayed :
        (from signature value : Bytes)
        → on_text c x (some mine) b (relayed from signature value) l
          ≡ of_parts (relayed from signature value) (parts_of (relayed from signature value))
    unfolding on_text
    on_text-relayed from signature value = refl

    on_parts-relayed :
        (from signature value : Bytes) (address : MqAddress) (slate : Slate)
        → All Sound from
        → All Sound signature
        → All IsInner value
        → handle c x (some mine) b from signature value ≡ delivered address slate
        → Delivers address slate (
            on_parts c x
              (some mine)
              b
              (part (codes "from") from
                ∷ part (codes "signature") signature
                ∷ part (codes "mapmessage") value
                ∷ [])
              l)
    unfolding on_parts read_param walk
    on_parts-relayed from signature value address slate hf hs hv done =
        let inner_from = all_weaker from (λ c k. k.1) hf in
        let inner_signature = all_weaker signature (λ c k. k.1) hs in
        rw
          (
            value_read (codes "from") from (absent-Without 61 (codes "from") refl) inner_from,
            value_read (codes "signature") signature (absent-Without 61 (codes "signature") refl)
                inner_signature,
            value_read (codes "mapmessage") value (absent-Without 61 (codes "mapmessage") refl) hv,
            cleaned from hf,
            trimmed signature hs,
            done,
          )
          (refl, refl)

    delivers :
        (from signature value : Bytes) (address : MqAddress) (slate : Slate)
        → All Sound from
        → All Sound signature
        → All IsInner value
        → handle c x (some mine) b from signature value ≡ delivered address slate
        → Delivers address slate (on_text c x (some mine) b (relayed from signature value) l)
    delivers from signature value address slate hf hs hv done =
        let text = relayed from signature value in
        let parts =
          parts_of-relayed from signature value (all_weaker from (λ c k. k.1) hf)
            (all_weaker signature (λ c k. k.1) hs) hv in
        subst (λ turn. Delivers address slate turn)
          (sym (on_text-relayed from signature value ∙ ap (of_parts text) parts))
          (on_parts-relayed from signature value address slate hf hs hv done)

  signature-Sound : (s : Cipher.Signature x) → All Sound (to_hex (serialize_der s))
  unfolding Carried
  signature-Sound s = hex-Sound (serialize_der s) (der_carried s).1

  -- What is posted to the MWCMQS address of a key, from the address of another key, is delivered by the
  -- receiver's listener where the server gives it the sender, the signature and the message as the
  -- three parameters of a text: the handler is called once, with the slate that was posted and an
  -- address of the sender's key, and the listener goes on. The message may stand in the text in any form
  -- that the listener's replacements turn back, and that has no space, no `&` and no `=`. The domains
  -- of both addresses are not empty and have the characters of a domain, their ports are u16s, and the
  -- listener's address is one of the receiver's key.
  pub on_text-post_request :
      (slate : Slate) (a b : SecretKey) (from_domain to_domain : Bytes)
      (from_port to_port : Option ℕ) (from to mine : MqAddress) (domain : Bytes) (port : ℕ)
      (salt nonce value : Bytes) (l : Link) (r : Post)
      → from_domain ≢ []
      → Of is_domain from_domain
      → FitsU16 from_port
      → to_domain ≢ []
      → Of is_domain to_domain
      → FitsU16 to_port
      → new c mwcmqs (public_key_from_secret_key a) (some from_domain) from_port ≡ ok from
      → new c mwcmqs (public_key_from_secret_key b) (some to_domain) to_port ≡ ok to
      → mine.public_key ≡ to.public_key
      → Carried salt
      → Carried nonce
      → post_request c x domain port true slate to from a salt nonce ≡ ok r
      → unescape value ≡ r.mapmessage
      → All IsInner value
      → (address : MqAddress) × Delivers address slate
          (on_text c x (some mine) b (relayed r.from r.signature value) l)
        × (address.public_key ≡ from.public_key)
  on_text-post_request slate a b from_domain to_domain from_port to_port from to mine domain port
        salt nonce value l r hfn hfd hfp hn hd hp made_from made_to same hs hv sent carried inner =
      let f =
        new-CrossRead c (public_key_from_secret_key a) from_domain from_port from hfn hfd hfp
          made_from in
      let t =
        new-CrossRead c (public_key_from_secret_key b) to_domain to_port to hn hd hp made_to in
      let m =
        post_request-Made c x slate a b to_domain to_port to from domain port salt nonce hs hv t
          sent in
      let (address, done, key) =
        handle-Made c x slate a b to_domain to_port to from mine from_domain from_port value m f
          same carried in
      let from_Sound : All Sound r.from = rw m.sent_from (
        all_weaker (stripped mwcmqs from) address-Sound
          (stripped-Of c (public_key_from_secret_key a) from_domain from_port from f)) in
      let signature_Sound : All Sound r.signature = rw m.sent_signature (signature-Sound m.s) in
      (
        address,
        delivers mine b l r.from r.signature value address slate from_Sound signature_Sound inner
            done,
        key,
      )
