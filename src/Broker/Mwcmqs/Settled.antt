-- ===== src/Broker/Mwcmqs/Settled.antt =====
-- The flags of the MWCMQS listener agree in every state that its loop reaches (src/broker/mwcmq.rs).
use mwc.Prelude.{ℕ, suc, ◌≡◌, true, false, Option}
use mwc.Contacts.Address.{Crypto, MqAddress}
use mwc.Proof.Cipher.{Cipher}
use mwc.Broker.Mwcmqs.Message.{Link, further, Turn}
use mwc.Broker.Mwcmqs.Poll.{Round, Polling, Site, poll, starting}

-- While the proxy answers for the server, the listener is not connected, and has said so.
abbrev pub IsSettled : Link → Type 0
IsSettled l = (l.is_nginx_error ≡ true) → ((l.connected ≡ false) × (l.is_in_warning ≡ true))

module _ (c : Crypto) (x : Cipher c) (own : Option MqAddress) where
  open x use {SecretKey, Slate}

  -- A part of the loop keeps the flags settled.
  abbrev Settles : (Link → Turn Slate) → Type 0
  Settles f = (l : Link) → IsSettled l → IsSettled (f l).link

  module _ (secret_key : SecretKey) where
    module _ (site : Site) where
      -- The states behind `n` rounds.
      pub data Reachable : ℕ → Polling → Type 0 where
        begin : Reachable 0 (starting site)
        again :
            {n : ℕ} {s : Polling} (r : Round)
            → Reachable n s
            → (poll c x own site secret_key s r).going ≡ further
            → Reachable (suc n) (poll c x own site secret_key s r).after

      -- The counter is that of the rounds, and the flags agree.
      record Holds (n : ℕ) (s : Polling) : Type 0 where
        pub counted : s.count ≡ n
        pub settled : IsSettled s.link
        pub fresh : n ≡ 0 → s.link.is_nginx_error ≡ false
