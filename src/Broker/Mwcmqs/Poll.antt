-- ===== src/Broker/Mwcmqs/Poll.antt =====
-- The loop of `subscribe` of src/broker/mwcmq.rs. What it sees of the world is given for each round:
-- whether the broker is stopped, whether a client can be made, and how the server answers.
use mwc.Prelude.{
  ℕ, ◌+◌, ◌%◌, ◌^◌, Bool, true, false, not, ◌&&◌, ◌||◌, List, [], ◌∷◌, ◌++◌, Option, none, some,
  Bytes, codes, ◌==◌, if◌then◌else◌, contains, replace,
}
use mwc.Contacts.Address.{Crypto, MqAddress, mwcmqs, stripped, show_u16, unwrap_or}
use mwc.Proof.Cipher.{Cipher}
use mwc.Proof.Message.{sign_challenge}
use mwc.Broker.Mwcmqs.Reply.{Reading, messages, nginx, closed, ours, unknown, read_reply}
use mwc.Broker.Mwcmqs.Message.{
  Link, Action, asks, sleeps, Going, further, leaving, crashing, Turn, nginx_down, on_texts,
}

-- An answer: the request fails, with the text of its error, or the body cannot be read, or there is
-- one.
pub data Answer : Type 0 where
  refused : Bytes → Answer
  unreadable : Answer
  replied : Bytes → Answer

pub record Round : Type 0 where
  pub stopped : Bool
  pub client_built : Bool
  pub answer : Answer

-- The variables of the loop. `count` is also `loop_count`.
pub record Polling : Type 0 where
  pub link : Link
  pub count : ℕ
  pub url : Bytes

-- How far it got: still in the loop, behind it, or into a panic.
pub data Reached : Type 0 where
  in_loop ended panicked : Reached

abbrev pub timed_out : Bytes → Bool
timed_out err_message = contains (codes "timed out") err_message

-- The flags when the request has failed.
unfoldable pub on_refused : Bytes → ℕ → Link → Link
on_refused err_message count l =
    if not (timed_out err_message)
    then record l { connected = false; is_in_warning = l.connected || l.is_in_warning }
    else if count == 1
    then record l { connected = true }
    else record l {
      connected = true;
      is_nginx_error = not (not l.connected && l.is_in_warning) && l.is_nginx_error;
      is_in_warning = l.connected && l.is_in_warning;
    }

-- The flags when the server has answered.
unfoldable pub on_answered : ℕ → Link → Link
on_answered count l =
    if count == 1
    then l
    else if not l.connected && not l.is_nginx_error
    then record l { connected = true; is_in_warning = false }
    else if not l.is_nginx_error
    then record l { connected = true }
    else l

abbrev pub initial_link : Link
initial_link = record {
  connected = false;
  is_nginx_error = false;
  is_in_warning = false;
  is_error = false;
}

abbrev pub percent_at : Bytes → Bytes
percent_at s = replace s (codes "@") (codes "%40")

-- The server, the listener's address, and the parameters that the server has asked for.
pub record Site : Type 0 where
  pub mwcmqs_domain : Bytes
  pub mwcmqs_port : ℕ
  pub address : MqAddress
  pub time_now : Bytes
  pub time_now_signature : Bytes

unfoldable pub listener_url : Site → Bytes → Bytes
listener_url site del_to =
    codes "https://"
    ++ site.mwcmqs_domain
    ++ codes ":"
    ++ show_u16 site.mwcmqs_port
    ++ codes "/listener?address="
    ++ percent_at (stripped mwcmqs site.address)
    ++ codes "&delTo="
    ++ del_to
    ++ codes "&time_now="
    ++ site.time_now
    ++ codes "&signature="
    ++ site.time_now_signature

abbrev pub first_url : Site → Bytes
first_url site = listener_url site (codes "nil") ++ codes "&first=true"

-- The next url, where an id was read.
abbrev pub next_url : Site → Option Bytes → Bytes → Bytes
next_url site none url = url
next_url site (some last_message_id) url = listener_url site last_message_id

abbrev pub starting : Site → Polling
starting site = record { link = initial_link; count = 0; url = listener_url site (codes "nil") }

module _ (c : Crypto) (x : Cipher c) (own : Option MqAddress) where
  open x use {SecretKey, Signature, Slate}

  -- What a round does, the state behind it, and how the loop goes on.
  pub record Step : Type 0 where
    pub actions : List (Action Slate)
    pub after : Polling
    pub going : Going

  module _ (site : Site) (secret_key : SecretKey) where
    abbrev pub end_texts : Polling → Turn Slate → Step
    end_texts s turn = record {
      actions = turn.actions;
      after = record s { link = turn.link };
      going = turn.going;
    }

    -- An answer that has been read, in a state with the flags set for it.
    unfoldable pub on_reading : Polling → Reading → Step
    unfolding on_texts
    on_reading s (messages l) =
        end_texts (record s { url = next_url site l.last_id s.url })
          (on_texts c x own secret_key l.texts
            (record s.link { is_error = s.link.is_error || l.failed }))
    on_reading s nginx = record {
      actions = sleeps 5000 ∷ [];
      after = record s { link = nginx_down s.link };
      going = further;
    }
    on_reading s closed = record { actions = []; after = s; going = leaving }
    on_reading s ours = record { actions = []; after = s; going = further }
    on_reading s unknown = record {
      actions = [];
      after = record s { link = record s.link { is_error = true } };
      going = further;
    }

    unfoldable pub on_answer : Polling → Answer → Step
    unfolding on_refused on_answered on_reading read_reply
    on_answer s (refused err_message) = record {
      actions = if timed_out err_message then [] else sleeps 5000 ∷ [];
      after = record s { link = on_refused err_message s.count s.link };
      going = further;
    }
    on_answer s unreadable = record {
      actions = sleeps 5000 ∷ [];
      after = record s { link = on_answered s.count s.link };
      going = further;
    }
    on_answer s (replied resp_str) =
        on_reading (record s { link = on_answered s.count s.link }) (read_reply resp_str)

    -- The request of a round.
    abbrev pub request : Polling → Action Slate
    request s =
        asks (if not s.link.connected then 2 else 120)
          (if s.count == 1 then first_url site else s.url)

    abbrev pub in_round : Polling → Polling
    in_round s = record s { count = (s.count + 1) % 2 ^ 32 }

    -- The body of the loop, with its counter.
    unfoldable pub poll : Polling → Round → Step
    unfolding on_answer
    poll s r =
        if s.link.is_error || r.stopped
        then record { actions = []; after = s; going = leaving }
        else if not r.client_built
        then record {
          actions = [];
          after = record (in_round s) { link = record s.link { is_error = true } };
          going = further;
        }
        else (let step = on_answer (in_round s) r.answer in
            record step { actions = request (in_round s) ∷ step.actions })

    abbrev pub then_rounds :
        Step → (Polling → List (Action Slate) × Reached) → Going → List (Action Slate) × Reached
    then_rounds step again further = let rest = again step.after in (step.actions ++ rest.0, rest.1)
    then_rounds step again leaving = (step.actions, ended)
    then_rounds step again crashing = (step.actions, panicked)

    unfoldable pub rounds : Polling → List Round → List (Action Slate) × Reached
    unfolding poll
    rounds s [] = ([], in_loop)
    rounds s (r ∷ rs) = let step = poll s r in then_rounds step (λ s'. rounds s' rs) step.going

  -- `{:?}` of a signature is not under src/.
  module _ (debug_signature : Signature → Bytes) where
    abbrev pub site_of : Bytes → ℕ → MqAddress → Bytes → Signature → Site
    site_of domain port address time_now signature = record {
      mwcmqs_domain = domain;
      mwcmqs_port = port;
      address = address;
      time_now = time_now;
      time_now_signature =
          replace (replace (debug_signature signature) (codes "Signature(") []) (codes ")") [];
    }

    -- Behind the signature of the server's time: the loop, if the server gave one.
    unfoldable pub start :
        Bytes
        → ℕ
        → MqAddress
        → SecretKey
        → List Round
        → Option Bytes
        → Option Signature
        → List (Action Slate) × Reached
    unfolding rounds
    start domain port address secret_key rs time none = ([], panicked)
    start domain port address secret_key rs none (some signature) = ([], ended)
    start domain port address secret_key rs (some time_now) (some signature) =
        let site = site_of domain port address time_now signature in
        rounds site secret_key (starting site) rs

    -- `subscribe`, from the server's time, if it gives one.
    unfoldable pub subscribe :
        Bytes
        → ℕ
        → MqAddress
        → SecretKey
        → Option Bytes
        → List Round
        → List (Action Slate) × Reached
    unfolding start
    subscribe domain port address secret_key time rs =
        start domain port address secret_key rs time
          (sign_challenge c x (unwrap_or time []) secret_key)
