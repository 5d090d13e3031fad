-- ===== src/Broker/Mwcmqs/Tests.antt =====
-- The MWCMQS listener on a few rounds.
use mwc.Prelude.{
  ◌≡◌, refl, Bool, true, false, List, [], ◌∷◌, ◌++◌, none, some, Bytes, codes, All, absent-Without,
  arith,
}
use mwc.Samples.{sample_crypto, sample_cipher, bit}
use mwc.Contacts.Address.{MqAddress}
use mwc.Broker.Mwcmqs.Reply.{messages, closed, read_reply}
use mwc.Broker.Mwcmqs.Message.{Action, unescape}
use mwc.Broker.Mwcmqs.Poll.{
  refused, replied, Round, Polling, Reached, in_loop, ended, Site, poll, starting, subscribe,
}
use mwc.Broker.Mwcmqs.Honest.{Honest, subscribe-Honest}
use mwc.Broker.Mwcmqs.Stops.{Halts, subscribe_stops}
use mwc.Broker.Mwcmqs.Escapes.{escape, IsSendable, unescape-escape}
use mwc.Broker.Mwcmqs.Listed.{
  Entry, IsClean, print_lines, texts_of, last_id_of, read_reply-print_lines,
}

abbrev address : MqAddress
address = record { public_key = codes "k"; domain = codes "a"; port = none }

abbrev list_of_one : Bytes
list_of_one = codes "messagelist: 1\nmessage: 7;mapmessage=nil"

abbrev timeout : Round
timeout = record { stopped = false; client_built = true; answer = refused (codes "timed out") }

abbrev some_rounds : List Round
some_rounds = timeout ∷ record timeout { answer = replied list_of_one } ∷ []

abbrev stop : Round
stop = record timeout { stopped = true }

abbrev run : List Round → List (Action Bool) × Reached
run rs =
    subscribe sample_crypto sample_cipher (some address) bit (codes "mqs.mwc.mw") 443 address true
      (some (codes "1")) rs

-- The listener is still in its loop after the rounds, and ends where it is stopped.
reached : (run some_rounds).1 ≡ in_loop
unfolding subscribe
reached = refl

reached_end : (run (some_rounds ++ stop ∷ [])).1 ≡ ended
unfolding subscribe
reached_end = refl

-- A request of the server to close is heard where it comes alone, and not in a list.
close_alone : read_reply (codes "message: closenewlogin\n") ≡ closed
unfolding read_reply
close_alone = refl

close_listed :
    read_reply (codes "messagelist: 1\nmessage: closenewlogin")
    ≡ messages (record { texts = []; last_id = none; failed = false })
unfolding read_reply
close_listed = refl

subscribe-Honest_example :
    All (Honest sample_crypto sample_cipher (some address)) (run some_rounds).0
subscribe-Honest_example =
    subscribe-Honest sample_crypto sample_cipher (some address) bit (codes "mqs.mwc.mw") 443 address
      true (some (codes "1")) some_rounds

subscribe_stops_example :
    Halts sample_crypto sample_cipher
      (some address)
      (run (some_rounds ++ stop ∷ timeout ∷ []))
      (run some_rounds)
subscribe_stops_example =
    subscribe_stops sample_crypto sample_cipher (some address) bit (codes "mqs.mwc.mw") 443 address
      true (some (codes "1")) some_rounds stop (timeout ∷ []) refl

abbrev site : Site
site = record {
  mwcmqs_domain = codes "mqs.mwc.mw";
  mwcmqs_port = 443;
  address = address;
  time_now = codes "1";
  time_now_signature = [];
}

abbrev after_timeout : Polling
after_timeout =
    (poll sample_crypto sample_cipher (some address) site true (starting site) timeout).after

abbrev json : Bytes
json = codes "{\"a\":1,\"b\":2}"

sendable : All IsSendable json
sendable = ground arith

json_read_back : unescape (escape json) ≡ json
json_read_back = unescape-escape json sendable

abbrev entry : Entry
entry = record { id = codes "7"; text = codes "from=bob" }

entry-IsClean : IsClean entry
entry-IsClean = record {
  id_semicolon = absent-Without b';' (codes "7") refl;
  id_space = absent-Without b' ' (codes "7") refl;
  id_newline = absent-Without b'\n' (codes "7") refl;
  text_space = absent-Without b' ' (codes "from=bob") refl;
  text_newline = absent-Without b'\n' (codes "from=bob") refl;
}

read_reply-print_lines_example :
    read_reply (codes "messagelist: " ++ (codes "1" ++ print_lines (entry ∷ [])))
    ≡ messages (record {
      texts = texts_of (entry ∷ []);
      last_id = last_id_of (entry ∷ []) none;
      failed = false;
    })
read_reply-print_lines_example =
    read_reply-print_lines (codes "1") (entry ∷ []) (absent-Without b'\n' (codes "1") refl)
      (entry-IsClean, tt)
