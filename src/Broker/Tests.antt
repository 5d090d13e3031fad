-- ===== src/Broker/Tests.antt =====
-- The listeners on a few rounds.
use mwc.Prelude.{
  ◌<◌, ◌≤◌, ◌^◌, ◌≡◌, ◌⊎◌, true, false, List, [], ◌∷◌, Option, none, some, Bytes, codes, arith,
}
use mwc.Samples.{sample_crypto, sample_cipher, read_bit}
use mwc.Contacts.Address.{MqAddress}
use mwc.Broker.Calls.{Phase, idle, InOrder}
use mwc.Broker.Keybase.{Unread, Round, start}
use mwc.Broker.Keybase.Order.{Ends, start-InOrder}
use mwc.Broker.Grinbox.{ProtocolResponse, response_ok, Connection, backoff, subscribe}
use mwc.Broker.Grinbox.Backoff.{backoff_lem}
use mwc.Broker.Grinbox.Order.{Ordered, Stands, subscribe-Ordered}

abbrev slate : Unread
slate = record { sender = codes "bob"; topic = codes "grin_slate_new"; msg = 1 ∷ [] }

abbrev garbage : Unread
garbage = record { sender = codes "bob"; topic = codes "grin_slate_new"; msg = codes "no slate" }

abbrev some_rounds : List Round
some_rounds =
    record { stop_signal = false; unread = some (slate ∷ []) }
    ∷ record { stop_signal = false; unread = none }
    ∷ record { stop_signal = false; unread = some (garbage ∷ []) }
    ∷ []

start-InOrder_example :
    (q : Phase) × InOrder idle (start read_bit some_rounds).0 q
    × Ends (start read_bit some_rounds).1 q
start-InOrder_example = start-InOrder read_bit some_rounds

abbrev address : MqAddress
address = record { public_key = codes "k"; domain = codes "a"; port = none }

abbrev only_ok : Bytes → Option ProtocolResponse
only_ok msg = some response_ok

abbrev connections : List Connection
connections =
    record { opened = true; messages = codes "x" ∷ []; failed = true; stopped = false }
    ∷ record { opened = false; messages = []; failed = true; stopped = false }
    ∷ record { opened = true; messages = []; failed = false; stopped = true }
    ∷ []

subscribe-Ordered_example :
    (q : Phase) × Ordered idle
      (subscribe sample_crypto sample_cipher only_ok address true connections).0
      q
    × Stands (subscribe sample_crypto sample_cipher only_ok address true connections).1 q
subscribe-Ordered_example =
    subscribe-Ordered sample_crypto sample_cipher only_ok address true connections (omega arith)

backoff_lem_example :
    ((70 < 5) × (backoff 70 ≡ 2 ^ 70))
    ⊎ (((5 ≤ 70) × (70 < 64) × (backoff 70 ≡ 32)) ⊎ ((64 ≤ 70) × (backoff 70 ≡ 0)))
backoff_lem_example = backoff_lem 70
