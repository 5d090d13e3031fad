-- ===== src/Api/Executor.antt =====
-- `RunHandlerInThread` of src/api/handlers/executor.rs: a handler runs in a thread of its own, and a
-- future waits for it. The steps of both are interleaved freely; the `running` flag is taken as a
-- variable whose writes are seen in their order.
pub mod Filter
pub mod Wakeup
use mwc.Prelude.{
  ℕ, ◌≡◌, ◌⊎◌, inl, inr, ◌++◌, codes, Bool, true, false, ◌||◌, List, [], ◌∷◌, Bytes, ◌==◌,
  if◌then◌else◌,
}

-- The loop of `filter_escape_symbols` over the characters.
unfoldable pub filter_loop : Bool → Bytes → Bytes
filter_loop in_esc [] = []
filter_loop in_esc (ch ∷ s) =
    let now = ch == 27 || in_esc in
    let rest = filter_loop (if ch == b'm' then false else now) s in if now then rest else ch ∷ rest

unfoldable pub filter_escape_symbols : Bytes → Bytes
filter_escape_symbols s = filter_loop false s

-- A response: the handler's, or the one that `poll` makes of its error.
pub data Response (Body : Type 0) : Type 0 where
  passed : Body → Response Body
  bad_request : Bytes → Response Body

-- The end of `poll`. The root cause of an error, as a text, is not under src/.
abbrev pub respond : {Body Failure : Type 0} → (Failure → Bytes) → Failure ⊎ Body → Response Body
respond root_cause (inr body) = passed body
respond root_cause (inl e) =
    bad_request (codes "{\"error\" : \"" ++ filter_escape_symbols (root_cause e) ++ codes "\" }")

-- Where the worker is: in the handler, between its store and its look at the task, or behind it. A
-- handler that panics ends the thread where it is.
pub data Worker : Type 0 where
  handling stored finished crashed : Worker

-- Where `poll` is: outside, or behind its registration of the task and before its look at the flag.
pub data Poller : Type 0 where
  outside checking : Poller

pub record Shared : Type 0 where
  pub running : Bool
  pub task : Bool
  pub task_set : Bool
  pub worker : Worker
  pub poller : Poller
  -- The last poll gave `NotReady`, and the task has been notified since the handler's end.
  pub waiting : Bool
  pub notified : Bool
  -- The future has given the response.
  pub ready : Bool

-- `new`
abbrev pub spawned : Shared
spawned = record {
  running = true;
  task = false;
  task_set = false;
  worker = handling;
  poller = outside;
  waiting = false;
  notified = false;
  ready = false;
}

-- The steps of the two threads. `join` waits for the worker's end.
pub data Step : Shared → Shared → Type 0 where
  store_running :
      {s : Shared} → s.worker ≡ handling → Step s (record s { running = false; worker = stored })
  -- `unwrap`, `expect` or an index out of range in the handler
  panic_in_handler : {s : Shared} → s.worker ≡ handling → Step s (record s { worker = crashed })
  notify_task :
      {s : Shared}
      → s.worker ≡ stored
      → Step s (record s { worker = finished; notified = s.task || s.notified })
  register_task :
      {s : Shared}
      → s.poller ≡ outside
      → s.ready ≡ false
      → s.task_set ≡ false
      → Step s (record s { task = true; task_set = true; poller = checking })
  poll_again :
      {s : Shared}
      → s.poller ≡ outside
      → s.ready ≡ false
      → s.task_set ≡ true
      → Step s (record s { poller = checking })
  see_running :
      {s : Shared}
      → s.poller ≡ checking
      → s.running ≡ true
      → Step s (record s { poller = outside; waiting = true })
  take_result :
      {s : Shared}
      → s.poller ≡ checking
      → s.running ≡ false
      → s.worker ≡ finished
      → Step s (record s { poller = outside; waiting = false; ready = true })
