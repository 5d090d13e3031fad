-- ===== src/Api/Executor/Wakeup.antt =====
-- No wake-up is lost (src/api/handlers/executor.rs).
use mwc.Prelude.{◌≡◌, ◌≢◌, refl, ◌⊎◌, inl, inr, Bool, true, false, Bool-cases}
use mwc.Api.Executor.{Worker, handling, finished, crashed, checking, Shared, spawned, Step}

-- The states that the interleaved steps reach.
pub data Reachable : Shared → Type 0 where
  start : Reachable spawned
  step : {s t : Shared} → Reachable s → Step s t → Reachable t

-- The flag is set until the handler has returned, and a handler that panics never clears it; a poller
-- between its steps and a waiting one have registered the task; behind the worker's end a waiting one
-- has been notified, and without it nobody has; a response is given only behind that end.
record Safe (s : Shared) : Type 0 where
  pub runs : s.running ≡ true → (s.worker ≡ handling) ⊎ (s.worker ≡ crashed)
  pub handles : s.worker ≡ handling → s.running ≡ true
  pub hangs : s.worker ≡ crashed → s.running ≡ true
  pub registered : s.task_set ≡ true → s.task ≡ true
  pub checks : s.poller ≡ checking → s.task ≡ true
  pub waits : s.waiting ≡ true → s.task ≡ true
  pub woken : s.worker ≡ finished → s.waiting ≡ true → s.notified ≡ true
  pub still : (s.worker ≡ finished) ⊎ (s.notified ≡ false)
  pub given : s.ready ≡ true → s.worker ≡ finished

spawned-Safe : Safe spawned
spawned-Safe = record {
  runs = λ h. inl refl;
  handles = λ h. refl;
  hangs = λ h. refl;
  registered = λ h. cc;
  checks = λ h. cc;
  waits = λ h. cc;
  woken = λ h k. cc;
  still = inr refl;
  given = λ h. cc;
}

not_yet : {w : Worker} {n : Bool} → (w ≡ finished) ⊎ (n ≡ false) → w ≢ finished → n ≡ false
not_yet (inl e) h = absurd (h e)
not_yet (inr e) h = e

Step-Safe : (s t : Shared) → Safe s → Step s t → Safe t
Step-Safe s _ safe (Step.store_running at) = record {
  runs = λ h. cc;
  handles = λ h. cc;
  hangs = λ h. cc;
  registered = safe.registered;
  checks = safe.checks;
  waits = safe.waits;
  woken = λ h k. cc;
  still = inr (not_yet safe.still (λ e. cc));
  given = λ h. let e = safe.given h in cc;
}
Step-Safe s _ safe (Step.panic_in_handler at) = record {
  runs = λ h. inr refl;
  handles = λ h. cc;
  hangs = λ h. safe.handles at;
  registered = safe.registered;
  checks = safe.checks;
  waits = safe.waits;
  woken = λ h k. cc;
  still = inr (not_yet safe.still (λ e. cc));
  given = λ h. let e = safe.given h in cc;
}
Step-Safe s _ safe (Step.notify_task at) = record {
  runs = λ h. elim (safe.runs h) [ inl k ↦ cc | inr k ↦ cc ];
  handles = λ h. cc;
  hangs = λ h. cc;
  registered = safe.registered;
  checks = safe.checks;
  waits = safe.waits;
  woken = λ h k. rw (safe.waits k) refl;
  still = inl refl;
  given = λ h. refl;
}
Step-Safe s _ safe (Step.register_task at open' unset) = record {
  runs = safe.runs;
  handles = safe.handles;
  hangs = safe.hangs;
  registered = λ h. refl;
  checks = λ h. refl;
  waits = λ h. refl;
  woken = safe.woken;
  still = safe.still;
  given = safe.given;
}
Step-Safe s _ safe (Step.poll_again at open' set) = record {
  runs = safe.runs;
  handles = safe.handles;
  hangs = safe.hangs;
  registered = safe.registered;
  checks = λ h. safe.registered set;
  waits = safe.waits;
  woken = safe.woken;
  still = safe.still;
  given = safe.given;
}
Step-Safe s _ safe (Step.see_running at run) = record {
  runs = safe.runs;
  handles = safe.handles;
  hangs = safe.hangs;
  registered = safe.registered;
  checks = λ h. cc;
  waits = λ h. safe.checks at;
  woken = λ h k. elim (safe.runs run) [ inl e ↦ cc | inr e ↦ cc ];
  still = safe.still;
  given = safe.given;
}
Step-Safe s _ safe (Step.take_result at stop end) = record {
  runs = safe.runs;
  handles = safe.handles;
  hangs = safe.hangs;
  registered = safe.registered;
  checks = λ h. cc;
  waits = λ h. cc;
  woken = λ h k. cc;
  still = safe.still;
  given = λ h. end;
}

Safe-at : (s : Shared) → Reachable s → Safe s
Safe-at _ Reachable.start = spawned-Safe
Safe-at t (Reachable.step {s} r x) = Step-Safe s t (Safe-at s r) x

-- In every interleaving of the worker's and the poller's steps: where the last poll has given
-- `NotReady` and the handler has returned and its thread has ended, the poller's task is registered
-- and has been notified.
pub waiting-notified :
    (s : Shared)
    → Reachable s
    → s.waiting ≡ true
    → s.worker ≡ finished
    → (s.task ≡ true) × (s.notified ≡ true)
waiting-notified s r h e = let safe = Safe-at s r in (safe.waits h, safe.woken e h)

-- A crash stays: no step of the poller ends it.
crashed_stays : (s t : Shared) → s.worker ≡ crashed → Step s t → t.worker ≡ crashed
crashed_stays s _ h (Step.store_running at) = cc
crashed_stays s _ h (Step.panic_in_handler at) = refl
crashed_stays s _ h (Step.notify_task at) = cc
crashed_stays s _ h (Step.register_task at open' unset) = h
crashed_stays s _ h (Step.poll_again at open' set) = h
crashed_stays s _ h (Step.see_running at run) = h
crashed_stays s _ h (Step.take_result at stop end) = h

-- What may follow a state.
pub data Follows (s : Shared) : Shared → Type 0 where
  same : Follows s s
  later : {t u : Shared} → Follows s t → Step t u → Follows s u

Follows-Reachable : (s t : Shared) → Reachable s → Follows s t → Reachable t
Follows-Reachable s _ r Follows.same = r
Follows-Reachable s t r (Follows.later f x) = Reachable.step (Follows-Reachable s _ r f) x

Follows-crashed : (s t : Shared) → s.worker ≡ crashed → Follows s t → t.worker ≡ crashed
Follows-crashed s _ h Follows.same = h
Follows-crashed s t h (Follows.later f x) = crashed_stays _ t (Follows-crashed s _ h f) x

-- Where the handler has panicked, no response is ever given: in every state that follows the flag says
-- that the handler is running, the task has not been notified, and the future is not ready.
pub crashed-ready :
    (s t : Shared)
    → Reachable s
    → s.worker ≡ crashed
    → Follows s t
    → (t.running ≡ true) × (t.notified ≡ false) × (t.ready ≡ false)
crashed-ready s t r h f =
    let there = Follows-crashed s t h f in
    let safe = Safe-at t (Follows-Reachable s t r f) in
    (
      safe.hangs there,
      not_yet safe.still (λ e. cc),
      elim (Bool-cases t.ready) [ inl e ↦ absurd (let k = safe.given e in cc) | inr e ↦ e ],
    )
