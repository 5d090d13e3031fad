-- ===== src/Api/Tests.antt =====
-- The executor and the authentication on small inputs.
use mwc.Prelude.{
  ℕ, ◌<◌, ◌≡◌, ◌≢◌, refl, inl, Bytes, true, false, ◌∷◌, ◌++◌, codes, none, some, ok, arith,
}
use mwc.Api.Executor.{
  filter_escape_symbols, filter_loop, Shared, spawned, Step, finished, crashed, checking, Response,
  respond, bad_request,
}
use mwc.Api.Executor.Filter.{NoEscape, filter_escape_symbols-sequence}
use mwc.Api.Executor.Wakeup.{Reachable, Follows, waiting-notified, crashed-ready}
use mwc.Api.Auth.{chained, unauthorized, basic, new, call}
use mwc.Api.Auth.Secret.{Answered, call-new}

coloured : filter_escape_symbols (27 ∷ codes "[31mred") ≡ codes "red"
unfolding filter_escape_symbols filter_loop
coloured = refl

apart : (a b : ℕ) → a < b → a ≢ b
apart a b h e = absurd (omega arith)

apart' : (a b : ℕ) → b < a → a ≢ b
apart' a b h e = absurd (omega arith)

filter_escape_symbols-sequence_example :
    (filter_escape_symbols (codes "a" ++ 27 ∷ (codes "[0" ++ b'm' ∷ codes "b"))
      ≡ codes "a" ++ filter_escape_symbols (codes "b"))
    × NoEscape (filter_escape_symbols (codes "b"))
filter_escape_symbols-sequence_example =
    filter_escape_symbols-sequence (codes "a") (codes "[0") (codes "b")
      (apart' b'a' 27 (omega arith), tt)
      (apart b'[' b'm' (omega arith), (apart b'0' b'm' (omega arith), tt))

-- A poll that finds the handler running, whose worker then ends.
abbrev ended : Shared
ended = record spawned {
  running = false;
  task = true;
  task_set = true;
  worker = finished;
  waiting = true;
  notified = true;
}

waiting_end : Reachable ended
waiting_end =
    Reachable.step
      (Reachable.step
        (Reachable.step (Reachable.step Reachable.start (Step.register_task refl refl refl))
          (Step.see_running refl refl))
        (Step.store_running refl))
      (Step.notify_task refl)

waiting-notified_example : (Shared.task ended ≡ true) × (Shared.notified ended ≡ true)
waiting-notified_example = waiting-notified ended waiting_end refl refl

-- A poll that finds the handler running, whose handler then panics, and a second poll.
abbrev hung : Shared
hung = record spawned { task = true; task_set = true; worker = crashed; waiting = true }

hung_at : Reachable hung
hung_at =
    Reachable.step
      (Reachable.step (Reachable.step Reachable.start (Step.register_task refl refl refl))
        (Step.see_running refl refl))
      (Step.panic_in_handler refl)

abbrev polled : Shared
polled = record hung { poller = checking }

crashed-ready_example :
    (Shared.running polled ≡ true)
    × (Shared.notified polled ≡ false)
    × (Shared.ready polled ≡ false)
crashed-ready_example =
    crashed-ready hung polled hung_at refl
      (Follows.later Follows.same (Step.poll_again refl refl refl))

-- The answer that is made of an error has no colours.
abbrev refusal : Bytes → Response Bytes
refusal text = bad_request text

answered : respond (λ e. e) (inl (27 ∷ codes "[31mno")) ≡ refusal (codes "{\"error\" : \"no\" }")
unfolding filter_escape_symbols filter_loop
answered = refl

call-new_example :
    Answered (λ b. b) some (codes "secret") (some (codes "letmein"))
    × (call
          (λ b. b)
          some
          (new (λ b. b) some (some (codes "secret")))
          (some (basic (λ b. b) some (codes "secret")))
        ≡ ok chained)
    × (call
          (λ b. b)
          some
          (new (λ b. b) some (some (codes "secret")))
          (some (basic (λ b. b) some (codes "guess")))
        ≡ ok unauthorized)
    × (call (λ b. b) some (new (λ b. b) some none) (some (codes "letmein")) ≡ ok chained)
call-new_example =
    call-new (λ b. b) some (λ a b h. h) (λ s. refl) (codes "secret") (codes "guess")
      (some (codes "letmein")) (cc)
