-- ===== src/Pipeline/Handler/Failure.antt =====
-- What is counted of the log of a message whose step fails: the `except` block of `_connect_async`,
-- queue_handler_base.py.
pub mod Stages
pub mod Kept
use claimsintelligence.Base.{
  ℕ, ◌+◌, String, ◌≡◌, refl, ap, ◌∙◌, sym, Bool, true, false, ◌&&◌, Option, none, some, List, [],
  ◌∷◌, ◌≤◌, arith, ltb, if◌then◌else◌, ◌==◌, string_key, nat_key, eq_iff,
}
use mathlib.Core.Path.{subst}
use claimsintelligence.Exec.{
  Exec, Exn, exn, value_error, Outcome, returned, raised, is_cancelled, continue, recover, pure,
  raise, gets, modify, catch, catch_exception, ◌>>=◌, ◌>>◌,
}
use claimsintelligence.Exec.Keeps.{
  bind-Ensures, Keeps, Ensures, Keeps-pure, Keeps-raise, Keeps-gets, Keeps-bind, Keeps-modify,
}
use claimsintelligence.Pipeline.Status.{
  Status, StepResult, error, update_step, add_step_result, arrive,
}
use claimsintelligence.Pipeline.Handler.{
  DataPipeline, Message, Call, execute, update_process_status, update_status, upload_result,
  upload_status, upload_pipeline, send_pipeline, send_content, delete_message, update_message,
  Reply, executed, fail, answer, Event, Env, Handler, perform, lift, first_file, save_result,
}
use claimsintelligence.Pipeline.Handler.Process.{
  Codec, decode_content, get_object, document, on_current, on_status, take_result, save_status,
  make_result, process_message, write_error, bury, put_back, save_step_outputs, on_error,
  handle_message,
}
use claimsintelligence.Pipeline.Handler.Safety.{succeeded, lift-Keeps, document-Keeps}

-- The calls by which a message, its content or its document leaves the queue.
abbrev pub is_departure : Event → Bool
is_departure (delete_message i, y) = true
is_departure (send_pipeline queue p, y) = true
is_departure (send_content queue content, y) = true
is_departure _ = false

abbrev pub is_error_of : String → StepResult → Bool
is_error_of step r = elim r.result [ error e ↦ r.step_name == step | _ ↦ false ]

-- The failure of that step was saved.
abbrev pub is_saved_error : String → Event → Bool
is_saved_error step (upload_result r, y) = is_error_of step r && succeeded y
is_saved_error step _ = false

-- The message of that id was made visible again, after that delay.
abbrev pub is_put_back : String → ℕ → Event → Bool
is_put_back id delay (update_message i n, y) = (i == id) && ((n == delay) && succeeded y)
is_put_back id delay _ = false

abbrev pub count_if : (Event → Bool) → List Event → ℕ
count_if f [] = 0
count_if f (e ∷ t) = let rest = count_if f t in if f e then rest + 1 else rest

abbrev pub is_plain : Call → Bool
is_plain (delete_message i) = false
is_plain (send_pipeline queue p) = false
is_plain (send_content queue content) = false
is_plain (upload_result r) = false
is_plain (update_message i n) = false
is_plain _ = true

-- The step raises, whatever it is given.
abbrev pub StepRaises : Env → Type 0
StepRaises env =
    (t : List Event) (p : DataPipeline)
    → (e : Exn) × (q : DataPipeline) × (env t (execute p) ≡ executed (raised e) q)

-- Nothing has left the queue, the failure was saved once more, and the message was put back once
-- more; where an exception leaves the handler, nothing has left the queue.
abbrev pub Stays : Message → Handler → Outcome (Unit {0}) × Handler → Type 0
Stays m h (returned u, g) =
    let error_saved = is_saved_error h.handler_name in
    let put = is_put_back m.id h.config.app_message_queue_visibility_timeout in
    (count_if is_departure g.trace ≡ count_if is_departure h.trace)
    × (count_if error_saved g.trace ≡ count_if error_saved h.trace + 1)
    × (count_if put g.trace ≡ count_if put h.trace + 1)
Stays m h (raised e, g) = count_if is_departure g.trace ≡ count_if is_departure h.trace

-- A call that none of the three counts.
pub plain_lem :
    (c : Call) (y : Reply) (name id : String) (delay : ℕ)
    → is_plain c ≡ true
    → (is_departure (c, y) ≡ false)
      × (is_saved_error name (c, y) ≡ false)
      × (is_put_back id delay (c, y) ≡ false)
plain_lem (delete_message i) y name id delay h = cc
plain_lem (send_pipeline queue p) y name id delay h = cc
plain_lem (send_content queue content) y name id delay h = cc
plain_lem (upload_result r) y name id delay h = cc
plain_lem (update_message i n) y name id delay h = cc
plain_lem _ y name id delay h = (refl, refl, refl)

pub count-uncounted :
    (f : Event → Bool) (e : Event) (t : List Event)
    → f e ≡ false
    → count_if f (e ∷ t) ≡ count_if f t
count-uncounted f e t h = rw h refl

pub count-counted :
    (f : Event → Bool) (e : Event) (t : List Event)
    → f e ≡ true
    → count_if f (e ∷ t) ≡ count_if f t + 1
count-counted f e t h = rw h refl
