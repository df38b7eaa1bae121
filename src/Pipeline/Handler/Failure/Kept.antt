-- ===== src/Pipeline/Handler/Failure/Kept.antt =====
-- A step that fails: the `except` block of `_connect_async`, queue_handler_base.py, for every
-- behaviour of the storage account and the database.
use claimsintelligence.Base.{
  ℕ, ◌+◌, String, ◌≡◌, refl, sym, Bool, true, false, Option, none, some, ◌≤◌, arith, ltb,
  if◌then◌else◌, string_key, nat_key,
}
use mathlib.Core.Path.{subst}
use claimsintelligence.Exec.{
  Exec, Exn, Outcome, returned, raised, is_cancelled, recover, raise, gets, modify, catch_exception,
  ◌>>=◌, ◌>>◌,
}
use claimsintelligence.Exec.Keeps.{bind-Ensures, Keeps, Ensures, Keeps-gets, Keeps-modify}
use claimsintelligence.Pipeline.Status.{StepResult, error, add_step_result}
use claimsintelligence.Pipeline.Handler.{
  DataPipeline, Message, execute, Env, Handler, perform, lift, first_file, save_result,
}
use claimsintelligence.Pipeline.Handler.Process.{
  Codec, decode_content, get_object, document, on_current, on_status, take_result, save_status,
  make_result, process_message, write_error, bury, put_back, save_step_outputs, on_error,
  handle_message,
}
use claimsintelligence.Pipeline.Handler.Safety.{lift-Keeps, document-Keeps}
use claimsintelligence.Pipeline.Handler.Failure.{
  is_departure, is_saved_error, is_put_back, count_if, StepRaises, Stays,
}
use claimsintelligence.Pipeline.Handler.Failure.Stages.{
  Stage, Meets, bind-Meets, kept-Meets, perform-Stage, on_current-Stage, failure, saved-Stage,
  put_back-Stage, save_status-Stage, write_error-Stage, save_step_outputs-Stage, closing-Stage,
}

module _ (env : Env) (m : Message) (name : String) (delay n : ℕ) where
  named-Meets :
      (s k : ℕ) (R : Unit {0} → Handler → Type 0) (next : String → Exec Handler (Unit {0}))
      (h : Handler)
      → Stage env m name delay n s k h
      → Meets env m name delay n R (next name h)
      → Meets env m name delay n R ((gets (λ (h : Handler). h.handler_name) >>= next) h)
  unfolding ◌>>=◌
  named-Meets s k R next h st rest =
      subst (λ x. Meets env m name delay n R (next x h)) (sym st.named) rest

  -- A result is made only where the document keeps a process id.
  made-Stage :
      (s k : ℕ) (o : Option String) (details : String) (h : Handler)
      → Stage env m name delay n s k h
      → Meets env m name delay n
          (λ r g.
            ((i : String) × (r ≡ failure env m name delay n i details))
            × Stage env m name delay n s k g)
          (lift (make_result o name (error details)) h)
  unfolding lift
  made-Stage s k none details h st = st.departed
  made-Stage s k (some i) details h st = ((i, refl), st)

  -- From the result on.
  noted-Stage :
      (s k : ℕ) (i details : String) (h : Handler)
      → ltb 5 m.dequeue_count ≡ false
      → Stage env m name delay n s k h
      → let failed = failure env m name delay n i details in
        Meets env m name delay n
          (λ _. Stage env m name delay n (s + 1) (k + 1))
          ((do
            modify (on_current (on_status (add_step_result failed)))
            save_result env failed
            save_status env
            write_error env failed
            r ← if ltb 5 m.dequeue_count then bury env m details failed else put_back env m failed
            save_step_outputs env r)
            h)
  noted-Stage s k i details h few st =
      kept-Meets env m name delay n _ s k _ _ h (on_current-Stage env m name delay n s k _) st
        λ _ g st.
          bind-Meets env m name delay n (λ _. Stage env m name delay n (s + 1) k) _
            (save_result env failed) _ g (saved-Stage env m name delay n s k i details g st)
            λ _ g st.
              kept-Meets env m name delay n _ (s + 1) k (save_status env) _ g
                (save_status-Stage env m name delay n (s + 1) k) st
                λ _ g st.
                  kept-Meets env m name delay n _ (s + 1) k (write_error env failed) _ g
                    (write_error-Stage env m name delay n (s + 1) k failed) st
                    λ _ g st. rw few (
                      bind-Meets env m name delay n (λ _. Stage env m name delay n (s + 1) (k + 1))
                        _ (put_back env m failed) _ g
                        (put_back-Stage env m name delay n (s + 1) k failed g st)
                        λ r g st.
                          closing-Stage env m name delay n (s + 1) (k + 1) _ g
                            (save_step_outputs-Stage env m name delay n (s + 1) (k + 1) r) st)
    where
      failed : StepResult
      failed = failure env m name delay n i details

  on_error-Stage :
      (s k : ℕ) (e : Exn) (h : Handler)
      → ltb 5 m.dequeue_count ≡ false
      → Stage env m name delay n s k h
      → Meets env m name delay n
          (λ _. Stage env m name delay n (s + 1) (k + 1))
          (on_error env m e h)
  unfolding on_error
  on_error-Stage s k e h few st = named-Meets s k _ _ h st (
      kept-Meets env m name delay n _ s k document _ h document-Keeps st λ p g st.
        bind-Meets env m name delay n _ _
          (lift (make_result p.pipeline_status.process_id name (error e.message))) _ g
          (made-Stage s k p.pipeline_status.process_id e.message g st)
          λ r g ((i, same), st). rw same (noted-Stage s k i e.message g few st))

  execute-Stage :
      (s k : ℕ) (next : StepResult → Exec Handler (Unit {0})) (p : DataPipeline) (h : Handler)
      → StepRaises env
      → Stage env m name delay n s k h
      → let (o, g) =
          (do reply ← perform env (execute p); result ← take_result reply; next result) h in
        Ensures (λ _ _. ⊥) (Stage env m name delay n s k) o g
  unfolding perform ◌>>=◌
  execute-Stage s k next p h raises st =
      let (e, q, failed) = raises h.trace p in
      rw failed (record {
        named = st.named;
        delayed = st.delayed;
        departed = st.departed;
        saved = st.saved;
        put = st.put;
      })

  -- The `try` block raises.
  process_message-Stage :
      (s k : ℕ) (p : DataPipeline) (h : Handler)
      → StepRaises env
      → Stage env m name delay n s k h
      → let (o, g) = process_message env m p h in
        Ensures (λ _ _. ⊥) (Stage env m name delay n s k) o g
  unfolding process_message
  process_message-Stage s k p h raises st =
      kept _ _ (Keeps-gets _)
        (λ step.
          kept _ _
            (Keeps-modify _ λ h st. record {
              named = st.named;
              delayed = st.delayed;
              departed = st.departed;
              saved = st.saved;
              put = st.put;
            })
            λ _. kept (lift (first_file p)) _ (lift-Keeps _) λ file.
              kept (perform env _) _ (perform-Stage env m name delay n s k _ refl)
                λ _. kept document _ document-Keeps λ p g. execute-Stage s k _ p g raises)
        h st
    where
      kept :
          {A : Type 0} (first : Exec Handler A) (next : A → Exec Handler (Unit {0}))
          → Keeps (Stage env m name delay n s k) first
          → ((a : A) (g : Handler)
              → Stage env m name delay n s k g
              → let (o, g') = next a g in Ensures (λ _ _. ⊥) (Stage env m name delay n s k) o g')
          → (h : Handler) → Stage env m name delay n s k h
          → let (o, g) = (first >>= next) h in Ensures (λ _ _. ⊥) (Stage env m name delay n s k) o g
      kept first next km rest =
          bind-Ensures (Stage env m name delay n s k) (λ _ _. ⊥) first next km rest

  caught-Stage :
      (s k : ℕ) (p : DataPipeline) (h : Handler)
      → StepRaises env
      → ltb 5 m.dequeue_count ≡ false
      → Stage env m name delay n s k h
      → Meets env m name delay n
          (λ _. Stage env m name delay n (s + 1) (k + 1))
          (catch_exception (process_message env m p) (on_error env m) h)
  unfolding catch_exception ◌>>=◌
  caught-Stage s k p h raises few st =
      go (process_message env m p h).0 (process_message env m p h).1
        (process_message-Stage s k p h raises st)
    where
      go :
          (o : Outcome (Unit {0})) (g : Handler)
          → Ensures (λ _ _. ⊥) (Stage env m name delay n s k) o g
          → Meets env m name delay n
              (λ _. Stage env m name delay n (s + 1) (k + 1))
              (recover o (λ e. if is_cancelled e then raise e else on_error env m e) g)
      go (returned u) g st = absurd st
      go (raised e) g st = by_class (is_cancelled e)
        where
          by_class :
              (b : Bool)
              → Meets env m name delay n
                  (λ _. Stage env m name delay n (s + 1) (k + 1))
                  ((if b then raise e else on_error env m e) g)
          by_class true = st.departed
          by_class false = on_error-Stage s k e g few st

-- However the storage account and the database behave, where the step raises whatever it is given and
-- the message was received five times at most: the message is not deleted, and neither it nor its
-- document is sent anywhere; and if the handler returns, the failure of its step was saved, once, and
-- the message was made visible again, once, after the configured delay.
pub handle_message-Stays :
    (env : Env) (codec : Codec) (m : Message) (h : Handler)
    → StepRaises env
    → m.dequeue_count ≤ 5
    → Stays m h (handle_message env codec m h)
unfolding handle_message lift ◌>>=◌
handle_message-Stays env codec m h raises few = read (decode_content codec m.content)
  where
    delay : ℕ
    delay = h.config.app_message_queue_visibility_timeout

    saved : ℕ
    saved = count_if (is_saved_error h.handler_name) h.trace

    put : ℕ
    put = count_if (is_put_back m.id delay) h.trace

    body : Message → DataPipeline → Exec Handler (Unit {0})
    body m' p = catch_exception (process_message env m' p) (on_error env m')

    stays :
        (m' : Message) (x : Outcome (Unit {0}) × Handler)
        → m'.id ≡ m.id
        → Meets env m' h.handler_name delay
            (count_if is_departure h.trace)
            (λ _.
              Stage env m' h.handler_name delay
                (count_if is_departure h.trace)
                (saved + 1)
                (put + 1))
            x
        → Stays m h x
    stays m' (returned u, g) e st = (
      st.departed,
      st.saved,
      subst (λ i. count_if (is_put_back i delay) g.trace ≡ put + 1) e st.put,
    )
    stays m' (raised x, g) e st = st

    parsed :
        (content : String) (o : Outcome DataPipeline)
        → Stays m h ((lift o >>= body (record m { content = content })) h)
    parsed content (raised e) = refl
    parsed content (returned p) =
        stays (record m { content = content }) _ refl
          (caught-Stage env (record m { content = content }) h.handler_name delay
            (count_if is_departure h.trace) saved put p h raises (ground (arith, few))
            (record { named = refl; delayed = refl; departed = refl; saved = refl; put = refl }))

    read :
        (o : Outcome String)
        → Stays m h (
            (lift o >>= λ content.
            lift (get_object codec content) >>= body (record m { content = content }))
              h)
    read (raised e) = refl
    read (returned content) = parsed content (get_object codec content)
