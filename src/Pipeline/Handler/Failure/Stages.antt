-- ===== src/Pipeline/Handler/Failure/Stages.antt =====
-- What the actions of the `except` block do to the counts: `_connect_async`, queue_handler_base.py.
use claimsintelligence.Base.{
  ℕ, ◌+◌, String, ◌≡◌, refl, ap, ◌∙◌, true, Option, none, some, ◌∷◌, arith, string_key, nat_key,
  eq_iff,
}
use claimsintelligence.Exec.{
  Exec, exn, value_error, Outcome, returned, raised, continue, pure, raise, modify, ◌>>=◌, ◌>>◌,
}
use claimsintelligence.Exec.Keeps.{
  Keeps, Ensures, Keeps-pure, Keeps-raise, Keeps-gets, Keeps-bind, Keeps-modify,
}
use claimsintelligence.Pipeline.Status.{StepResult, error, update_step}
use claimsintelligence.Pipeline.Handler.{
  DataPipeline, Message, Call, upload_result, upload_status, update_message, Reply, fail, answer,
  Env, Handler, perform, save_result,
}
use claimsintelligence.Pipeline.Handler.Process.{
  document, on_current, on_status, save_status, write_error, put_back, save_step_outputs,
}
use claimsintelligence.Pipeline.Handler.Safety.{lift-Keeps, document-Keeps}
use claimsintelligence.Pipeline.Handler.Failure.{
  is_departure, is_saved_error, is_put_back, count_if, is_plain, plain_lem, count-uncounted,
  count-counted,
}

module _ (env : Env) (m : Message) (name : String) (delay n : ℕ) where
  -- What is known of the log: `s` failures were saved, and the message was put back `k` times.
  pub record Stage (s k : ℕ) (h : Handler) : Type 0 where
    pub named : h.handler_name ≡ name
    pub delayed : h.config.app_message_queue_visibility_timeout ≡ delay
    pub departed : count_if is_departure h.trace ≡ n
    pub saved : count_if (is_saved_error name) h.trace ≡ s
    pub put : count_if (is_put_back m.id delay) h.trace ≡ k

  abbrev pub Unmoved : Handler → Type 0
  Unmoved h = count_if is_departure h.trace ≡ n

  abbrev pub Meets : {A : Type 0} → (A → Handler → Type 0) → Outcome A × Handler → Type 0
  Meets Q (o, h) = Ensures Q Unmoved o h

  -- The rest of a block relies on what the first action ensures, or keeps.
  pub bind-Meets :
      {A B : Type 0} (Q : A → Handler → Type 0) (R : B → Handler → Type 0) (first : Exec Handler A)
      (next : A → Exec Handler B) (h : Handler)
      → Meets Q (first h)
      → ((a : A) (g : Handler) → Q a g → Meets R (next a g))
      → Meets R ((first >>= next) h)
  unfolding ◌>>=◌
  bind-Meets {A} Q R first next h q rest = go (first h).0 (first h).1 q
    where
      go : (o : Outcome A) (g : Handler) → Ensures Q Unmoved o g → Meets R (continue o next g)
      go (returned a) g q = rest a g q
      go (raised e) g q = q

  pub kept-Meets :
      {A B : Type 0} (R : B → Handler → Type 0) (s k : ℕ) (first : Exec Handler A)
      (next : A → Exec Handler B) (h : Handler)
      → Keeps (Stage s k) first
      → Stage s k h
      → ((a : A) (g : Handler) → Stage s k g → Meets R (next a g))
      → Meets R ((first >>= next) h)
  kept-Meets {A} R s k first next h kept st rest =
      bind-Meets (λ _. Stage s k) R first next h (go (first h).0 (first h).1 (kept.after h st)) rest
    where
      go : (o : Outcome A) (g : Handler) → Stage s k g → Ensures (λ _. Stage s k) Unmoved o g
      go (returned a) g st = st
      go (raised e) g st = st.departed

  pub logged-Stage :
      (s k : ℕ) (c : Call) (y : Reply) (h : Handler)
      → is_plain c ≡ true
      → Stage s k h
      → Stage s k (record h { trace = (c, y) ∷ h.trace })
  logged-Stage s k c y h plain st =
      let (d, e, p) = plain_lem c y name m.id delay plain in
      record {
        named = st.named;
        delayed = st.delayed;
        departed = count-uncounted is_departure (c, y) h.trace d ∙ st.departed;
        saved = count-uncounted (is_saved_error name) (c, y) h.trace e ∙ st.saved;
        put = count-uncounted (is_put_back m.id delay) (c, y) h.trace p ∙ st.put;
      }

  pub perform-Stage : (s k : ℕ) (c : Call) → is_plain c ≡ true → Keeps (Stage s k) (perform env c)
  unfolding perform
  perform-Stage s k c plain = record {
    after = λ h st. logged-Stage s k c (env h.trace c) h plain st;
  }

  pub on_current-Stage :
      (s k : ℕ) (f : DataPipeline → DataPipeline) → Keeps (Stage s k) (modify (on_current f))
  on_current-Stage s k f = Keeps-modify _ λ h st. record {
    named = st.named;
    delayed = st.delayed;
    departed = st.departed;
    saved = st.saved;
    put = st.put;
  }

  -- The result that the block makes of the exception.
  abbrev pub failure : String → String → StepResult
  failure i details = record { process_id = some i; step_name = name; result = error details }

  pub saved-Stage :
      (s k : ℕ) (i details : String) (h : Handler)
      → Stage s k h
      → Meets (λ _. Stage (s + 1) k) (save_result env (failure i details) h)
  unfolding save_result perform ◌>>=◌
  saved-Stage s k i details h st = go (env h.trace (upload_result (failure i details)))
    where
      go :
          (y : Reply)
          → Meets
              (λ _. Stage (s + 1) k)
              (continue
                (answer y)
                (λ _. pure tt)
                (record h { trace = (upload_result (failure i details), y) ∷ h.trace }))
      go (fail e) = st.departed
      go y = record {
        named = st.named;
        delayed = st.delayed;
        departed = st.departed;
        saved =
            count-counted (is_saved_error name) (upload_result (failure i details), y) h.trace
              (ground (arith, eq_iff name name))
            ∙ ap (λ x. x + 1) st.saved;
        put = st.put;
      }

  pub put_back-Stage :
      (s k : ℕ) (r : StepResult) (h : Handler)
      → Stage s k h
      → Meets (λ _. Stage s (k + 1)) (put_back env m r h)
  unfolding put_back perform ◌>>=◌
  put_back-Stage s k r h st =
      go (env h.trace (update_message m.id h.config.app_message_queue_visibility_timeout))
    where
      d : ℕ
      d = h.config.app_message_queue_visibility_timeout

      go :
          (y : Reply)
          → Meets
              (λ _. Stage s (k + 1))
              (continue
                (answer y)
                (λ _. pure r)
                (record h { trace = (update_message m.id d, y) ∷ h.trace }))
      go (fail e) = st.departed
      go y = record {
        named = st.named;
        delayed = st.delayed;
        departed = st.departed;
        saved = st.saved;
        put =
            count-counted (is_put_back m.id delay) (update_message m.id d, y) h.trace
              (ground (arith, st.delayed, eq_iff m.id m.id))
            ∙ ap (λ x. x + 1) st.put;
      }

  pub save_status-Stage : (s k : ℕ) → Keeps (Stage s k) (save_status env)
  unfolding save_status
  save_status-Stage s k = Keeps-bind _ _ document-Keeps λ p. go p.pipeline_status.process_id
    where
      go :
          (o : Option String)
          → Keeps {A = Unit {0}} (Stage s k) (elim o [
            | none ↦ raise (exn value_error "Process ID is required to save the result.")
            | some i ↦ do
              modify (on_current (on_status update_step))
              p' ← document
              perform env (upload_status p'.pipeline_status)
              pure tt
          ])
      go none = Keeps-raise _
      go (some i) = Keeps-bind _ _ (on_current-Stage s k _) λ _.
          Keeps-bind _ _ document-Keeps
            λ p'. Keeps-bind _ _ (perform-Stage s k _ refl) λ _. Keeps-pure tt

  pub write_error-Stage : (s k : ℕ) (r : StepResult) → Keeps (Stage s k) (write_error env r)
  unfolding write_error
  write_error-Stage s k r = Keeps-bind _ _ document-Keeps λ p.
      Keeps-bind _ _ (lift-Keeps _)
        λ file. Keeps-bind _ _ (perform-Stage s k _ refl) λ _. Keeps-pure tt

  pub save_step_outputs-Stage :
      (s k : ℕ) (r : StepResult) → Keeps (Stage s k) (save_step_outputs env r)
  unfolding save_step_outputs
  save_step_outputs-Stage s k r = Keeps-bind _ _ (Keeps-gets _) λ step.
      Keeps-bind _ _ document-Keeps λ p. Keeps-bind _ _ (lift-Keeps _) λ active.
        Keeps-bind _ _ (on_current-Stage s k _) λ _.
          Keeps-bind _ _ (on_current-Stage s k _)
            λ _. Keeps-bind _ _ (perform-Stage s k _ refl) λ _. Keeps-pure tt

  pub closing-Stage :
      (s k : ℕ) (first : Exec Handler (Unit {0})) (h : Handler)
      → Keeps (Stage s k) first
      → Stage s k h
      → Meets (λ _. Stage s k) (first h)
  closing-Stage s k first h kept st = go (first h).0 (first h).1 (kept.after h st)
    where
      go :
          (o : Outcome (Unit {0})) (g : Handler)
          → Stage s k g
          → Ensures (λ _. Stage s k) Unmoved o g
      go (returned a) g st = st
      go (raised e) g st = st.departed
