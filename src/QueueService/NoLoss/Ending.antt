-- ===== src/QueueService/NoLoss/Ending.antt =====
-- The ends of a message, `_handle_successful_processing` and `_handle_failed_no_retry` of
-- queue_service.py, and the deletions in them.
use claimsintelligence.Base.{
  ℕ, String, ◌≡◌, refl, Bool, true, false, Option, none, some, List, [], ◌∷◌, arith, if◌then◌else◌,
  nat_key, string_key, eq_iff, eqb_iff,
}
use claimsintelligence.Exec.{
  Exec, Exn, pure, raise, is_azure, is_cancelled, catch_exception, ◌>>=◌, ◌>>◌,
}
use claimsintelligence.Exec.Keeps.{
  Keeps, keeps_rules, Keeps-bind, Keeps-if, Keeps-modify, Keeps-pure, Keeps-gets,
  Keeps-bind-Ensures, Ensures, Keeps-raise, Keeps-catch_exception, Keeps-catch,
}
use claimsintelligence.Dict.{get-set}
use claimsintelligence.QueueService.Payload.{Codec}
use claimsintelligence.QueueService.State.{
  Config, QueueMessage, DeadLetter, Call, delete_message, send_dead_letter, Reply, fail, answer,
  Env, Service, perform,
}
use claimsintelligence.QueueService.Blobs.{
  delete_output_directory, delete_output_blobs, cleanup_output_blobs,
}
use claimsintelligence.QueueService.Finalise.{
  content_text, track, track_receipt, new_receipt, delete_queue_message, delete_original,
  handle_successful_processing, schedule_retry, send_to_dead_letter_queue, postpone,
  cleanup_after_failure, payload_of, dead_letter, handle_failed_no_retry, should_dead_letter,
}
use claimsintelligence.QueueService.NoLoss.{
  Safe, Handled, is_delete, OwnsReceipt, perform-Safe, perform-Handled, handled_mono, succeeded,
  is_copy, same_id_self, with_receipt-Keeps,
}

module _ (env : Env) where
  -- The cleanup of blobs makes other calls only.
  module _ {P : Service → Type 0}
      (call : (c : Call) → is_delete c ≡ false → Keeps P (perform env c)) where
    delete_output_directory-Keeps :
        (container dir : String) → Keeps P (delete_output_directory env container dir)
    unfolding delete_output_directory
    delete_output_directory-Keeps container dir = search (keeps_rules, call) depth 9

    delete_output_blobs-Keeps :
        (container dir : String) (names : List String)
        → Keeps P (delete_output_blobs env container dir names)
    unfolding delete_output_blobs
    delete_output_blobs-Keeps container dir [] = search keeps_rules
    delete_output_blobs-Keeps container dir (name ∷ names) =
        Keeps-bind _ _ (call _ refl) (λ _. delete_output_directory-Keeps container dir)

    cleanup_output_blobs-Keeps : (c : String) → Keeps P (cleanup_output_blobs env c)
    unfolding cleanup_output_blobs
    cleanup_output_blobs-Keeps c = search (keeps_rules, call, delete_output_blobs-Keeps) depth 12

    cleanup_after_failure-Keeps :
        (c : Option String) (scope : String) → Keeps P (cleanup_after_failure env c scope)
    unfolding cleanup_after_failure
    cleanup_after_failure-Keeps none scope = search keeps_rules
    cleanup_after_failure-Keeps (some c) scope =
        search (keeps_rules, cleanup_output_blobs-Keeps) depth 12

-- Invariants that every call but a deletion keeps, and that see to it that the receipt is the
-- message's own.
module _ (env : Env) (m : QueueMessage) (w : ℕ) {P : Service → Type 0}
    (call : (c : Call) → is_delete c ≡ false → Keeps P (perform env c))
    (own : (s : Service) → P s → OwnsReceipt m w s)
    (retrack : (i p : String) → m.id ≡ some i → (s : Service) → P s → P (track w i p s)) where
  track_receipt-Keeps :
      (i : String) (p : Option String) → m.id ≡ some i → Keeps P (track_receipt (some w) i p)
  track_receipt-Keeps i none e = search keeps_rules
  track_receipt-Keeps i (some p) e = Keeps-modify _ (retrack i p e)

  schedule_retry-Keeps : Keeps P (schedule_retry env m (some w))
  unfolding schedule_retry
  schedule_retry-Keeps = Keeps-bind _ _ (Keeps-gets _) λ config.
      Keeps-catch_exception _ _
        (with_receipt-Keeps m w own _
          λ i p e. Keeps-bind _ _ (call _ refl) λ r. track_receipt-Keeps i (new_receipt r) e)
        (λ e. Keeps-pure tt)

  postpone-Keeps : Keeps P (postpone env m (some w))
  unfolding postpone
  postpone-Keeps = Keeps-bind _ _ (Keeps-gets _) λ config.
      Keeps-catch_exception _ _ (with_receipt-Keeps m w own _ λ i p e. search (keeps_rules, call))
        (λ e. Keeps-pure tt)

module _ (codec : Codec) (m : QueueMessage) (w : ℕ) (env : Env) where
  abbrev SafeState : Service → Type 0
  SafeState = Safe codec m w env

  abbrev HandledState : Service → Type 0
  HandledState = Handled codec m w env

  pub track-Safe :
      (i p : String) → m.id ≡ some i → (s : Service) → SafeState s → SafeState (track w i p s)
  track-Safe i p e s h = record {
    justified = h.justified;
    own = λ j q f. ground (arith, get-set s.inflight_message w w (i, p), eqb_iff w w);
  }

  -- A deletion of the message, where it was handled, is justified.
  perform_delete-Handled :
      (i p : String) → m.id ≡ some i → Keeps HandledState (perform env (delete_message i p))
  unfolding perform
  perform_delete-Handled i p e = record {
    after = λ s h. record {
      safe = record { justified = (e, h.handled, h.safe.justified); own = h.safe.own };
      handled =
          handled_mono codec m w env (delete_message i p, env s.trace (delete_message i p)) s.trace
            h.handled;
    };
  }

  delete_original-Handled : Keeps HandledState (delete_original env m (some w))
  unfolding delete_original delete_queue_message
  delete_original-Handled =
      Keeps-catch _ _
        (with_receipt-Keeps m w (λ s h. h.safe.own) _
          λ i p e. Keeps-bind _ _ (perform_delete-Handled i p e) (λ _. Keeps-pure tt))
        (λ e. Keeps-if (is_azure e) _ _ (Keeps-pure tt) (Keeps-raise e))

  pub handle_successful_processing-Handled :
      Keeps HandledState (handle_successful_processing env m (some w))
  unfolding handle_successful_processing
  handle_successful_processing-Handled = delete_original-Handled

  abbrev SentState : Bool → Service → Type 0
  SentState true s = HandledState s
  SentState false s = SafeState s

  -- The call that sends the copy, as it is answered.
  abbrev sending : DeadLetter → Reply → Exec Service Bool
  sending d r =
      catch_exception
        ((λ s. (answer r, record s { trace = (send_dead_letter d, r) ∷ s.trace })) >>= λ _.
          pure true)
        (λ e. pure false)

  abbrev copy : String → String → Config → DeadLetter
  copy process_id failure_reason config = payload_of codec config m process_id failure_reason

  not_sent :
      (e : Exn) (b : Bool) (s : Service)
      → SafeState s
      → Ensures SentState SafeState
          ((if b then raise e else pure false) s).0
          ((if b then raise e else pure false) s).1
  unfolding ◌>>=◌
  not_sent e true s h = h
  not_sent e false s h = h

  is_copy_self :
      (process_id failure_reason : String) (config : Config) (r : Reply)
      → succeeded r ≡ true
      → is_copy codec m (send_dead_letter (copy process_id failure_reason config), r) ≡ true
  is_copy_self process_id failure_reason config r e = ground (
    arith,
    same_id_self m.id,
    eq_iff (content_text codec m.content) (content_text codec m.content),
  )

  answered :
      (process_id failure_reason : String) (config : Config) (r : Reply) (s : Service)
      → SafeState s
      → Ensures SentState SafeState
          (sending (copy process_id failure_reason config) r s).0
          (sending (copy process_id failure_reason config) r s).1
  unfolding catch_exception ◌>>=◌
  answered process_id failure_reason config (fail e) s h =
      not_sent e (is_cancelled e) _ (record { justified = h.justified; own = h.own })
  answered process_id failure_reason config r s h = record {
    safe = record { justified = h.justified; own = h.own };
    handled = ground (arith, is_copy_self process_id failure_reason config r refl);
  }

  -- Where it is said that the dead letter was sent, the copy is in the queue.
  send-Ensures :
      (process_id failure_reason : String) (config : Config) (s : Service)
      → SafeState s
      → Ensures SentState SafeState
          (send_to_dead_letter_queue env (payload_of codec config m process_id failure_reason) s).0
          (send_to_dead_letter_queue env (payload_of codec config m process_id failure_reason) s).1
  unfolding send_to_dead_letter_queue perform ◌>>=◌ catch_exception
  send-Ensures process_id failure_reason config s h = go s.dead_letter_queue
    where
      d : DeadLetter
      d = copy process_id failure_reason config

      attempt : Bool → Exec Service Bool
      attempt b =
          catch_exception
            (if b then (do perform env (send_dead_letter d); pure true) else pure false)
            (λ e. pure false)

      go : (b : Bool) → Ensures SentState SafeState (attempt b s).0 (attempt b s).1
      go true = answered process_id failure_reason config (env s.trace (send_dead_letter d)) s h
      go false = h

  pub dead_letter-Safe :
      (process_id failure_reason : String) (c : Option String)
      → Keeps SafeState (dead_letter env codec m process_id failure_reason c (some w))
  unfolding dead_letter
  dead_letter-Safe process_id failure_reason c = Keeps-bind _ _ (Keeps-gets _) λ config.
      Keeps-bind-Ensures SafeState SentState _ _ (send-Ensures process_id failure_reason config) go
    where
      go :
          (sent : Bool) (s : Service)
          → SentState sent s
          → SafeState
              ((if sent
                  then (do cleanup_after_failure env c "output"; delete_original env m (some w))
                  else postpone env m (some w))
                s).1
      go true s h =
          ((Keeps-bind _ _
              (cleanup_after_failure-Keeps env (perform-Handled codec m w env) c "output")
              (λ _. delete_original-Handled)).after
            s h).safe
      go false s h =
          (postpone-Keeps env m w (perform-Safe codec m w env) (λ s h. h.own) track-Safe).after s h

  pub handle_failed-Safe :
      (process_id failure_reason : String) (c : Option String) (force : Bool)
      → Keeps SafeState
          (handle_failed_no_retry env codec m process_id failure_reason c (some w) force)
  unfolding handle_failed_no_retry
  handle_failed-Safe process_id failure_reason c force = Keeps-bind _ _ (Keeps-gets _) λ config.
      Keeps-if (should_dead_letter config m force) _ _
        (dead_letter-Safe process_id failure_reason c)
        (schedule_retry-Keeps env m w (perform-Safe codec m w env) (λ s h. h.own) track-Safe)
