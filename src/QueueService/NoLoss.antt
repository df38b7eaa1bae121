-- ===== src/QueueService/NoLoss.antt =====
-- A message leaves the main queue only after its workflow has finished or a copy of it has reached
-- the dead-letter queue: `_process_queue_message` of queue_service.py, for every behaviour of the
-- storage account and of the workflow.
pub mod Ending
pub mod Job
use claimsintelligence.Base.{
  ℕ, String, ◌≡◌, ◌≢◌, refl, Bool, true, false, not, ◌&&◌, ◌||◌, Option, none, some, List, [], ◌∷◌,
  arith, if◌then◌else◌, ◌==◌, nat_key, string_key, eq_iff, eqb_iff, is_empty,
}
use claimsintelligence.Exec.{Exec, Exn, Outcome, returned, raised, Class, ◌>>=◌}
use claimsintelligence.Exec.Keeps.{
  Keeps, keeps_rules, Keeps-gets, Keeps-if, Keeps-pure, Keeps-bind, Keeps-bind_gets, Keeps-catch,
}
use claimsintelligence.Dict
use claimsintelligence.Dict.{get-set, get-pop, dict_laws}
use claimsintelligence.QueueService.Payload.{Codec, build_task_param}
use claimsintelligence.QueueService.State.{
  QueueMessage, DeadLetter, Call, delete_message, update_message, send_dead_letter, run_claim,
  get_azure_credential, list_blobs, delete_multiple_blobs, delete_directory, Reply, fail, Event,
  Env, Service, perform, target,
}
use claimsintelligence.QueueService.Blobs.{
  delete_output_directory, delete_output_blobs, cleanup_output_blobs,
}
use claimsintelligence.QueueService.Finalise.{
  content_text, dispatch, track, track_receipt, new_receipt, with_receipt, delete_queue_message,
  delete_original, handle_successful_processing, schedule_retry, send_to_dead_letter_queue,
  postpone, cleanup_after_failure, payload_of, dead_letter, handle_failed_no_retry,
}

abbrev pub succeeded : Reply → Bool
succeeded (fail e) = false
succeeded _ = true

abbrev pub same_id : Option String → Option String → Bool
same_id none none = true
same_id (some i) (some j) = i == j
same_id none (some j) = false
same_id (some i) none = false

pub same_id_self : (i : Option String) → same_id i i ≡ true
same_id_self none = refl
same_id_self (some i) = (eq_iff i i).1 refl

-- A copy of the message, with its content, reached the dead-letter queue.
abbrev pub is_copy : Codec → QueueMessage → Event → Bool
is_copy codec m (send_dead_letter d, r) =
    same_id d.message_id m.id && d.original_content == content_text codec m.content && succeeded r
is_copy codec m _ = false

abbrev pub has_copy : Codec → QueueMessage → List Event → Bool
has_copy codec m [] = false
has_copy codec m (e ∷ t) = is_copy codec m e || has_copy codec m t

-- The workflow of the claim that the message names finished.
abbrev pub is_run : Outcome String → Event → Bool
is_run (returned c) (run_claim c', r) = c == c' && succeeded r
is_run _ _ = false

abbrev pub has_run : Outcome String → List Event → Bool
has_run c [] = false
has_run c (e ∷ t) = is_run c e || has_run c t

abbrev pub is_handled : Codec → QueueMessage → List Event → Bool
is_handled codec m t = has_copy codec m t || has_run (build_task_param codec m.content) t

-- Every deletion in the log is of this message, and came after the message was handled.
abbrev pub DeletesAreJustified : Codec → QueueMessage → List Event → Type 0
DeletesAreJustified codec m [] = Unit
DeletesAreJustified codec m ((delete_message i p, r) ∷ t) =
    (m.id ≡ some i) × (is_handled codec m t ≡ true) × DeletesAreJustified codec m t
DeletesAreJustified codec m (_ ∷ t) = DeletesAreJustified codec m t

abbrev pub is_delete : Call → Bool
is_delete (delete_message i p) = true
is_delete _ = false

-- The receipt tracked for the worker, if there is one, is that of the message.
abbrev pub OwnsReceipt : QueueMessage → ℕ → Service → Type 0
OwnsReceipt m w s = (i p : String) → Dict.get s.inflight_message w ≡ some (i, p) → m.id ≡ some i

module _ (codec : Codec) (m : QueueMessage) (w : ℕ) (env : Env) where
  pub record Safe (s : Service) : Type 0 where
    pub justified : DeletesAreJustified codec m s.trace
    pub own : OwnsReceipt m w s

  -- Safe, and the message may go.
  pub record Handled (s : Service) : Type 0 where
    pub safe : Safe s
    pub handled : is_handled codec m s.trace ≡ true

  not_delete-justified :
      (c : Call) (r : Reply) (t : List Event)
      → is_delete c ≡ false
      → DeletesAreJustified codec m t
      → DeletesAreJustified codec m ((c, r) ∷ t)
  not_delete-justified (delete_message i p) r t d j = cc
  not_delete-justified _ r t d j = j

  pub handled_mono :
      (e : Event) (t : List Event) → is_handled codec m t ≡ true → is_handled codec m (e ∷ t) ≡ true
  handled_mono e t h = ground arith

  pub perform-Safe : (c : Call) → is_delete c ≡ false → Keeps Safe (perform env c)
  unfolding perform
  perform-Safe c d = record {
    after = λ s h. record {
      justified = not_delete-justified c (env s.trace c) s.trace d h.justified;
      own = h.own;
    };
  }

  pub perform-Handled : (c : Call) → is_delete c ≡ false → Keeps Handled (perform env c)
  unfolding perform
  perform-Handled c d = record {
    after = λ s h. record {
      safe = (perform-Safe c d).after s h.safe;
      handled = handled_mono (c, env s.trace c) s.trace h.handled;
    };
  }

target-own :
    (m : QueueMessage) (w : ℕ) (s : Service)
    → OwnsReceipt m w s
    → (i p : String) → target m (some w) s ≡ (some i, some p)
    → m.id ≡ some i
unfolding target
target-own m w s own i p = ground (arith, own i p)

module _ (m : QueueMessage) (w : ℕ) {P : Service → Type 0}
    (own : (s : Service) → P s → OwnsReceipt m w s) where
  dispatch-Keeps :
      (t : Option String × Option String) (f : String → String → Exec Service (Unit {0}))
      → ((i p : String) → t ≡ (some i, some p) → Keeps P (f i p))
      → Keeps P (dispatch t f)
  dispatch-Keeps (some i, some p) f k = k i p refl
  dispatch-Keeps (some i, none) f k = search keeps_rules
  dispatch-Keeps (none, p) f k = search keeps_rules

  -- What is done with the receipt may rely on the id.
  pub with_receipt-Keeps :
      (f : String → String → Exec Service (Unit {0}))
      → ((i p : String) → m.id ≡ some i → Keeps P (f i p))
      → Keeps P (with_receipt m (some w) f)
  unfolding with_receipt
  with_receipt-Keeps f k = Keeps-bind _ _ (Keeps-gets _) λ present.
      Keeps-if present _ _
        (Keeps-bind_gets _ _ λ s h.
          (dispatch-Keeps (target m (some w) s) f
              (λ i p e. k i p (target-own m w s (own s h) i p e))).after
            s h)
        (Keeps-pure tt)
