-- ===== src/ContentProcess/Backed.antt =====
-- What a message on the queue finds: `submit` of services/content_process_service.py, for every
-- behaviour of the storage account and the database.
pub mod Submitting
use claimsintelligence.Base.{
  String, ◌≡◌, refl, Bool, true, false, ◌&&◌, ◌||◌, Option, none, some, List, [], ◌∷◌, arith, ◌==◌,
  string_key, eq_iff, is_empty,
}
use claimsintelligence.Exec.{Exec, Outcome, returned, raised, pure, modify, ◌>>◌}
use claimsintelligence.Exec.Keeps.{
  Keeps, Ensures, Keeps-pure, Keeps-gets, Keeps-if, Keeps-bind, Keeps-modify, Keeps-catch_exception,
  bind-meets,
}
use claimsintelligence.ContentProcess.{
  ProcessRecord, Call, get_record, add_record, create_container, upload_blob, send_message, Reply,
  fail, Event, Env, Service, answer, perform, Submission, blob_name, record_of, message_of,
  as_record, get_blob_helper, get_queue_client, upload_envelope, upload_and_enqueue, submit_unless,
  submit_once, submit, or_text,
}

abbrev pub succeeded : Reply → Bool
succeeded (fail e) = false
succeeded _ = true

abbrev pub is_record : String → Event → Bool
is_record i (add_record r, x) = r.process_id == i && succeeded x
is_record i _ = false

abbrev pub is_file : String → Event → Bool
is_file name (upload_blob n bytes, x) = n == name && succeeded x
is_file name _ = false

abbrev pub happened : (Event → Bool) → List Event → Bool
happened p [] = false
happened p (e ∷ t) = p e || happened p t

abbrev pub HasRecord : String → List Event → Type 0
HasRecord i t = happened (is_record i) t ≡ true

abbrev pub HasFile : String → List Event → Type 0
HasFile name t = happened (is_file name) t ≡ true

-- Every message in the log was sent after the database had taken the record of its process, and the
-- storage account its file.
abbrev pub IsBacked : List Event → Type 0
IsBacked [] = Unit
IsBacked ((send_message m, r) ∷ t) =
    HasRecord m.process_id t × HasFile (blob_name m.process_id m.file_name) t × IsBacked t
IsBacked (_ ∷ t) = IsBacked t

abbrev pub is_send : Call → Bool
is_send (send_message m) = true
is_send _ = false

pub log-IsBacked :
    (c : Call) (r : Reply) (t : List Event) → is_send c ≡ false → IsBacked t → IsBacked ((c, r) ∷ t)
log-IsBacked (send_message m) r t d b = cc
log-IsBacked _ r t d b = b

-- What has happened stays so.
abbrev pub IsKept : (List Event → Type 0) → Type 0
IsKept Q = (e : Event) (t : List Event) → Q t → Q (e ∷ t)

pub happened-IsKept : (p : Event → Bool) → IsKept (λ t. happened p t ≡ true)
happened-IsKept p e t h = ground arith

pub record Holds (Q : List Event → Type 0) (s : Service) : Type 0 where
  pub backed : IsBacked s.trace
  pub also : Q s.trace

abbrev pub Backed : Service → Type 0
Backed = Holds λ t. Unit

module _ (env : Env) (Q : List Event → Type 0) (kept : IsKept Q) where
  pub perform-Holds : (c : Call) → is_send c ≡ false → Keeps (Holds Q) (perform env c)
  unfolding perform
  perform-Holds c d = record {
    after = λ s h. record {
      backed = log-IsBacked c (env s.trace c) s.trace d h.backed;
      also = kept (c, env s.trace c) s.trace h.also;
    };
  }

  pub modify-Holds :
      (f : Service → Service) → ((s : Service) → (f s).trace ≡ s.trace) → Keeps (Holds Q) (modify f)
  modify-Holds f same =
      Keeps-modify f λ s h. record { backed = rw (same s) h.backed; also = rw (same s) h.also }

  pub get_blob_helper-Holds : Keeps (Holds Q) (get_blob_helper env)
  unfolding get_blob_helper
  get_blob_helper-Holds = Keeps-bind _ _ (Keeps-gets _) λ there.
      Keeps-if there _ _ (Keeps-pure tt) (
        Keeps-bind _ _ (modify-Holds _ λ s. refl)
          λ _. Keeps-bind _ _ (perform-Holds create_container refl) λ _. Keeps-pure tt)

  pub upload_envelope-Holds :
      (name : String) (o : Option (List _)) → Keeps (Holds Q) (upload_envelope env name o)
  upload_envelope-Holds name none = Keeps-pure tt
  upload_envelope-Holds name (some []) = Keeps-pure tt
  upload_envelope-Holds name (some (b ∷ bytes)) =
      Keeps-catch_exception _ _
        (Keeps-bind _ _ (perform-Holds (upload_blob name (b ∷ bytes)) refl) λ _. Keeps-pure tt)
        λ e. Keeps-pure tt

  -- What is kept is there, whether the action returns or raises.
  pub stays :
      {A : Type 0} (m : Exec Service A)
      → Keeps (Holds Q) m
      → (s : Service) → Holds Q s
      → Ensures (λ _. Holds Q) Backed (m s).0 (m s).1
  stays {A} m k s h = go (m s).0 (m s).1 (k.after s h)
    where
      go : (o : Outcome A) (t : Service) → Holds Q t → Ensures (λ _. Holds Q) Backed o t
      go (returned a) t h' = h'
      go (raised e) t h' = record { backed = h'.backed; also = tt }

  -- A call that is answered adds what it is for.
  pub adds :
      (c : Call) (p : Event → Bool) (r : Reply) (s : Service)
      → is_send c ≡ false
      → p (c, r) ≡ succeeded r
      → Holds Q s
      → Ensures
          (λ _. Holds (λ t. Q t × (happened p t ≡ true)))
          Backed
          (answer r)
          (record s { trace = (c, r) ∷ s.trace })
  adds c p (fail e) s d h' h = record {
    backed = log-IsBacked c (fail e) s.trace d h.backed;
    also = tt;
  }
  adds c p r s d h' h = record {
    backed = log-IsBacked c r s.trace d h.backed;
    also = (kept (c, r) s.trace h.also, ground arith);
  }
