-- ===== src/ContentProcess/Resubmit.antt =====
-- A document that is submitted again: the short cut of `submit`, services/content_process_service.py.
use Prim.Native.String.{◌++◌ as string_append}
use claimsintelligence.Base.{String, ◌≡◌, ◌∙◌, false, some, List, ◌∷◌, string_key, is_empty}
use claimsintelligence.Exec.{returned, ◌>>=◌}
use claimsintelligence.ContentProcess.{
  ProcessRecord, get_record, found, Event, Env, Service, perform, Submission, submit_once, submit,
}
use claimsintelligence.ContentProcess.Backed.{HasRecord}

-- A database whose reads find a record that it has taken.
pub record Remembers (env : Env) : Type 0 where
  pub reads :
      (t : List Event) (i : String)
      → HasRecord i t
      → (r : ProcessRecord) × (env t (get_record i) ≡ found r)

submit_of_found :
    (env : Env) (i : String) (a : Submission) (s : Service) (r : ProcessRecord)
    → env s.trace (get_record i) ≡ found r
    → submit_once env i a s ≡ (returned i, record s { trace = (get_record i, found r) ∷ s.trace })
unfolding submit_once perform ◌>>=◌
submit_of_found env i a s r e = rw e

module _ (env : Env) (uuid5 : String → String) (claim : String) (a : Submission) where
  abbrev pub claimed : Submission
  claimed = record a { claim_process_id = some claim }

  abbrev pub id_of : String
  id_of = uuid5 (string_append claim (string_append ":" a.filename))

  submit-claimed :
      (fresh : String)
      → is_empty claim ≡ false
      → (s : Service) → submit env uuid5 fresh claimed s ≡ submit_once env id_of claimed s
  unfolding submit
  submit-claimed fresh named s = rw named (rw named)

  -- Once the database has taken the record of a claim's document, and finds what it has taken, a
  -- submission of a document with this name for the claim returns the same process, and makes no
  -- call but the read: also where the message of the first submission was never sent.
  pub resubmit_calls :
      (fresh : String) (s : Service)
      → Remembers env
      → is_empty claim ≡ false
      → HasRecord id_of s.trace
      → (r : ProcessRecord) × (submit env uuid5 fresh claimed s
          ≡ (returned id_of, record s { trace = (get_record id_of, found r) ∷ s.trace }))
  resubmit_calls fresh s db named there =
      let (r, e) = db.reads s.trace id_of there in
      (r, submit-claimed fresh named s ∙ submit_of_found env id_of claimed s r e)
