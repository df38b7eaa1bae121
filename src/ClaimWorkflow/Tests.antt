-- ===== src/ClaimWorkflow/Tests.antt =====
-- A run over a database that is a dictionary, and the theorems applied to it.
use claimsintelligence.Base.{String, ◌≡◌, refl, Option, none, some, List, [], ◌∷◌, string_key}
use claimsintelligence.Exec.{exn, executor_failed, returned, raised}
use claimsintelligence.Dict
use claimsintelligence.Dict.{Dict, get-set}
use claimsintelligence.ClaimWorkflow.Repository.{
  pending, failed, ClaimProcess, ContentProcess, RepositoryBase, IsWorking,
}
use claimsintelligence.ClaimWorkflow.Run.{Event, invoked, workflow_failure, run}
use claimsintelligence.ClaimWorkflow.Ending.{run-ends}

abbrev Database : Type 0
Database = Dict String ClaimProcess

abbrev lookup : Database → String → Option ClaimProcess
lookup s i = Dict.get s i

abbrev base : RepositoryBase Database
base = record {
  get_async = λ i s. (returned (Dict.get s i), s);
  update_async = λ c s. (returned tt, Dict.set s c.id c);
  add_async = λ c s. (returned tt, Dict.set s c.id c);
  delete_async = λ i s. (returned tt, Dict.pop s i);
}

base-IsWorking : IsWorking base lookup
base-IsWorking = record {
  get = λ i s. refl;
  update = λ c s. refl;
  lookup_update = λ c s j. get-set s c.id j c;
}

abbrev scan : ContentProcess
scan = record {
  process_id = "p1";
  file_name = "claim.pdf";
  mime_type = none;
  entity_score = "0.0";
  schema_score = "0.0";
  status = none;
  processed_time = "";
}

abbrev claim : ClaimProcess
claim = record {
  id = "c1";
  process_name = "First Notice of Loss";
  schemaset_id = "s1";
  metadata_id = none;
  processed_documents = scan ∷ [];
  status = pending;
  process_summary = "";
  process_gaps = "";
  process_comment = "";
  process_time = "";
  processed_time = "";
}

abbrev crash : List Event
crash =
    invoked "summarizing" ∷ workflow_failure (record { executor_id = none; message = "boom" }) ∷ []

run-ends_example :
    let (r, t) = run base "c1" crash none "00:00:01.00" (("c1", claim) ∷ []) in
    (r ≡ raised (exn executor_failed "boom"))
    × ((d : ClaimProcess) × (lookup t "c1" ≡ some d)
        × (d.status ≡ failed)
        × (d.processed_time ≡ "00:00:01.00"))
unfolding Dict.get
run-ends_example =
    run-ends base lookup base-IsWorking "c1" crash none "00:00:01.00" claim (("c1", claim) ∷ [])
      refl refl
