-- ===== src/DocumentProcess/Tests.antt =====
-- Three claims at two times, a sidecar with two known entries of one file, and a claim of two items, one of which is processed to its end.
use claimsintelligence.Base.{◌≡◌, refl, none, some, List, [], ◌∷◌, arith, string_key, ◌≤◌}
use claimsintelligence.DocumentProcess.{
  next_sequence, generate_names, Entry, no_dictionary, file, read_types,
}
use claimsintelligence.ClaimWorkflow.Repository.{ContentProcess, ClaimProcess, document_processing}
use claimsintelligence.ClaimWorkflow.Documents.{entry, count}
use claimsintelligence.DocumentProcess.Types.{last_type, get-read_types}
use claimsintelligence.Dict.{get}
use claimsintelligence.DocumentProcess.Tasks.{
  Item, Final, final_of, document_of, progress_of, poll_again, finish, Stage, waiting, started,
  writing, locked, loaded, polling, polled, leaving, done, Task, World, submit, give_up, fetch,
  enter, local, acquire, load, store, leave, Reach, here, next, start,
}
use claimsintelligence.DocumentProcess.Lock.{replay, claim-replay}
use claimsintelligence.DocumentProcess.Finished.{done-entry}
use claimsintelligence.DocumentProcess.Occupancy.{inside}
use claimsintelligence.DocumentProcess.Progress.{GoesOn, goes_on}
use claimsintelligence.DocumentProcess.Naming.{Rising, generate_names-Rising}

generate_names-Rising_example :
    Rising (5, 0) (generate_names (5 ∷ 5 ∷ 7 ∷ []) (record { last_ts = some 5; seq = 0 }))
generate_names-Rising_example =
    generate_names-Rising (5 ∷ 5 ∷ 7 ∷ []) 5 0 (omega arith, (omega arith, (omega arith, tt)))

-- Where the times go back, the same name is given twice.
given_twice :
    generate_names (1 ∷ 2 ∷ 1 ∷ []) (record { last_ts = none; seq = 0 })
    ≡ (1, 0) ∷ (2, 0) ∷ (1, 0) ∷ []
unfolding generate_names next_sequence
given_twice = refl

abbrev entries : List Entry
entries =
    file (some "a.pdf") (some "police_report")
    ∷ no_dictionary
    ∷ file (some "a.pdf") (some "damage_photo")
    ∷ file (some "a.pdf") (some "letter")
    ∷ []

get-read_types_example :
    get (read_types (λ s. s) entries []) "a.pdf" ≡ last_type (λ s. s) "a.pdf" entries none
unfolding get
get-read_types_example = get-read_types (λ s. s) "a.pdf" entries []

abbrev report : Item
report = record { file_name = "a.pdf"; schema_id = "s1"; mime_type = "application/pdf" }

abbrev photo : Item
photo = record { file_name = "b.png"; schema_id = "s2"; mime_type = "image/png" }

abbrev at_stage : Stage → Task
at_stage s = record { item = report; stage = s }

abbrev claim : ClaimProcess
claim = record {
  id = "c1";
  process_name = "claim-1";
  schemaset_id = "set1";
  metadata_id = none;
  processed_documents = [];
  status = document_processing;
  process_summary = "";
  process_gaps = "";
  process_comment = "";
  process_time = "";
  processed_time = "";
}

abbrev final : Final
final = final_of "p1" "Completed" none

abbrev Run : Type 0
Run = (v : World) × Reach (start (report ∷ photo ∷ []) claim) v

-- The report comes in, is announced and polled, is upserted with its result, and goes out.
abbrev announced : ContentProcess
announced = progress_of report "p1" "processing"

abbrev begun : Run
begun = (_, here)

abbrev entered : Run
entered = (_, next begun.1 (enter 0 (at_stage waiting) refl refl (omega arith)))

abbrev submitted : Run
submitted = (
  _,
  next entered.1
      (local 0 (at_stage started) (writing announced (poll_again "p1" none)) refl (submit "p1")),
)

abbrev holding : Run
holding = (
  _,
  next submitted.1 (
      acquire 0 (at_stage (writing announced (poll_again "p1" none))) announced
        (poll_again "p1" none) refl refl refl),
)

abbrev read : Run
read = (
  _,
  next holding.1 (
      load 0 (at_stage (locked announced (poll_again "p1" none))) announced (poll_again "p1" none)
        refl refl),
)

abbrev stored : Run
stored = (
  _,
  next read.1 (
      store 0 (at_stage (loaded announced (poll_again "p1" none) claim)) announced
        (poll_again "p1" none) claim refl refl),
)

abbrev seen : Run
seen = (
  _,
  next stored.1 (
      local 0 (at_stage (polling "p1" none)) (polled "p1" "Completed") refl
        (give_up "p1" "Completed" none)),
)

abbrev fetched : Run
fetched = (
  _,
  next seen.1 (
      local 0 (at_stage (polled "p1" "Completed"))
        (writing (document_of report final) (finish final)) refl (fetch "p1" "Completed" none)),
)

abbrev holding_again : Run
holding_again = (
  _,
  next fetched.1 (
      acquire 0 (at_stage (writing (document_of report final) (finish final)))
        (document_of report final) (finish final) refl refl refl),
)

abbrev read_again : Run
read_again = (
  _,
  next holding_again.1 (
      load 0 (at_stage (locked (document_of report final) (finish final)))
        (document_of report final) (finish final) refl refl),
)

abbrev stored_again : Run
stored_again = (
  _,
  next read_again.1 (
      store 0 (at_stage (loaded (document_of report final) (finish final) stored.0.claim))
        (document_of report final) (finish final) stored.0.claim refl refl),
)

abbrev left : Run
left = (_, next stored_again.1 (leave 0 (at_stage (leaving final)) final refl refl))

abbrev items : List Item
items = report ∷ photo ∷ []

claim-replay_example : left.0.claim ≡ replay (document_of report final ∷ announced ∷ []) claim
claim-replay_example = claim-replay items claim left.0 left.1

done-entry_example :
    (entry (document_of report final) left.0.claim.processed_documents
      ≡ some (document_of report final))
    × (count (document_of report final) left.0.claim.processed_documents ≤ 1)
done-entry_example =
    done-entry items claim left.0 0 (at_stage (done final)) final ((refl, tt), (tt, tt)) refl left.1
      refl refl

goes_on_example : (inside holding.0.tasks ≤ 4) × GoesOn holding.0
goes_on_example = goes_on items claim holding.0 holding.1 refl
