-- ===== src/Pipeline/Status.antt =====
-- entities/pipeline_status.py, pipeline_step_helper.py and the results of pipeline_step_result.py:
-- how far a document has come. The times are left out, as nothing reads them.
pub mod Progress
pub mod Journey
pub mod Results
use claimsintelligence.Base.{
  ℕ, zero, suc, ◌+◌, String, Bool, true, false, Option, none, some, List, [], ◌∷◌, ◌++◌, length,
  ltb, if◌then◌else◌, ◌==◌, string_key, is_empty,
}
use claimsintelligence.Exec.{exn, value_error, Outcome, returned, raised}

-- The payload of a step's result: the step's own, or what the error path writes.
pub data Payload : Type 0 where
  output : String → Payload
  error : String → Payload
  moved_to_dead_letter_queue : String → Payload

pub record StepResult : Type 0 where
  pub process_id : Option String
  pub step_name : String
  pub result : Payload

-- `PipelineStatus`
pub record Status : Type 0 where
  pub completed : Bool
  pub process_id : Option String
  pub active_step : Option String
  pub steps : List String
  pub remaining_steps : List String
  pub completed_steps : List String
  pub process_results : List StepResult

-- xs.remove(x), where x is in xs
unfoldable pub remove : List String → String → List String
remove [] x = []
remove (y ∷ ys) x = if y == x then ys else y ∷ remove ys x

-- xs.index(x)
unfoldable pub index : List String → String → Option ℕ
index [] x = none
index (y ∷ ys) x =
    let later = index ys x in
    if y == x then some 0 else elim later [ none ↦ none | some i ↦ some (suc i) ]

-- xs[i]
unfoldable pub get_elem? {ℓ} : {A : Type ℓ} → List A → ℕ → Option A
get_elem? [] i = none
get_elem? (x ∷ xs) zero = some x
get_elem? (x ∷ xs) (suc i) = get_elem? xs i

abbrev pub is_nil {ℓ} : {A : Type ℓ} → List A → Bool
is_nil [] = true
is_nil (x ∷ xs) = false

abbrev pub last {ℓ} : {A : Type ℓ} → List A → Option A
last [] = none
last (x ∷ xs) = elim (last xs) [ none ↦ some x | some y ↦ some y ]

unfoldable pub move_to_next_step : String → Status → Status
move_to_next_step step s =
    let remaining = remove s.remaining_steps step in
    record s {
      completed_steps = s.completed_steps ++ step ∷ [];
      remaining_steps = remaining;
      completed = if is_nil remaining then true else s.completed;
    }

unfoldable pub update_step : Status → Status
update_step s = elim s.active_step [
  | none ↦ s
  | some step ↦ if is_empty step then s else move_to_next_step step s
]

-- The handler of a step takes the document.
abbrev pub arrive : String → Status → Status
arrive step s = record s { active_step = some step }

unfoldable pub put_result : StepResult → List StepResult → List StepResult
put_result r [] = r ∷ []
put_result r (x ∷ xs) = if x.step_name == r.step_name then r ∷ xs else x ∷ put_result r xs

unfoldable pub add_step_result : StepResult → Status → Status
add_step_result r s = record s { process_results = put_result r s.process_results }

unfoldable pub find_result : String → List StepResult → Option StepResult
find_result step [] = none
find_result step (x ∷ xs) = if x.step_name == step then some x else find_result step xs

unfoldable pub get_step_result : Status → String → Option StepResult
get_step_result s step = find_result step s.process_results

-- The argument of the source, the current step's name, is not used there either.
unfoldable pub get_previous_step_result : Status → String → Option StepResult
get_previous_step_result s current = elim (last s.completed_steps) [
  | none ↦ none
  | some previous ↦ get_step_result s previous
]

unfoldable pub step_at : List String → ℕ → Option String
step_at steps i = if ltb i (length steps) then get_elem? steps i else none

-- An active step that is not among the steps is an error of `list.index`.
unfoldable pub get_next_step_name : Status → Outcome (Option String)
get_next_step_name s =
    let not_in_list = raised (exn value_error "not in list") in
    elim s.active_step [
      | none ↦ not_in_list
      | some active ↦ elim (index s.steps active) [
        | none ↦ not_in_list
        | some i ↦ returned (step_at s.steps (i + 1))
      ]
    ]
