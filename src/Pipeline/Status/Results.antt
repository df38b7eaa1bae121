-- ===== src/Pipeline/Status/Results.antt =====
-- The results of the steps, one for each name: `add_step_result` and `get_step_result` of
-- entities/pipeline_status.py.
use claimsintelligence.Base.{
  String, ◌≡◌, refl, some, List, [], ◌∷◌, arith, if◌then◌else◌, ◌==◌, string_key, eq_iff,
}
use claimsintelligence.Pipeline.Status.{
  StepResult, Status, put_result, find_result, add_step_result, get_step_result,
}

find_result-put_result :
    (r : StepResult) (step : String) (rs : List StepResult)
    → find_result step (put_result r rs)
      ≡ (if r.step_name == step then some r else find_result step rs)
unfolding find_result put_result
find_result-put_result r step [] = refl
find_result-put_result r step (x ∷ xs) = ground (
  arith,
  find_result-put_result r step xs,
  eq_iff x.step_name r.step_name,
  eq_iff x.step_name step,
  eq_iff r.step_name step,
)

-- After a result was added, it is the one found under its name, and under every other name what was
-- found before.
pub get_step_result-add :
    (s : Status) (r : StepResult) (step : String)
    → get_step_result (add_step_result r s) step
      ≡ (if r.step_name == step then some r else get_step_result s step)
unfolding get_step_result add_step_result
get_step_result-add s r step = find_result-put_result r step s.process_results

put_result-put_result :
    (r r' : StepResult) (rs : List StepResult)
    → r.step_name ≡ r'.step_name
    → put_result r' (put_result r rs) ≡ put_result r' rs
unfolding put_result
put_result-put_result r r' [] h = ground (arith, eq_iff r.step_name r'.step_name)
put_result-put_result r r' (x ∷ xs) h = ground (
  arith,
  put_result-put_result r r' xs h,
  eq_iff x.step_name r.step_name,
  eq_iff x.step_name r'.step_name,
  eq_iff r.step_name r'.step_name,
)

-- A result takes the place of an earlier one with the same name, as if that had not been added.
pub add-add :
    (s : Status) (r r' : StepResult)
    → r.step_name ≡ r'.step_name
    → add_step_result r' (add_step_result r s) ≡ add_step_result r' s
unfolding add_step_result
add-add s r r' h = rw (put_result-put_result r r' s.process_results h)
