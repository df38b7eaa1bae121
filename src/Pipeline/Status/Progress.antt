-- ===== src/Pipeline/Status/Progress.antt =====
-- The way of a document through the steps: `update_step` of entities/pipeline_status.py with
-- `get_next_step_name` of pipeline_step_helper.py.
use claimsintelligence.Base.{
  ◌+◌, String, ◌≡◌, refl, true, false, Option, none, some, List, [], ◌∷◌, ◌++◌, arith,
  if◌then◌else◌, string_key, eq_iff, member, length, is_empty, ap, length-append,
}
use claimsintelligence.Exec.{returned}
use claimsintelligence.Pipeline.Status.{
  Status, remove, index, get_elem?, is_nil, move_to_next_step, update_step, step_at,
  get_next_step_name,
}

-- The first of what is left.
abbrev pub head : List String → Option String
head [] = none
head (x ∷ xs) = some x

pub append_snoc :
    (passed : List String) (x : String) (rest : List String)
    → (passed ++ x ∷ []) ++ rest ≡ passed ++ x ∷ rest
append_snoc [] x rest = refl
append_snoc (y ∷ passed) x rest = ap (◌∷◌ y) (append_snoc passed x rest)

index-append :
    (before : List String) (x : String) (rest : List String)
    → member x before ≡ false
    → index (before ++ x ∷ rest) x ≡ some (length before)
unfolding index member
index-append [] x rest h = ground (arith, eq_iff x x)
index-append (y ∷ before) x rest h =
    ground (arith, index-append before x rest, eq_iff x y, eq_iff y x)

get_elem?-append :
    (before : List String) (x : String) (rest : List String)
    → get_elem? (before ++ x ∷ rest) (length before + 1) ≡ head rest
unfolding get_elem?
get_elem?-append [] x [] = refl
get_elem?-append [] x (y ∷ rest) = refl
get_elem?-append (z ∷ before) x rest = ground (arith, get_elem?-append before x rest)

step_at-append :
    (before : List String) (x : String) (rest : List String)
    → step_at (before ++ x ∷ rest) (length before + 1) ≡ head rest
unfolding step_at
step_at-append before x [] = ground (arith, length-append before (x ∷ []))
step_at-append before x (y ∷ rest) =
    ground (arith, length-append before (x ∷ y ∷ rest), get_elem?-append before x (y ∷ rest))

-- The document is at the first of the steps in `ahead`, and has passed those in `passed`.
pub record IsAt (passed ahead : List String) (s : Status) : Type 0 where
  pub steps : s.steps ≡ passed ++ ahead
  pub remaining : s.remaining_steps ≡ ahead
  pub completed : s.completed_steps ≡ passed

-- Where the document is at a step which has a name and is not among those it has passed, the step's
-- end moves it on by this step alone; the document is completed if it was the last, and else stays
-- as it was marked; and the step after it is the one whose queue is next.
pub update_step-IsAt :
    (passed : List String) (x : String) (rest : List String) (s : Status)
    → IsAt passed (x ∷ rest) s
    → s.active_step ≡ some x
    → is_empty x ≡ false
    → member x passed ≡ false
    → IsAt (passed ++ x ∷ []) rest (update_step s)
      × ((update_step s).completed ≡ (if is_nil rest then true else s.completed))
      × (get_next_step_name (update_step s) ≡ returned (head rest))
unfolding update_step move_to_next_step remove get_next_step_name
update_step-IsAt passed x rest s h active named fresh = (
  record {
    steps = ground (arith, h.steps, append_snoc passed x rest);
    remaining = ground (arith, h.remaining, eq_iff x x);
    completed = ground (arith, h.completed);
  },
  ground (arith, h.remaining, eq_iff x x),
  ground (arith, h.steps, index-append passed x rest fresh, step_at-append passed x rest),
)
