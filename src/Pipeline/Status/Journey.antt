-- ===== src/Pipeline/Status/Journey.antt =====
-- A document that every step processes in turn: from the queue of one step to that of the next,
-- as `pass_data_pipeline_to_next_step` of pipeline_queue_helper.py sends it on.
use claimsintelligence.Base.{
  ℕ, zero, suc, String, ◌≡◌, refl, true, false, some, List, [], ◌∷◌, ◌++◌, string_key, member,
  length, is_empty, ap,
}
use claimsintelligence.Exec.{returned}
use claimsintelligence.Pipeline.Status.{Status, arrive, update_step, get_next_step_name}
use claimsintelligence.Pipeline.Status.Progress.{IsAt, update_step-IsAt, append_snoc}

-- The steps that are taken from the one given, at most so many, and the status after them.
abbrev pub follow : ℕ → String → Status → List String × Status
follow zero x s = ([], s)
follow (suc n) x s =
    let s' = update_step (arrive x s) in
    let onward : String → List String × Status = λ y. follow n y s' in
    elim (get_next_step_name s') [
      | returned (some y) ↦ let (taken, t) = onward y in (x ∷ taken, t)
      | _ ↦ (x ∷ [], s')
    ]

-- Each of the steps ahead has a name, which is not that of one before it.
abbrev pub AreNew : List String → List String → Type 0
AreNew passed [] = Unit
AreNew passed (x ∷ ahead) =
    (is_empty x ≡ false) × (member x passed ≡ false) × AreNew (passed ++ x ∷ []) ahead

abbrev pub IsThrough : List String → List String → List String × Status → Type 0
IsThrough passed ahead (taken, t) =
    (taken ≡ ahead) × IsAt (passed ++ ahead) [] t × (t.completed ≡ true)

arrived :
    {passed ahead : List String} (x : String) (s : Status)
    → IsAt passed ahead s
    → IsAt passed ahead (arrive x s)
arrived x s h = record { steps = h.steps; remaining = h.remaining; completed = h.completed }

follow-IsThrough :
    (passed : List String) (x : String) (rest : List String) (s : Status)
    → IsAt passed (x ∷ rest) s
    → AreNew passed (x ∷ rest)
    → IsThrough passed (x ∷ rest) (follow (length (x ∷ rest)) x s)
follow-IsThrough passed x [] s h (named, fresh, new) =
    let (at, done, next) =
      update_step-IsAt passed x [] (arrive x s) (arrived x s h) refl named fresh in
    rw (next, follow) (refl, at, done)
follow-IsThrough passed x (y ∷ rest) s h (named, fresh, new) =
    let (at, done, next) =
      update_step-IsAt passed x (y ∷ rest) (arrive x s) (arrived x s h) refl named fresh in
    let (taken, there, completed) =
      follow-IsThrough (passed ++ x ∷ []) y rest (update_step (arrive x s)) at new in
    rw (next, follow) (ap (◌∷◌ x) taken, (rw (append_snoc passed x (y ∷ rest)) at there), completed)

-- A document which is new, at the first of steps with different names that are not empty, is handed
-- on through every step, once and in their order, within as many hand-overs as there are steps; then
-- no step remains, all are among the completed ones in that order, and it is marked as completed.
pub follow-all :
    (x : String) (rest : List String) (s : Status)
    → s.steps ≡ x ∷ rest
    → s.remaining_steps ≡ x ∷ rest
    → s.completed_steps ≡ []
    → AreNew [] (x ∷ rest)
    → IsThrough [] (x ∷ rest) (follow (length (x ∷ rest)) x s)
follow-all x rest s steps remaining completed =
    follow-IsThrough [] x rest s
      (record { steps = steps; remaining = remaining; completed = completed })
