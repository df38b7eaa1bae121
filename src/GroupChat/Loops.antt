-- ===== src/GroupChat/Loops.antt =====
-- The loop detection of groupchat_orchestrator.py: three times the same selection, with none between.
use claimsintelligence.Base.{
  ℕ, suc, ◌+◌, String, ◌≡◌, refl, sym, ap, ◌∙◌, Bool, true, false, ◌&&◌, ◌||◌, Option, none, some,
  List, [], ◌∷◌, arith, if◌then◌else◌, ◌==◌, string_key, nat_key, pair_key, eqb_iff, pair_iff, leb,
  ◌≤◌,
}
use claimsintelligence.GroupChat.{
  Orchestrator, ForcedReason, loop_detected, is_some, request_forced_termination,
}
use claimsintelligence.GroupChat.Respond.{
  Reading, detect_loop, names_agent, count_streak, count_from, break_loop, start_streak,
  restart_streak, extend_streak,
}

-- A turn: the coordinator selects an agent with an instruction, or another agent responds.
pub data Turn : Type 0 where
  selection : String → String → Turn
  progress : Turn

-- What the turn does to the state that the detection reads.
abbrev pub take_turn : Reading → Turn → Orchestrator → Orchestrator
take_turn reading (selection selected instruction) s =
    detect_loop reading (some selected) instruction s
take_turn reading progress s = record s { progress_counter = s.progress_counter + 1 }

-- The turns, the newest first.
abbrev pub take_turns : Reading → List Turn → Orchestrator → Orchestrator
take_turns reading [] s = s
take_turns reading (t ∷ ts) s = take_turn reading t (take_turns reading ts s)

-- The newest turns that make the same selection.
abbrev pub same_turns : String × String → List Turn → ℕ
same_turns key [] = 0
same_turns key (progress ∷ ts) = 0
same_turns key (selection selected instruction ∷ ts) =
    if key == (selected, instruction) then suc (same_turns key ts) else 0

-- Somewhere, the same selection is made three times, with no other turn in between.
abbrev pub is_stuck : List Turn → Bool
is_stuck [] = false
is_stuck (progress ∷ ts) = is_stuck ts
is_stuck (selection selected instruction ∷ ts) =
    leb 2 (same_turns (selected, instruction) ts) || is_stuck ts

-- Every selection names an agent.
abbrev pub AllNamed : Reading → List Turn → Type 0
AllNamed reading [] = Unit
AllNamed reading (progress ∷ ts) = AllNamed reading ts
AllNamed reading (selection selected instruction ∷ ts) =
    (names_agent reading selected ≡ true) × AllNamed reading ts

-- The selections that continue a streak, by what the state says.
abbrev continued : String × String → Option (String × String) → ℕ → ℕ → ℕ → ℕ
continued key none counter seen streak = 0
continued key (some last) counter seen streak =
    if key == last && (counter == seen) then streak else 0

abbrev continues : String × String → Orchestrator → ℕ
continues key s =
    continued key s.last_coordinator_selection s.progress_counter
      s.last_coordinator_selection_progress s.coordinator_selection_streak

abbrev reason_if : Bool → Option ForcedReason
reason_if b = if b then some loop_detected else none

-- What is known of the state after some turns.
record Detects (ts : List Turn) (s : Orchestrator) : Type 0 where
  streak : (key : String × String) → continues key s ≡ same_turns key ts
  behind : s.last_coordinator_selection_progress ≤ s.progress_counter
  found : s.forced ≡ reason_if (is_stuck ts)
  open_ : s.termination_requested ≡ false

-- From `s` to `t`, the selection of `key` is counted.
record Counts (key : String × String) (s t : Orchestrator) : Type 0 where
  last : t.last_coordinator_selection ≡ some key
  seen : t.last_coordinator_selection_progress ≡ s.progress_counter
  counter : t.progress_counter ≡ s.progress_counter
  streak : t.coordinator_selection_streak ≡ suc (continues key s)
  requested : t.termination_requested ≡ s.termination_requested

counted : (key : String × String) (s : Orchestrator) → Counts key s (count_streak key s)
counted key s = from s.last_coordinator_selection refl
  where
    by_seen :
        (last : String × String) (b : Bool)
        → s.last_coordinator_selection ≡ some last
        → (key == last) ≡ true
        → (s.progress_counter == s.last_coordinator_selection_progress) ≡ b
        → Counts key s (if b then extend_streak s else restart_streak s)
    by_seen last true e h k = record {
      last = e ∙ ap some (sym ((pair_iff key last).0 h));
      seen = sym ((eqb_iff s.progress_counter s.last_coordinator_selection_progress).0 k);
      counter = refl;
      streak = rw (e, h, k) (omega arith);
      requested = refl;
    }
    by_seen last false e h k = record {
      last = e ∙ ap some (sym ((pair_iff key last).0 h));
      seen = refl;
      counter = refl;
      streak = rw (e, h, k) refl;
      requested = refl;
    }

    by_key :
        (last : String × String) (b : Bool)
        → s.last_coordinator_selection ≡ some last
        → (key == last) ≡ b
        → Counts key s (
            if b
            then if s.progress_counter == s.last_coordinator_selection_progress
              then extend_streak s
              else restart_streak s
            else start_streak key s)
    by_key last true e h =
        by_seen last (s.progress_counter == s.last_coordinator_selection_progress) e h refl
    by_key last false e h = record {
      last = refl;
      seen = refl;
      counter = refl;
      streak = rw (e, h) refl;
      requested = refl;
    }

    from :
        (o : Option (String × String))
        → s.last_coordinator_selection ≡ o
        → Counts key s (count_from o key s)
    from none e = record {
      last = refl;
      seen = refl;
      counter = refl;
      streak = rw e refl;
      requested = refl;
    }
    from (some last) e = by_key last (key == last) e refl

abbrev HasForced : Option ForcedReason → Orchestrator → Type 0
HasForced o s = s.forced ≡ o

count-forced :
    (o : Option (String × String)) (key : String × String) (s : Orchestrator)
    → HasForced s.forced (count_from o key s)
count-forced none key s = refl
count-forced (some last) key s =
    go (key == last) (s.progress_counter == s.last_coordinator_selection_progress)
  where
    go :
        (b c : Bool)
        → HasForced s.forced
            (if b then if c then extend_streak s else restart_streak s else start_streak key s)
    go true true = refl
    go true false = refl
    go false c = refl

broken-Counts :
    (key : String × String) (s t : Orchestrator) → Counts key s t → Counts key s (break_loop t)
unfolding request_forced_termination
broken-Counts key s t c =
    go (leb 3 t.coordinator_selection_streak) (t.termination_requested || is_some t.forced)
  where
    go :
        (b d : Bool)
        → Counts key s (if b then if d then t else record t { forced = some loop_detected } else t)
    go false d = c
    go true true = c
    go true false = record {
      last = c.last;
      seen = c.seen;
      counter = c.counter;
      streak = c.streak;
      requested = c.requested;
    }

broken-forced :
    (b : Bool) (t : Orchestrator)
    → t.termination_requested ≡ false
    → t.forced ≡ reason_if b
    → (break_loop t).forced ≡ reason_if (leb 3 t.coordinator_selection_streak || b)
unfolding request_forced_termination
broken-forced b t q f = go (leb 3 t.coordinator_selection_streak) b f
  where
    known : (b : Bool) → t.forced ≡ reason_if b → (t.termination_requested || is_some t.forced) ≡ b
    known true f = rw (q, f) refl
    known false f = rw (q, f) refl

    forcing :
        (d b : Bool)
        → d ≡ b
        → t.forced ≡ reason_if b
        → HasForced (some loop_detected) (if d then t else record t { forced = some loop_detected })
    forcing false b e f = refl
    forcing true true e f = f
    forcing true false e f = cc

    go :
        (c b : Bool)
        → t.forced ≡ reason_if b
        → HasForced (reason_if (c || b)) (
            if c
            then if t.termination_requested || is_some t.forced
              then t
              else record t { forced = some loop_detected }
            else t)
    go false b f = f
    go true b f = forcing (t.termination_requested || is_some t.forced) b (known b f) f

continues-counted :
    (selected instruction : String) (ts : List Turn) (s t : Orchestrator)
    → Detects ts s
    → Counts (selected, instruction) s t
    → (other : String × String)
    → continues other t ≡ same_turns other (selection selected instruction ∷ ts)
continues-counted selected instruction ts s t d c other =
    rw (c.last, c.seen, c.counter, c.streak, d.streak (selected, instruction))
      (go (other == (selected, instruction)) refl)
  where
    go :
        (b : Bool)
        → (other == (selected, instruction)) ≡ b
        → (if b && (s.progress_counter == s.progress_counter)
            then suc (same_turns (selected, instruction) ts)
            else 0)
          ≡ (if b then suc (same_turns other ts) else 0)
    go true h =
        rw ((eqb_iff s.progress_counter s.progress_counter).1 refl)
          (ap (λ k. suc (same_turns k ts)) (sym ((pair_iff other (selected, instruction)).0 h)))
    go false h = refl

leb-suc : (n : ℕ) → leb 3 (suc n) ≡ leb 2 n
leb-suc n = ground arith

Detects-selection :
    (reading : Reading) (selected instruction : String) (ts : List Turn) (s : Orchestrator)
    → names_agent reading selected ≡ true
    → Detects ts s
    → Detects
        (selection selected instruction ∷ ts)
        (detect_loop reading (some selected) instruction s)
unfolding detect_loop
Detects-selection reading selected instruction ts s named d =
    let key : String × String = (selected, instruction) in
    let t = count_streak key s in
    let c = counted key s in
    let b = broken-Counts key s t c in
    rw named (record {
      streak = continues-counted selected instruction ts s (break_loop t) d b;
      behind = omega (arith, b.seen, b.counter);
      found =
          broken-forced (is_stuck ts) t (c.requested ∙ d.open_)
            (count-forced s.last_coordinator_selection key s ∙ d.found)
          ∙ ap (λ n. reason_if (leb 3 n || is_stuck ts)) (c.streak ∙ ap suc (d.streak key))
          ∙ ap (λ b. reason_if (b || is_stuck ts)) (leb-suc (same_turns key ts));
      open_ = b.requested ∙ d.open_;
    })

ahead : (counter seen : ℕ) → seen ≤ counter → (counter + 1 == seen) ≡ false
ahead counter seen h = ground arith

behind_none :
    (o : Option (String × String)) (key : String × String) (counter seen streak : ℕ)
    → seen ≤ counter
    → continued key o (counter + 1) seen streak ≡ 0
behind_none none key counter seen streak h = refl
behind_none (some last) key counter seen streak h = rw (ahead counter seen h) (go (key == last))
  where
    go : (b : Bool) → (if b && false then streak else 0) ≡ 0
    go true = refl
    go false = refl

Detects-progress :
    (ts : List Turn) (s : Orchestrator)
    → Detects ts s
    → Detects (progress ∷ ts) (record s { progress_counter = s.progress_counter + 1 })
Detects-progress ts s d = record {
  streak = λ key.
      behind_none s.last_coordinator_selection key s.progress_counter
        s.last_coordinator_selection_progress s.coordinator_selection_streak d.behind;
  behind = omega (arith, d.behind);
  found = d.found;
  open_ = d.open_;
}

-- As before the first turn of a run.
pub record Unstarted (s : Orchestrator) : Type 0 where
  pub selection_none : s.last_coordinator_selection ≡ none
  pub seen : s.last_coordinator_selection_progress ≤ s.progress_counter
  pub unforced : s.forced ≡ none
  pub unrequested : s.termination_requested ≡ false

turns-Detects :
    (reading : Reading) (ts : List Turn) (s : Orchestrator)
    → Unstarted s
    → AllNamed reading ts
    → Detects ts (take_turns reading ts s)
turns-Detects reading [] s u n = record {
  streak = λ key. rw u.selection_none refl;
  behind = u.seen;
  found = u.unforced;
  open_ = u.unrequested;
}
turns-Detects reading (progress ∷ ts) s u n = Detects-progress ts _ (turns-Detects reading ts s u n)
turns-Detects reading (selection selected instruction ∷ ts) s u (named, n) =
    Detects-selection reading selected instruction ts _ named (turns-Detects reading ts s u n)

-- From a state as before the first turn, after turns whose selections all name an agent: the run is stopped
-- as a loop exactly if somewhere the same selection, with the same instruction, was made three
-- times with no other selection and no response of another agent in between.
pub forced-is_stuck :
    (reading : Reading) (ts : List Turn) (s : Orchestrator)
    → Unstarted s
    → AllNamed reading ts
    → (take_turns reading ts s).forced ≡ (if is_stuck ts then some loop_detected else none)
forced-is_stuck reading ts s u n = (turns-Detects reading ts s u n).found
