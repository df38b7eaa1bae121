-- ===== src/GroupChat/SignOffs.antt =====
-- `_validate_sign_offs` of groupchat_orchestrator.py: who has signed off, and by which message.
use claimsintelligence.Base.{
  String, ◌≡◌, refl, sym, ap, ◌∙◌, ◌↔◌, ◌⊎◌, Bool, true, false, not, ◌&&◌, ◌||◌, Option, none, some,
  List, [], ◌∷◌, ◌++◌, if◌then◌else◌, ◌==◌, string_key, eq_iff, is_empty, contains, member, add,
  member-add, arith, All, All-reverse, Bool-cases, inl, inr,
}
use mathlib.Core.Path.{subst}
use mathlib.Core.List.{reverse, reverse-cons}
use claimsintelligence.Exec.{Outcome, returned, raised, exn, other}
use claimsintelligence.Dict.{Dict, get, set, get-set}
use claimsintelligence.GroupChat.{ChatMessage}

pub data SignOff : Type 0 where
  pass reject pending : SignOff

-- What a message says of its author's sign-off, if anything.
unfoldable pub sign_off_of : String → Option SignOff
sign_off_of t =
    if not (contains t "SIGN-OFF:")
    then none
    else if contains t "SIGN-OFF: PASS" || contains t "SIGN-OFF:PASS"
    then some pass
    else if contains t "SIGN-OFF: FAIL" || contains t "SIGN-OFF:FAIL"
    then some reject
    else if contains t "SIGN-OFF: PENDING" || contains t "SIGN-OFF:PENDING"
    then some pending
    else none

-- The sign-offs and the participants that the loop has gathered.
pub record Gathered : Type 0 where
  pub sign_offs : Dict String SignOff
  pub participating_agents : List String

abbrev pub is_pass : Option SignOff → Bool
is_pass none = false
is_pass (some pass) = true
is_pass (some _) = false

or_false : (x : Bool) → (x || false) ≡ x
or_false true = refl
or_false false = refl

both : (x y : Bool) → x && y ≡ true → (x ≡ true) × (y ≡ true)
both true y h = (refl, h)
both false y h = cc

-- `upper` is `str.upper`, and `generator` the name of the result generator.
module _ (upper : String → String) (coordinator generator : String) where
  -- A message of no author, or of the coordinator, is passed over.
  abbrev pub author_of : ChatMessage → Option String
  author_of m = elim m.source [
    | none ↦ none
    | some a ↦ if is_empty a || a == coordinator then none else some a
  ]

  abbrev pub noted : Option SignOff → String → Dict String SignOff → Dict String SignOff
  noted none a d = d
  noted (some v) a d = set d a v

  abbrev pub take_note : Option String → String → Gathered → Gathered
  take_note none t g = g
  take_note (some a) t g = record {
    sign_offs = noted (sign_off_of (upper t)) a g.sign_offs;
    participating_agents = add a g.participating_agents;
  }

  unfoldable pub gather : List ChatMessage → Gathered → Outcome Gathered
  gather [] g = returned g
  gather (m ∷ ms) g = elim m.content [
    | none ↦ raised (exn other "no attribute 'content'")
    | some t ↦ gather ms (take_note (author_of m) t g)
  ]

  abbrev pub all_pass : Dict String SignOff → List String → Bool
  all_pass d [] = true
  all_pass d (a ∷ as_) = (a == generator || is_pass (get d a)) && all_pass d as_

  abbrev pub judged : Outcome Gathered → Outcome Bool
  judged (raised e) = raised e
  judged (returned g) = returned (all_pass g.sign_offs g.participating_agents)

  -- Without the reason, which is only logged.
  unfoldable pub validate_sign_offs : List ChatMessage → Outcome Bool
  validate_sign_offs conversation =
      judged (gather (reverse conversation) (record { sign_offs = []; participating_agents = [] }))

  -- The status of a reviewer by the oldest of its messages that says one.
  abbrev pub says : String → ChatMessage → Option SignOff
  says a m = elim m.content [
    | none ↦ none
    | some t ↦ elim (author_of m) [
      | none ↦ none
      | some b ↦ if b == a then sign_off_of (upper t) else none
    ]
  ]

  abbrev pub first_of : Option SignOff → Option SignOff → Option SignOff
  first_of none o = o
  first_of (some v) o = some v

  abbrev pub oldest : String → List ChatMessage → Option SignOff
  oldest a [] = none
  oldest a (m ∷ ms) = first_of (says a m) (oldest a ms)

  abbrev by : String → ChatMessage → Bool
  by a m = elim (author_of m) [ none ↦ false | some b ↦ a == b ]

  -- The agent has sent a message.
  abbrev pub speaks : String → List ChatMessage → Bool
  speaks a [] = false
  speaks a (m ∷ ms) = by a m || speaks a ms

  abbrev pub HasContent : ChatMessage → Type 0
  HasContent m = (t : String) × (m.content ≡ some t)

  -- The loop, for one agent.
  abbrev status_after : String → List ChatMessage → Option SignOff → Option SignOff
  status_after a [] o = o
  status_after a (m ∷ ms) o = status_after a ms (first_of (says a m) o)

  status_after-append :
      (a : String) (xs ys : List ChatMessage) (o : Option SignOff)
      → status_after a (xs ++ ys) o ≡ status_after a ys (status_after a xs o)
  status_after-append a [] ys o = refl
  status_after-append a (x ∷ xs) ys o = status_after-append a xs ys _

  status_after-reverse :
      (a : String) (ms : List ChatMessage) → status_after a (reverse ms) none ≡ oldest a ms
  status_after-reverse a [] = refl
  status_after-reverse a (m ∷ ms) = rw (reverse-cons m ms) (
      rw (status_after-append a (reverse ms) (m ∷ []) none)
        (ap (first_of (says a m)) (status_after-reverse a ms)))

  speaks-append :
      (a : String) (xs ys : List ChatMessage) → speaks a (xs ++ ys) ≡ (speaks a xs || speaks a ys)
  speaks-append a [] ys = refl
  speaks-append a (x ∷ xs) ys = ground (arith, speaks-append a xs ys)

  speaks-reverse : (a : String) (ms : List ChatMessage) → speaks a (reverse ms) ≡ speaks a ms
  speaks-reverse a [] = refl
  speaks-reverse a (m ∷ ms) =
      rw (reverse-cons m ms)
        (ground (arith, speaks-append a (reverse ms) (m ∷ []), speaks-reverse a ms))

  -- What is gathered, for every agent.
  record Tells (ms : List ChatMessage) (g g' : Gathered) : Type 0 where
    status : (a : String) → get g'.sign_offs a ≡ status_after a ms (get g.sign_offs a)
    present :
        (a : String)
        → member a g'.participating_agents ≡ (speaks a ms || member a g.participating_agents)

  note-status :
      (a : String) (m : ChatMessage) (t : String) (g : Gathered)
      → m.content ≡ some t
      → get (take_note (author_of m) t g).sign_offs a ≡ first_of (says a m) (get g.sign_offs a)
  note-status a m t g e = rw e (go (author_of m))
    where
      set-noted :
          (b : String) (v : Option SignOff)
          → get (noted v b g.sign_offs) a
            ≡ first_of (if b == a then v else none) (get g.sign_offs a)
      set-noted b none = ground arith
      set-noted b (some v) = get-set g.sign_offs b a v ∙ ground arith

      go :
          (o : Option String)
          → get (take_note o t g).sign_offs a
            ≡ first_of
                (elim o [ none ↦ none | some b ↦ if b == a then sign_off_of (upper t) else none ])
                (get g.sign_offs a)
      go none = refl
      go (some b) = set-noted b (sign_off_of (upper t))

  note-present :
      (a : String) (m : ChatMessage) (t : String) (g : Gathered)
      → member a (take_note (author_of m) t g).participating_agents
        ≡ (by a m || member a g.participating_agents)
  note-present a m t g = go (author_of m)
    where
      go :
          (o : Option String)
          → member a (take_note o t g).participating_agents
            ≡ ((elim o [ none ↦ false | some b ↦ a == b ]) || member a g.participating_agents)
      go none = refl
      go (some b) = member-add b a g.participating_agents

  gather-Tells :
      (ms : List ChatMessage) (g : Gathered)
      → All HasContent ms
      → (g' : Gathered) × (gather ms g ≡ returned g') × Tells ms g g'
  unfolding gather
  gather-Tells [] g c = (g, refl, record { status = λ a. refl; present = λ a. refl })
  gather-Tells (m ∷ ms) g ((t, e), c) =
      let (g', made, tells) = gather-Tells ms (take_note (author_of m) t g) c in
      (
        g',
        rw e made,
        record {
          status = λ a. tells.status a ∙ ap (status_after a ms) (note-status a m t g e);
          present = λ a. tells.present a ∙ ground (arith, note-present a m t g);
        },
      )

  all_pass_iff :
      (d : Dict String SignOff) (as_ : List String)
      → (all_pass d as_ ≡ true)
        ↔ ((a : String) → member a as_ ≡ true → (a == generator || is_pass (get d a)) ≡ true)
  unfolding member
  all_pass_iff d as_ = (sound as_, complete as_)
    where
      sound :
          (as_ : List String)
          → all_pass d as_ ≡ true
          → (a : String) → member a as_ ≡ true
          → (a == generator || is_pass (get d a)) ≡ true
      sound [] h a m = cc
      sound (b ∷ bs) h a m = elim (Bool-cases (a == b)) [
        | inl e ↦
            subst (λ x. (x == generator || is_pass (get d x)) ≡ true) (sym ((eq_iff a b).0 e))
              (both _ _ h).0
        | inr e ↦ sound bs (both _ _ h).1 a (rw e at m)
      ]

      complete :
          (as_ : List String)
          → ((a : String) → member a as_ ≡ true → (a == generator || is_pass (get d a)) ≡ true)
          → all_pass d as_ ≡ true
      complete [] h = refl
      complete (b ∷ bs) h =
          rw (h b (ground (arith, eq_iff b b))) (complete bs λ a m. h a (ground arith))

  passed : (x y : Option SignOff) → x ≡ y → is_pass x ≡ true → y ≡ some pass
  passed none y e h = cc
  passed (some pass) y e h = sym e
  passed (some reject) y e h = cc
  passed (some pending) y e h = cc

  abbrev AllSignedOff : List ChatMessage → Type 0
  AllSignedOff conversation =
      (a : String)
      → speaks a conversation ≡ true
      → (a == generator) ≡ false
      → oldest a conversation ≡ some pass

  judged_iff :
      (g : Gathered) (conversation : List ChatMessage)
      → ((a : String) → get g.sign_offs a ≡ oldest a conversation)
      → ((a : String) → member a g.participating_agents ≡ speaks a conversation)
      → (judged (returned g) ≡ returned true) ↔ AllSignedOff conversation
  judged_iff g conversation status present = (
    (λ h a spoke differs.
        passed (get g.sign_offs a) (oldest a conversation) (status a)
          (rw differs at (passes (cc h) a (present a ∙ spoke)))),
    λ h.
        ap returned
          (accepted λ a m. either a (sym (present a) ∙ m) h (Bool-cases (a == generator))),
  )
    where
      passes :
          all_pass g.sign_offs g.participating_agents ≡ true
          → (a : String) → member a g.participating_agents ≡ true
          → (a == generator || is_pass (get g.sign_offs a)) ≡ true
      passes = (all_pass_iff g.sign_offs g.participating_agents).0

      accepted :
          ((a : String)
            → member a g.participating_agents ≡ true
            → (a == generator || is_pass (get g.sign_offs a)) ≡ true)
          → all_pass g.sign_offs g.participating_agents ≡ true
      accepted = (all_pass_iff g.sign_offs g.participating_agents).1

      either :
          (a : String)
          → speaks a conversation ≡ true
          → AllSignedOff conversation
          → ((a == generator) ≡ true) ⊎ ((a == generator) ≡ false)
          → (a == generator || is_pass (get g.sign_offs a)) ≡ true
      either a spoke h (inl e) = rw e refl
      either a spoke h (inr e) = rw (e, status a, h a spoke e) refl

  -- Where every message has a content: the sign-offs are found valid exactly if for every agent that
  -- has sent a message, but for the coordinator and the result generator, the oldest of its messages
  -- that says a sign-off says that it passes.
  pub validate_sign_offs_iff :
      (conversation : List ChatMessage)
      → All HasContent conversation
      → (validate_sign_offs conversation ≡ returned true) ↔ AllSignedOff conversation
  unfolding validate_sign_offs get member
  validate_sign_offs_iff conversation c =
      let none_yet : Gathered = record { sign_offs = []; participating_agents = [] } in
      let (g, made, tells) =
        gather-Tells (reverse conversation) none_yet (All-reverse HasContent conversation c) in
      rw made (
        judged_iff g conversation (λ a. tells.status a ∙ status_after-reverse a conversation)
          λ a.
            tells.present a ∙ rw (speaks-reverse a conversation) (or_false (speaks a conversation)))
