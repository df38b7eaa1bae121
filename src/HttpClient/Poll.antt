-- ===== src/HttpClient/Poll.antt =====
-- `poll_until_done` of http_request.py.
use claimsintelligence.Base.{
  ℕ, zero, suc, ◌-◌, String, Option, none, some, List, ◌∷◌, ◌++◌, if◌then◌else◌, member, ltb,
  is_empty, nat_key,
}
use claimsintelligence.Dict.{Dict}
use claimsintelligence.Exec.{exn, timeout, Outcome, returned, raised}
use claimsintelligence.HttpClient.{
  HttpResponse, sleep, Client, Settings, Env, header, Retrying, request,
}

pub record Polling : Type 0 where
  pub method : String
  pub headers : Dict String String
  pub pending : List ℕ
  pub done : List ℕ
  pub poll_interval : ℕ
  pub timeout_limit : ℕ
  pub location_header : String

abbrev pub or_same : String → Option String → String
or_same url none = url
or_same url (some location) = if is_empty location then url else location

abbrev pub read_delay : Env → ℕ → Option String → ℕ
read_delay env interval none = interval
read_delay env interval (some t) =
    if is_empty t then interval else elim (env.seconds_of t) [ none ↦ interval | some n ↦ n ]

-- The delay that the response asks for, or the interval. An empty header is not read.
abbrev pub delay_after : Env → ℕ → HttpResponse → ℕ
delay_after env interval r = read_delay env interval (header env "retry-after" r.headers)

abbrev pub slept : Env → Polling → HttpResponse → Client → Client
slept env p r s = record s { calls = sleep (delay_after env p.poll_interval r) ∷ s.calls }

-- After a request: the outcome, or another turn.
abbrev pub turn :
    Env
    → Polling
    → (String → Client → Option (Outcome HttpResponse × Client))
    → String
    → Outcome HttpResponse × Client
    → Option (Outcome HttpResponse × Client)
turn env p again url (raised e, s) = some (raised e, s)
turn env p again url (returned r, s) =
    if member r.status p.done
    then some (returned r, s)
    else again (or_same url (header env p.location_header r.headers)) (slept env p r s)

-- The turns of the loop, none where the fuel is used up. The callback is left out.
unfoldable pub poll :
    Env
    → Settings
    → Retrying
    → Polling
    → ℕ
    → ℕ
    → String
    → Client
    → Option (Outcome HttpResponse × Client)
poll env settings retrying p zero start url s = none
poll env settings retrying p (suc fuel) start url s =
    if ltb p.timeout_limit (env.clock s.calls - start)
    then some (raised (exn timeout "Polling timed out"), s)
    else turn env p (poll env settings retrying p fuel start) url
        (request env settings retrying p.method url p.headers (some (p.pending ++ p.done)) s)

unfoldable pub poll_until_done :
    Env
    → Settings
    → Retrying
    → Polling
    → ℕ
    → String
    → Client
    → Option (Outcome HttpResponse × Client)
poll_until_done env settings retrying p fuel url s =
    poll env settings retrying p fuel (env.clock s.calls) url s
