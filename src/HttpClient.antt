-- ===== src/HttpClient.antt =====
-- The HTTP client of src/ContentProcessorWorkflow/src/utils/http_request.py: its requests, with the
-- retries of tenacity as a parameter. Times are in milliseconds. The body and the query of a request are left out.
pub mod Poll
pub mod OAuth
pub mod Accepted
pub mod Ends
mod Tests
use package.text.Mathlib.Text.{starts_with}
use Prim.Native.String.{◌++◌ as string_append}
use claimsintelligence.Base.{
  ℕ, String, Bool, true, false, not, ◌&&◌, ◌||◌, Option, none, some, List, [], ◌∷◌, ◌++◌,
  if◌then◌else◌, ◌==◌, string_key, nat_key, is_empty, member, ltb, leb, ◌≡◌, ◌≤◌,
}
use claimsintelligence.Dict.{Dict, set}
use claimsintelligence.Exec.Keeps.{Keeps}
use claimsintelligence.Exec.{exn, other, Exec, Outcome, returned, raised, pure, raise, ◌>>=◌, ◌>>◌}

pub record HttpResponse : Type 0 where
  pub status : ℕ
  pub url : String
  pub headers : Dict String String
  pub body : String

-- The method, the address and the headers of a request; a request of a token; a sleep.
pub data Call : Type 0 where
  send : String → String → Dict String String → Call
  ask_token : Call
  sleep : ℕ → Call

-- What the client was made with.
pub record Settings : Type 0 where
  pub base_url : Option String
  pub retry_statuses : List ℕ
  pub default_headers : Dict String String
  pub has_token_provider : Bool

-- The calls that the client has made, the newest first.
pub record Client : Type 0 where
  pub calls : List Call

-- What a session and a token provider reply, by the calls before, and the clock. `lower`, `strip_left`
-- and `strip_right` are methods of `str`, the strips of a slash; `seconds_of` reads a Retry-After.
pub record Env : Type 0 where
  pub respond : List Call → Call → Outcome HttpResponse
  pub token : List Call → Outcome String
  pub clock : List Call → ℕ
  pub lower : String → String
  pub strip_left : String → String
  pub strip_right : String → String
  pub seconds_of : String → Option ℕ

abbrev pub truthy : Option String → Bool
truthy none = false
truthy (some t) = not (is_empty t)

abbrev pub append_path : Env → Option String → String → String
append_path env none url = url
append_path env (some base) url =
    if is_empty base || starts_with url "http://" || starts_with url "https://"
    then url
    else string_append (env.strip_right base) (string_append "/" (env.strip_left url))

unfoldable pub join_url : Env → Option String → String → String
join_url env base url = append_path env base url

-- The first header of that name, in whatever case.
unfoldable pub header : Env → String → Dict String String → Option String
header env name [] = none
header env name ((k, v) ∷ d) =
    let rest = header env name d in if env.lower k == env.lower name then some v else rest

-- dict.update
abbrev pub update : Dict String String → Dict String String → Dict String String
update d [] = d
update d ((k, v) ∷ e) = update (set d k v) e

abbrev pub has_auth : Env → Dict String String → Bool
has_auth env [] = false
has_auth env ((k, v) ∷ d) = env.lower k == "authorization" || has_auth env d

abbrev pub authorized :
    Dict String String → Outcome String → Client → Outcome (Dict String String) × Client
authorized merged (returned t) s =
    (returned (set merged "Authorization" (string_append "Bearer " t)), s)
authorized merged (raised e) s = (raised e, s)

unfoldable pub build_headers :
    Env → Settings → Dict String String → Exec Client (Dict String String)
build_headers env settings headers s =
    let merged = update settings.default_headers headers in
    if not (has_auth env merged) && settings.has_token_provider
    then authorized merged (env.token s.calls) (record s { calls = ask_token ∷ s.calls })
    else (returned merged, s)

unfoldable pub perform : Env → Call → Exec Client HttpResponse
perform env c s = (env.respond s.calls c, record s { calls = c ∷ s.calls })

-- The statuses that are expected, or those of success.
abbrev pub is_expected : Option (List ℕ) → ℕ → Bool
is_expected none status = not (ltb status 200) && ltb status 300
is_expected (some l) status = member status l

abbrev pub judged : List ℕ → Option (List ℕ) → HttpResponse → Exec Client HttpResponse
judged retry_statuses expected r =
    if member r.status retry_statuses || is_expected expected r.status
    then pure r
    else raise (exn other "HttpRequestError")

-- The method is given in upper case.
unfoldable pub do_request :
    Env
    → Settings
    → String
    → String
    → Dict String String
    → Option (List ℕ)
    → Exec Client HttpResponse
do_request env settings method url headers expected = do
  req_headers ← build_headers env settings headers
  r ← perform env (send method (join_url env settings.base_url url) req_headers)
  judged settings.retry_statuses expected r

-- `AsyncRetrying`: it runs an action until its result is not to be retried.
abbrev pub Retrying : Type 0
Retrying = (HttpResponse → Bool) → Exec Client HttpResponse → Exec Client HttpResponse

-- It only runs the action, and the result that it returns is one of the action's.
pub record RetryLaws (retrying : Retrying) : Type 1 where
  pub honest :
      (again : HttpResponse → Bool) (act : Exec Client HttpResponse) (s t : Client)
      (r : HttpResponse)
      → retrying again act s ≡ (returned r, t)
      → (u : Client) × (u' : Client) × (act u ≡ (returned r, u'))
  pub keeps :
      (P : Client → Type 0) (again : HttpResponse → Bool) (act : Exec Client HttpResponse)
      → Keeps P act
      → Keeps P (retrying again act)

abbrev pub refuse : List ℕ → HttpResponse → Exec Client HttpResponse
refuse retry_statuses r =
    if member r.status retry_statuses then raise (exn other "HttpRequestError") else pure r

unfoldable pub request :
    Env
    → Settings
    → Retrying
    → String
    → String
    → Dict String String
    → Option (List ℕ)
    → Exec Client HttpResponse
request env settings retrying method url headers expected = do
  r ←
      retrying (λ r. member r.status settings.retry_statuses)
        (do_request env settings method url headers expected)
  refuse settings.retry_statuses r
