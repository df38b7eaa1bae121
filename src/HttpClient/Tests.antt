-- ===== src/HttpClient/Tests.antt =====
-- A client whose second request is done, with two attempts for each, and the theorems applied to it.
use claimsintelligence.Base.{
  ◌≡◌, refl, ◌∙◌, Bool, true, false, none, some, [], ◌∷◌, if◌then◌else◌, length, member, nat_key,
  arith,
}
use claimsintelligence.Exec.{Outcome, returned, raised, Exec, ◌>>=◌}
use claimsintelligence.Exec.Keeps.{Keeps}
use claimsintelligence.HttpClient.{
  HttpResponse, Client, Settings, Env, do_request, build_headers, perform, Retrying, RetryLaws,
  request,
}
use claimsintelligence.HttpClient.Poll.{Polling, poll_until_done}
use claimsintelligence.HttpClient.Accepted.{IsAccepted, request-IsAccepted}
use claimsintelligence.HttpClient.OAuth.{Credentials, TokenEnv, get_token, get_token-again}
use claimsintelligence.HttpClient.Ends.{Ticks, Finishes, poll_until_done-Finishes}

abbrev second :
    (HttpResponse → Bool)
    → Exec Client HttpResponse
    → Outcome HttpResponse × Client
    → Outcome HttpResponse × Client
second again act (raised e, s) = act s
second again act (returned r, s) = if again r then act s else (returned r, s)

abbrev twice : Retrying
twice again act s = second again act (act s)

twice-RetryLaws : RetryLaws twice
twice-RetryLaws = record {
  honest = λ again act s t r. honest again act s t r (act s) refl;
  keeps = λ P again act k. record { after = λ s h. kept P again act k (act s) (k.after s h) };
}
  where
    Source : Exec Client HttpResponse → HttpResponse → Type 0
    Source act r = (u : Client) × (u' : Client) × (act u ≡ (returned r, u'))

    choose :
        (b : Bool) (act : Exec Client HttpResponse) (s v t : Client) (q r : HttpResponse)
        → act s ≡ (returned q, v)
        → (if b then act v else (returned q, v)) ≡ (returned r, t)
        → Source act r
    choose true act s v t q r e h = (v, t, h)
    choose false act s v t q r e h = (s, t, e ∙ h)

    honest :
        (again : HttpResponse → Bool) (act : Exec Client HttpResponse) (s t : Client)
        (r : HttpResponse) (x : Outcome HttpResponse × Client)
        → act s ≡ x
        → second again act x ≡ (returned r, t)
        → Source act r
    honest again act s t r (raised e, v) same h = (v, t, h)
    honest again act s t r (returned q, v) same h = choose (again q) act s v t q r same h

    choose-kept :
        (P : Client → Type 0) (b : Bool) (act : Exec Client HttpResponse) (v : Client)
        (q : HttpResponse)
        → Keeps P act
        → P v
        → P (if b then act v else (returned q, v)).1
    choose-kept P true act v q k h = k.after v h
    choose-kept P false act v q k h = h

    kept :
        (P : Client → Type 0) (again : HttpResponse → Bool) (act : Exec Client HttpResponse)
        → Keeps P act
        → (x : Outcome HttpResponse × Client) → P x.1
        → P (second again act x).1
    kept P again act k (raised e, v) h = k.after v h
    kept P again act k (returned q, v) h = choose-kept P (again q) act v q k h

abbrev pending : HttpResponse
pending = record { status = 202; url = "u"; headers = ("Location", "/status") ∷ []; body = "" }

abbrev complete : HttpResponse
complete = record { status = 200; url = "u"; headers = []; body = "{}" }

abbrev replies : Env
replies = record {
  respond = λ calls c. elim calls [ [] ↦ returned pending | d ∷ ds ↦ returned complete ];
  token = λ calls. returned "t";
  clock = length;
  lower = λ t. t;
  strip_left = λ t. t;
  strip_right = λ t. t;
  seconds_of = λ t. none;
}

abbrev settings : Settings
settings = record {
  base_url = some "https://example.com";
  retry_statuses = 429 ∷ 503 ∷ [];
  default_headers = [];
  has_token_provider = false;
}

abbrev fresh : Client
fresh = record { calls = [] }

request-IsAccepted_example : IsAccepted replies settings twice twice-RetryLaws none pending
unfolding request do_request build_headers perform member ◌>>=◌
request-IsAccepted_example =
    request-IsAccepted replies settings twice twice-RetryLaws "GET" "/v1" [] none pending fresh refl

abbrev every_second : Polling
every_second = record {
  method = "GET";
  headers = [];
  pending = 202 ∷ [];
  done = 200 ∷ [];
  poll_interval = 1000;
  timeout_limit = 10;
  location_header = "Location";
}

length-Ticks : Ticks length
length-Ticks c l = omega arith

poll_until_done-Finishes_example :
    Finishes replies settings twice twice-RetryLaws length-Ticks every_second
      (poll_until_done replies settings twice every_second 12 "/v1" fresh)
poll_until_done-Finishes_example =
    poll_until_done-Finishes replies settings twice twice-RetryLaws length-Ticks every_second 12
      "/v1" fresh (omega arith)

abbrev tokens : TokenEnv
tokens = record {
  post = λ n. returned (record { status = 200; body = "{}"; received_at = 100 });
  loads = λ t. returned (record { access_token = some "secret"; expires_in = none });
}

abbrev no_token : Credentials
no_token = record { access_token = none; expires_at = none; posts = 0 }

abbrev with_token : Credentials
with_token = record { access_token = some "secret"; expires_at = some 3700; posts = 1 }

get_token-again_example : get_token tokens 3669 with_token ≡ (returned "secret", with_token)
unfolding get_token
get_token-again_example = get_token-again tokens 99 3669 3700 "secret" no_token with_token refl refl
