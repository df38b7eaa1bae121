-- ===== src/ResponseClient/Tests.antt =====
-- Requests with few characters to spare, and the theorems on the client applied to them.
use claimsintelligence.Base.{
  ℕ, zero, ◌+◌, ◌≤◌, ◌≡◌, refl, true, Option, none, some, List, [], ◌∷◌, ◌++◌, arith, length,
  string_key, ap,
}
use claimsintelligence.Dict
use claimsintelligence.ResponseClient.Truncate.{Text, codes}
use claimsintelligence.ResponseClient.Trim.{
  ContextTrimConfig, Framework, text, Content, text_content, other_content, Message, dict,
  chat_message, get_message_role, leading, total_chars, trim_messages,
}
use claimsintelligence.ResponseClient.Budget.{total_chars-trim_messages}
use claimsintelligence.ResponseClient.Errors.{Error, alone}
use claimsintelligence.ResponseClient.Stream.{
  RateLimitRetryConfig, Stream, inner_get_streaming_response,
}
use claimsintelligence.ResponseClient.Attempts.{requests_bounded}

-- The texts one after the other.
abbrev chat_text : List Content → Text
chat_text [] = []
chat_text (text_content s ∷ contents) = s ++ chat_text contents
chat_text (other_content s ∷ contents) = chat_text contents

abbrev fw : Framework
fw = record { chat_text = chat_text; dict_text = λ d. codes "{}" }

append_nil : (s : Text) → s ++ [] ≡ s
append_nil [] = refl
append_nil (c ∷ s) = ap (◌∷◌ c) (append_nil s)

abbrev cfg : ContextTrimConfig
cfg = record {
  enabled = true;
  max_total_chars = 10;
  max_message_chars = 8;
  keep_last_messages = 5;
  keep_head_chars = 4;
  keep_tail_chars = 2;
  keep_system_messages = true;
  retry_on_context_error = true;
}

abbrev user : Text → Message
user s = dict (("role", text (codes "user")) ∷ ("content", text s) ∷ [])

abbrev system : Message
system = chat_message (some (codes "system")) (text_content (codes "rules") ∷ [])

abbrev long : List Message
long = user (codes "0123456789abcdef") ∷ user (codes "xyz") ∷ user (codes "uvw") ∷ []

total_chars-trim_messages_example : total_chars fw cfg (trim_messages fw cfg long) ≤ 10
unfolding leading get_message_role Dict.get
total_chars-trim_messages_example =
    total_chars-trim_messages fw cfg append_nil long refl (omega arith) (omega arith) refl

abbrev retry : RateLimitRetryConfig
retry = record { max_retries = 2; base_delay_seconds = 2000; max_delay_seconds = 30000 }

abbrev error_of : Text → Option ℕ → Error
error_of s status =
    alone (record { message = s; status_code = status; status = none; retry_after = none })

abbrev stream : List ℕ → Option Error → Stream ℕ
stream updates failure = record { updates = updates; failure = failure }

-- The first stream breaks off after two updates, and the next gives all three.
abbrev breaks_off : ℕ → List Message → Stream ℕ
breaks_off zero ms = stream (1 ∷ 2 ∷ []) (some (error_of [] (some 429)))
breaks_off _ ms = stream (1 ∷ 2 ∷ 3 ∷ []) none

abbrev too_long : ℕ → List Message → Stream ℕ
too_long n ms = stream [] (some (error_of [] (some 413)))

abbrev broken : ℕ → List Message → Stream ℕ
broken n ms = stream [] (some (error_of [] (some 500)))

abbrev hello : List Message
hello = user (codes "hello") ∷ []

requests_bounded_example :
    length (inner_get_streaming_response fw cfg retry too_long (λ n. 0) hello).requests ≤ 2 + 1
requests_bounded_example = requests_bounded fw cfg retry too_long (λ n. 0) hello
