-- ===== src/GroupChat.antt =====
-- The state of `GroupChatOrchestrator` and what it calls back with: libs/agent_framework/
-- groupchat_orchestrator.py. Times are left out, and with them the elapsed times and the tool calls
-- of a response, which are selected by their times.
pub mod SignOffs
pub mod Respond
pub mod Tools
pub mod Stream
pub mod Frame
pub mod Loops
pub mod Gate
pub mod Rounds
mod Tests
use Prim.Native.String.{◌++◌ as string_append}
use claimsintelligence.Base.{
  ℕ, String, Bool, true, false, Option, none, some, List, [], ◌∷◌, ◌++◌, if◌then◌else◌, ◌||◌,
}
use claimsintelligence.Dict.{Dict}

pub record AgentResponse : Type 0 where
  pub agent_name : String
  pub message : String
  pub chunk_count : ℕ

-- A JSON value, by its text.
abbrev pub Json : Type 0
Json = String

-- The arguments of a tool call.
pub data Arguments : Type 0 where
  absent : Arguments
  parsed : Json → Arguments
  text : String → Arguments

pub record FunctionCall : Type 0 where
  pub name : Option String
  pub call_id : Option String
  pub arguments : Arguments

-- An item of a message's contents: an object with its attributes, or a dictionary with its type.
pub data Content : Type 0 where
  item : Option String → Option String → Arguments → Content
  entry : Option String → Option String → Option String → Arguments → Content

-- A message of the conversation: `content` and `source` are attributes that it may not have. `text`
-- is its text, or else that of its contents, or else nothing.
pub record ChatMessage : Type 0 where
  pub content : Option String
  pub source : Option String
  pub is_assistant : Bool
  pub author_name : Option String
  pub contents : List Content
  pub text : List ℕ

pub record ToolInfo : Type 0 where
  pub tool_name : Option String
  pub arguments : Arguments
  pub call_id : String
  pub from_conversation : Bool

-- What the callbacks are called with: a response, and the name of an agent, with that of its tool.
-- What they raise is caught, unless it is a cancellation.
pub data Emission : Type 0 where
  completed : AgentResponse → Emission
  message_start : String → Emission
  tool_call : String → String → Emission

-- Why a run is stopped by force.
pub data ForcedReason : Type 0 where
  timed_out too_many_rounds loop_detected : ForcedReason

-- The names of the agents that the orchestrator was made with, its limits, and the state of a run.
-- The newest emission is the first of `emitted`. `forced` has the reason, if the forced termination
-- was requested; its type is "hard_timeout" each time.
pub record Orchestrator : Type 0 where
  pub coordinator_name : String
  pub agents : List String
  pub max_rounds : ℕ
  pub max_seconds : Option ℕ
  pub has_result_format : Bool
  pub conversation : List ChatMessage
  pub agent_responses : List AgentResponse
  pub last_executor_id : Option String
  pub current_agent_response : List String
  pub agent_tool_usage : Dict String (List ToolInfo)
  pub tool_call_arg_buffer : Dict (String × String) String
  pub tool_call_emitted : List (String × String)
  pub tool_call_recorded : List (String × String)
  pub tool_call_index : Dict (String × String) ℕ
  pub termination_requested : Bool
  pub termination_final_message : Option String
  pub termination_instruction : Option String
  pub forced : Option ForcedReason
  pub last_coordinator_selection : Option (String × String)
  pub coordinator_selection_streak : ℕ
  pub progress_counter : ℕ
  pub last_coordinator_selection_progress : ℕ
  pub emitted : List Emission

-- "".join(chunks)
abbrev pub join : List String → String
join [] = ""
join (c ∷ cs) = string_append c (join cs)

abbrev pub is_some {ℓ} : {A : Type ℓ} → Option A → Bool
is_some none = false
is_some (some a) = true

unfoldable pub request_forced_termination : ForcedReason → Orchestrator → Orchestrator
request_forced_termination reason s =
    if s.termination_requested || is_some s.forced then s else record s { forced = some reason }

abbrev pub emit : Emission → Orchestrator → Orchestrator
emit e s = record s { emitted = e ∷ s.emitted }
