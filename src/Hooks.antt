-- ===== src/Hooks.antt =====
-- The hooks around tool calls (internal/hook/hook.go, `Runner`). A runner without hooks is `none`,
-- Go's nil. `filepath.Match`, `time.ParseDuration`, `json.Unmarshal` and the run of a command are
-- a parameter; a result that is not JSON stands as a message.
pub mod Laws
mod Tests
use eclaire.Prelude.{
  Bool, true, false, not, ◌&&◌, ◌||◌, Option, none, some, List, [], ◌∷◌, ◌++◌, String, ◌==◌, ◌*◌,
  if◌then◌else◌,
}
use eclaire.Prelude.Times.{Duration, pos, second}
use eclaire.Prelude.Text.{text_append}

pub record Definition : Type 0 where
  pub event : String
  pub matcher : String
  pub command : String
  pub timeout : String

pub record Payload : Type 0 where
  pub hook_event_name : String
  pub tool_name : String
  pub tool_input : String
  pub tool_output : String
  pub tool_error : String
  pub agent_id : String
  pub session_id : String

pub record HookResult : Type 0 where
  pub denied : Bool
  pub deny_message : String
  pub updated_input : String
  pub message : String

-- What a command does: it writes to its output, or fails with a text.
pub data CommandRun : Type 0 where
  wrote : String → CommandRun
  broke : String → CommandRun

-- `glob` is the answer of filepath.Match, false for a malformed pattern, and `quoted` the verb %q.
pub record HookLib : Type 0 where
  pub quoted : String → String
  pub glob : String → String → Bool
  pub parse_duration : String → Option Duration
  pub run : String → Duration → Payload → CommandRun
  pub unmarshal : String → Option HookResult

abbrev pub pre_tool_use : String
pre_tool_use = "PreToolUse"

abbrev pub post_tool_use : String
post_tool_use = "PostToolUse"

abbrev pub post_tool_use_failure : String
post_tool_use_failure = "PostToolUseFailure"

abbrev pub Runner : Type 0
Runner = Option (List Definition)

unfoldable pub new_runner : List Definition → Runner
new_runner [] = none
new_runner (d ∷ ds) = some (d ∷ ds)

abbrev pub no_result : HookResult
no_result = record { denied = false; deny_message = ""; updated_input = ""; message = "" }

pub data Executed : Type 0 where
  result : HookResult → Executed
  failed : String → Executed

parsed_result : String → Option HookResult → HookResult
parsed_result out none = record no_result { message = out }
parsed_result out (some r) = r

-- What `execute` makes of the run of the command.
unfoldable pub read_run : HookLib → CommandRun → Executed
unfolding parsed_result
read_run lib (broke error) = failed error
read_run lib (wrote out) =
    result (if out == "" then no_result else parsed_result out (lib.unmarshal out))

parsed_timeout : Option Duration → Duration
parsed_timeout none = pos (10 * second)
parsed_timeout (some d) = d

unfoldable pub timeout_of : HookLib → String → Duration
unfolding parsed_timeout
timeout_of lib timeout =
    if timeout == "" then pos (10 * second) else parsed_timeout (lib.parse_duration timeout)

unfoldable pub execute : HookLib → Definition → Payload → Executed
execute lib d payload = read_run lib (lib.run d.command (timeout_of lib d.timeout) payload)

unfoldable pub match_tool : HookLib → String → String → Bool
match_tool lib pattern tool_name =
    (pattern == "*") || ((pattern == "") || lib.glob pattern tool_name)

-- The hooks that the loop does not skip.
unfoldable pub matches : HookLib → String → String → Definition → Bool
matches lib event tool_name d = (d.event == event) && match_tool lib d.matcher tool_name

-- What `RunPre` returns.
pub data PreAnswer : Type 0 where
  passed : String → PreAnswer
  denied_with : String → PreAnswer
  broken : String → PreAnswer

abbrev pub deny_text : String → String
deny_text message = if message == "" then "Tool use denied by hook" else message

abbrev pub updated : String → String → String
updated input new = if new == "" then input else new

-- One turn of the loop of `RunPre`, and the rest of it.
abbrev pub hook_error : HookLib → String → Definition → String → String
hook_error lib kind d error =
    text_append kind (text_append (lib.quoted d.command) (text_append ": " error))

unfoldable pub pre_step :
    HookLib → Definition → Executed → String → (String → PreAnswer) → PreAnswer
pre_step lib d (failed error) input rest = broken (hook_error lib "pre-hook " d error)
pre_step lib d (result r) input rest =
    if r.denied
    then denied_with (deny_text r.deny_message)
    else rest (updated input r.updated_input)

unfoldable pub pre_loop : HookLib → Payload → List Definition → String → PreAnswer
pre_loop lib payload [] input = passed input
pre_loop lib payload (d ∷ ds) input =
    if matches lib pre_tool_use payload.tool_name d
    then pre_step lib d (execute lib d payload) input (pre_loop lib payload ds)
    else pre_loop lib payload ds input

abbrev pub payload_of : String → String → String → String → String → Payload
payload_of event tool_name input agent_id session_id = record {
  hook_event_name = event;
  tool_name = tool_name;
  tool_input = input;
  tool_output = "";
  tool_error = "";
  agent_id = agent_id;
  session_id = session_id;
}

unfoldable pub run_pre : HookLib → Runner → String → String → String → String → PreAnswer
run_pre lib none tool_name input agent_id session_id = passed ""
run_pre lib (some hooks) tool_name input agent_id session_id =
    pre_loop lib (payload_of pre_tool_use tool_name input agent_id session_id) hooks ""

pub data PostAnswer : Type 0 where
  said : String → PostAnswer
  post_broken : String → PostAnswer

abbrev pub and_message : String → List String → List String
and_message message messages = if message == "" then messages else messages ++ message ∷ []

unfoldable pub join_lines : List String → String
join_lines [] = ""
join_lines (m ∷ []) = m
join_lines (m ∷ n ∷ ms) = text_append m (text_append "\n" (join_lines (n ∷ ms)))

post_step : HookLib → Definition → Executed → List String → (List String → PostAnswer) → PostAnswer
post_step lib d (failed error) messages rest = post_broken (hook_error lib "post-hook " d error)
post_step lib d (result r) messages rest = rest (and_message r.message messages)

unfoldable pub post_loop : HookLib → Payload → List Definition → List String → PostAnswer
unfolding post_step
post_loop lib payload [] messages = said (join_lines messages)
post_loop lib payload (d ∷ ds) messages =
    if matches lib post_tool_use payload.tool_name d
    then post_step lib d (execute lib d payload) messages (post_loop lib payload ds)
    else post_loop lib payload ds messages

unfoldable pub run_post : HookLib → Runner → String → String → String → String → String → PostAnswer
run_post lib none tool_name input output agent_id session_id = said ""
run_post lib (some hooks) tool_name input output agent_id session_id =
    post_loop lib
      (record (payload_of post_tool_use tool_name input agent_id session_id) {
        tool_output = output;
      })
      hooks []

failure_step : HookLib → Definition → Executed → Option String → Option String
failure_step lib d (failed error) rest = some (hook_error lib "post-failure-hook " d error)
failure_step lib d (result r) rest = rest

unfoldable pub failure_loop : HookLib → Payload → List Definition → Option String
unfolding failure_step
failure_loop lib payload [] = none
failure_loop lib payload (d ∷ ds) =
    let rest = failure_loop lib payload ds in
    if matches lib post_tool_use_failure payload.tool_name d
    then failure_step lib d (execute lib d payload) rest
    else rest

-- The error, if there is one.
unfoldable pub run_post_failure :
    HookLib → Runner → String → String → String → String → String → Option String
run_post_failure lib none tool_name input error agent_id session_id = none
run_post_failure lib (some hooks) tool_name input error agent_id session_id =
    failure_loop lib
      (record (payload_of post_tool_use_failure tool_name input agent_id session_id) {
        tool_error = error;
      })
      hooks
