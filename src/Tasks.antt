-- ===== src/Tasks.antt =====
-- The registry of background work (internal/agent/task.go, `TaskRegistry`). A task is shared by
-- pointer with its readers; here it is the entry of the map. The clock is an argument.
use eclaire.Prelude.{
  Bool, true, false, Option, none, some, List, String, ◌==◌, if◌then◌else◌, select,
}
use eclaire.Prelude.Times.{Time}
use eclaire.Prelude.Dict.{Dict, get, put, values}

pub data TaskStatus : Type 0 where
  created running completed failed stopped : TaskStatus

pub record Task : Type 0 where
  pub id : String
  pub flow_id : String
  pub agent_id : String
  pub prompt : String
  pub status : TaskStatus
  pub session_id : String
  pub output : String
  pub error : String
  pub created_at : Time
  pub updated_at : Time

abbrev pub Tasks : Type 0
Tasks = Dict Task

unfoldable pub create : Time → String → String → String → Tasks → Tasks
create now id agent prompt tasks = put tasks id (record {
  id = id;
  flow_id = "";
  agent_id = agent;
  prompt = prompt;
  status = TaskStatus.created;
  session_id = "";
  output = "";
  error = "";
  created_at = now;
  updated_at = now;
})

abbrev kept : String → String → String
kept new old = if new == "" then old else new

abbrev pub with_status : Time → TaskStatus → String → String → Task → Task
with_status now status output error t = record t {
  status = status;
  updated_at = now;
  output = kept output t.output;
  error = kept error t.error;
}

-- A change of one task, which does nothing where there is none.
change_found : String → (Task → Task) → Option Task → Tasks → Tasks
change_found id f none tasks = tasks
change_found id f (some t) tasks = put tasks id (f t)

unfoldable pub change : String → (Task → Task) → Tasks → Tasks
unfolding change_found
change id f tasks = change_found id f (get tasks id) tasks

abbrev found : Option Task → Bool
found none = false
found (some t) = true

-- The second component tells whether the task is known; if not, an error is returned.
unfoldable pub update_status : Time → String → TaskStatus → String → String → Tasks → Tasks × Bool
update_status now id status output error tasks =
    (change id (with_status now status output error) tasks, found (get tasks id))

unfoldable pub set_flow_id : String → String → Tasks → Tasks
set_flow_id id flow tasks = change id (λ t. record t { flow_id = flow }) tasks

unfoldable pub set_session_id : String → String → Tasks → Tasks
set_session_id id session tasks = change id (λ t. record t { session_id = session }) tasks

pub list : Tasks → List Task
list tasks = values tasks

pub list_by_flow : String → Tasks → List Task
list_by_flow flow tasks = select (λ t. t.flow_id == flow) (values tasks)

abbrev is_running : TaskStatus → Bool
is_running TaskStatus.running = true
is_running _ = false

pub active : Tasks → List Task
active tasks = select (λ t. is_running t.status) (values tasks)
