-- ===== src/Gateway/Work.antt =====
-- gateway/handler/business_processor.cc: ProcessTask, and the handler of the tasks that
-- gateway/bin/server_main.cc and gateway/bin/gateway_main.cc set. What is sent is a list of the
-- connections and the bytes.
pub mod Delivery
use mathlib.Core.Option
use file_server.Prelude.{
  ℕ, Bool, Option, none, some, List, [], ◌∷◌, ◌++◌, ◌==◌, ◌&&◌, if◌then◌else◌,
}
use file_server.Prelude.Int.{ℤ}
use file_server.Prelude.Text.{Bytes}
use file_server.Prelude.Action.{Action}
use file_server.Json.{JsonLib, utf8}
use file_server.Protocol.Message.{Message, empty_message, encode}
use file_server.Protocol.Body.{set_json, get_cmd}
use file_server.Gateway.Processor.{NetworkTask, elapsed_ms}
use file_server.Gateway.Router.{Router, route, reply_header}

abbrev pub Sent : Type 0
Sent = List (ℕ × Bytes)

-- `TaskHandler`, and `task_handler_` of the processor.
abbrev pub TaskHandler : Type 0 → Type 0
TaskHandler S = NetworkTask → ℤ → Action S Sent

-- `SetTaskHandler`
abbrev pub set_task_handler :
    {S : Type 0} → TaskHandler S → Option (TaskHandler S) → Option (TaskHandler S)
set_task_handler handler old = some handler

-- What a task that threw has sent is nothing.
abbrev pub sent_of : Option Sent → Sent
sent_of none = []
sent_of (some sent) = sent

-- `connected` tells of a connection whether it is still open.
module _ (lib : JsonLib) (connected : ℕ → Bool) where
  unfoldable pub send_to : ℕ → Bytes → Sent
  send_to conn wire = if connected conn then (conn, wire) ∷ [] else []

  -- The text of the default answer. The command is put into it as it is.
  unfoldable pub echo_body : Message → Bytes
  echo_body request =
      utf8 "{\"code\":0,\"msg\":\"ok\",\"echo_cmd\":\"" ++ (get_cmd lib request ++ utf8 "\"}")

  -- The default answer. `parse` is `json::parse(text)`, which throws for what is no JSON.
  unfoldable pub echo : (Bytes → Option lib.Json) → Message → Option Bytes
  unfolding echo_body
  echo parse request = elim (parse (echo_body request)) [
    | none ↦ none
    | some j ↦
        Option.map encode (set_json lib j (record empty_message { header = reply_header request }))
  ]

  unfoldable pub default_answer : (Bytes → Option lib.Json) → NetworkTask → Option Sent
  unfolding echo
  default_answer parse task =
      if connected task.conn
      then Option.map (λ wire. (task.conn, wire) ∷ []) (echo parse task.request)
      else some []

  module _ {S : Type 0} where
    -- `ProcessTask` at a time.
    unfoldable pub process_task :
        (Bytes → Option lib.Json) → Option (TaskHandler S) → ℤ → NetworkTask → Action S Sent
    unfolding default_answer
    process_task parse (some handler) now task s = handler task (elapsed_ms now task) s
    process_task parse none now task s = (default_answer parse task, s)

    unfoldable pub send_answer : ℕ → Option Message × S → Option Sent × S
    unfolding send_to
    send_answer conn (none, s) = (none, s)
    send_answer conn (some response, s) = (some (send_to conn (encode response)), s)

    -- The handler of both processes.
    unfoldable pub task_handler : Router S → TaskHandler S
    unfolding send_answer
    task_handler router task delay_ms s = send_answer task.conn (route lib router task.request s)

    -- The tasks in the order in which the workers perform them. An exception stays in the task's future.
    unfoldable pub process_all :
        (Bytes → Option lib.Json) → Option (TaskHandler S) → List (ℤ × NetworkTask) → S → Sent × S
    unfolding process_task
    process_all parse handler [] s = ([], s)
    process_all parse handler ((now, task) ∷ rest) s =
        let (sent, s') = process_task parse handler now task s in
        let (more, s'') = process_all parse handler rest s' in (sent_of sent ++ more, s'')
