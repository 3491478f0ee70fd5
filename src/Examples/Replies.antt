-- ===== src/Examples/Replies.antt =====
-- A run of ProcessTask of gateway/handler/business_processor.cc.
use file_server.Prelude.{
  ℕ, suc, ◌≡◌, refl, sym, ap, ◌∙◌, Bool, true, Option, none, some, List, [], ◌∷◌, ◌++◌, All, map,
  take, drop, take-append-drop, append-nil,
}
use file_server.Prelude.Int.{ℤ, pos}
use file_server.Prelude.Text.{Bytes, same_text}
use file_server.Json.{utf8}
use file_server.Protocol.Message.{IsSendable, empty_message, encode, sealed}
use file_server.Protocol.Body.{get_cmd, get_json}
use file_server.Protocol.Decoder.{Decoder, init, feed_pieces}
use file_server.Protocol.Decoder.Delivery.{concat}
use file_server.Gateway.Processor.{NetworkTask}
use file_server.Gateway.Router.{
  Router, Handler, register, unregister, handler_of, route, run_handler,
}
use file_server.Gateway.Work.{process_all, process_task, task_handler, send_answer, send_to}
use file_server.Gateway.Work.Delivery.{bytes_to, replies, replies_delivered}
use file_server.Examples.FlatJson.{flat_json, find, object_of, read}
use file_server.Examples.Wire.{login_message, login_message-IsSendable}

-- The handler of the command "" counts its calls and answers always the same.
abbrev counting : Handler ℕ
counting request calls = (some login_message, suc calls)

abbrev router : Router ℕ
unfolding register unregister
router = register [] counting []

abbrev always_open : ℕ → Bool
always_open conn = true

abbrev no_parse : Bytes → Option flat_json.Json
no_parse text = none

abbrev task_of : ℕ → NetworkTask
task_of conn = record { request = empty_message; conn = conn; enqueue_time_ms = pos 0 }

abbrev tasks : List (ℤ × NetworkTask)
tasks = (pos 1, task_of 8) ∷ (pos 2, task_of 7) ∷ []

one_reply : replies flat_json always_open router 7 tasks 0 ≡ login_message ∷ []
unfolding replies route run_handler get_cmd get_json flat_json handler_of same_text read find utf8
    router object_of
one_reply = refl

replies-IsSendable : All IsSendable (replies flat_json always_open router 7 tasks 0)
unfolding replies route run_handler get_cmd get_json flat_json handler_of same_text read find utf8
    router object_of
replies-IsSendable = (login_message-IsSendable, tt)

abbrev pieces : List Bytes
pieces = take 30 (encode login_message) ∷ drop 30 (encode login_message) ∷ []

pieces_arrive :
    concat pieces
    ≡ bytes_to 7
        (process_all flat_json always_open no_parse
          (some (task_handler flat_json always_open router))
          tasks
          0).0
unfolding concat bytes_to process_all process_task task_handler send_answer send_to route
    run_handler get_cmd get_json flat_json handler_of same_text read find utf8 router object_of
pieces_arrive =
    ap (◌++◌ (take 30 (encode login_message))) (append-nil (drop 30 (encode login_message)))
    ∙ take-append-drop 30 (encode login_message)
    ∙ sym (append-nil (encode login_message))

replies_delivered_example :
    (d : Decoder) × (feed_pieces pieces init
      ≡ some (map sealed (replies flat_json always_open router 7 tasks 0), d))
    × (d.buffer ≡ [])
replies_delivered_example =
    replies_delivered flat_json always_open router no_parse 7 tasks 0 pieces replies-IsSendable
      pieces_arrive
