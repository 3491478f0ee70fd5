-- ===== src/Gateway/Work/Delivery.antt =====
-- gateway/handler/business_processor.cc: what a client of the gateway receives.
use file_server.Prelude.{
  ℕ, ◌≡◌, refl, ap, ◌∙◌, Bool, Option, none, some, List, [], ◌∷◌, ◌++◌, ◌==◌, map, All,
  if◌then◌else◌, Bool-cases, inl, inr,
}
use file_server.Prelude.Int.{ℤ}
use file_server.Prelude.Text.{Bytes}
use file_server.Json.{JsonLib}
use file_server.Protocol.Message.{Message, IsSendable, encode, encode_batch, sealed}
use file_server.Protocol.Decoder.{Decoder, init, feed_pieces}
use file_server.Protocol.Decoder.Delivery.{concat, stream_delivery}
use file_server.Gateway.Processor.{NetworkTask}
use file_server.Gateway.Router.{Router, route}
use file_server.Gateway.Work.{
  Sent, send_to, process_task, send_answer, task_handler, sent_of, process_all,
}

-- The bytes on a connection.
unfoldable pub bytes_to : ℕ → Sent → Bytes
bytes_to conn [] = []
bytes_to conn ((c, wire) ∷ rest) =
    let more = bytes_to conn rest in if c == conn then wire ++ more else more

module _ (lib : JsonLib) (connected : ℕ → Bool) {S : Type 0} (router : Router S) where
  abbrev pub reply : ℕ → ℕ → Option Message → List Message → List Message
  reply conn c none rest = rest
  reply conn c (some m) rest = if connected c then (if c == conn then m ∷ rest else rest) else rest

  -- The responses to the tasks of a connection that is open.
  unfoldable pub replies : ℕ → List (ℤ × NetworkTask) → S → List Message
  replies conn [] s = []
  replies conn ((now, task) ∷ rest) s =
      let (m, s') = route lib router task.request s in reply conn task.conn m (replies conn rest s')

  send_to_lem :
      (conn c : ℕ) (m : Message) (more : Sent) (rest : List Message)
      → bytes_to conn more ≡ encode_batch rest
      → bytes_to conn (send_to lib connected c (encode m) ++ more)
        ≡ encode_batch (reply conn c (some m) rest)
  unfolding send_to bytes_to encode_batch
  send_to_lem conn c m more rest e = elim (Bool-cases (connected c)) [
    | inl on ↦ rw on (elim (Bool-cases (c == conn)) [
      | inl same ↦ rw same (ap (◌++◌ (encode m)) e)
      | inr other ↦ rw other e
    ])
    | inr off ↦ rw off e
  ]

  module _ (parse : Bytes → Option lib.Json) where
    step_lem :
        (conn : ℕ) (task : NetworkTask) (rest : List (ℤ × NetworkTask)) (r : Option Message × S)
        → ((s : S)
            → bytes_to conn
                (process_all lib connected parse
                  (some (task_handler lib connected router))
                  rest
                  s).0
              ≡ encode_batch (replies conn rest s))
        → let (sent, s') = send_answer lib connected task.conn r in
          bytes_to conn (
            sent_of sent
            ++ (process_all lib connected parse
                (some (task_handler lib connected router))
                rest
                s').0)
          ≡ encode_batch (reply conn task.conn r.0 (replies conn rest r.1))
    unfolding send_answer
    step_lem conn task rest (none, s) ih = ih s
    step_lem conn task rest (some m, s) ih = send_to_lem conn task.conn m _ _ (ih s)

    bytes_to-process_all :
        (conn : ℕ) (tasks : List (ℤ × NetworkTask)) (s : S)
        → bytes_to conn
            (process_all lib connected parse (some (task_handler lib connected router)) tasks s).0
          ≡ encode_batch (replies conn tasks s)
    unfolding process_all process_task task_handler replies
    bytes_to-process_all conn [] s = unfold bytes_to encode_batch in refl
    bytes_to-process_all conn ((now, task) ∷ rest) s =
        step_lem conn task rest (route lib router task.request s) (bytes_to-process_all conn rest)

    -- The bytes that ProcessTask sends to a connection, cut anywhere into pieces, are decoded to the
    -- routed responses to the tasks of this connection, in the order in which the tasks are performed,
    -- and to nothing else, provided that the responses can be sent.
    pub replies_delivered :
        (conn : ℕ) (tasks : List (ℤ × NetworkTask)) (s : S) (pieces : List Bytes)
        → All IsSendable (replies conn tasks s)
        → concat pieces
          ≡ bytes_to conn
              (process_all lib connected parse (some (task_handler lib connected router)) tasks s).0
        → (d : Decoder) × (feed_pieces pieces init ≡ some (map sealed (replies conn tasks s), d))
          × (d.buffer ≡ [])
    replies_delivered conn tasks s pieces sendable e =
        stream_delivery (replies conn tasks s) pieces sendable
          (e ∙ bytes_to-process_all conn tasks s)
