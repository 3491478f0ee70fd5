-- ===== src/Gateway/Closing.antt =====
-- gateway/bin/server_main.cc and gateway/bin/gateway_main.cc: the network server with the processor as
-- its message callback, when a connection is closed and another one gets its address.
use file_server.Prelude.{ℕ, ◌≡◌, Bool, true, false, [], ◌∷◌, if◌then◌else◌}
use file_server.Prelude.Int.{ℤ}
use file_server.Prelude.Text.{Bytes}
use file_server.Protocol.Message.{Message, IsSendable, encode, sealed}
use file_server.ThreadPool.{Pool}
use file_server.Gateway.Processor.{NetworkTask, Processor, remove_decoder, run}
use file_server.Gateway.Processor
use file_server.Gateway.Processor.Streams.{requests_of}
use file_server.Gateway.Processor.Reuse.{fresh, decoder_left_behind}
use file_server.Gateway.TcpServer.{
  TcpServer, new_server, set_message_callback, set_connection_callback, on_connection, on_message,
  call_user,
}

-- The server of both processes, at a time: `OnMessage` of the processor is its message callback, and
-- it has no connection callback.
unfoldable pub message_server : ℤ → TcpServer Processor
message_server now =
    set_message_callback (λ conn raw p. (Processor.on_message conn raw now p).1) new_server

-- What they could be: with a connection callback that calls `RemoveDecoder` for a closed connection.
unfoldable pub cleaning_server : ℤ → TcpServer Processor
unfolding message_server
cleaning_server now =
    set_connection_callback (λ conn up p. if up then p else remove_decoder conn p)
      (message_server now)

-- A connection comes up, sends bytes and is closed; another one at its address comes up and sends bytes.
unfoldable pub reconnected :
    (ℕ → Bool) → TcpServer Processor → ℕ → Bytes → Bytes → Processor → Processor
reconnected alive server conn first second p =
    let (s₁, p₁) = on_connection alive conn true server p in
    let p₂ = (on_message conn first s₁ p₁).1 in
    let (s₃, p₃) = on_connection alive conn false s₁ p₂ in
    let (s₄, p₄) = on_connection alive conn true s₃ p₃ in (on_message conn second s₄ p₄).1

-- A connection comes up, sends one byte and is closed. Another one comes up at the same address and sends
-- a whole sendable message. In the server of both processes the closing leaves the decoder behind, and no
-- task is made from the message. If the closing called `RemoveDecoder`, the message would be the one
-- task. The pool runs and was empty.
pub closing_keeps_decoder :
    (alive : ℕ → Bool) (c b : ℕ) (m : Message) (now : ℤ) (pool : Pool NetworkTask)
    → IsSendable m
    → pool.running ≡ true
    → pool.submitted ≡ []
    → (requests_of c
          (reconnected alive (message_server now) c (b ∷ []) (encode m) (fresh pool)).pool.submitted
        ≡ [])
      × (requests_of c
            (reconnected alive
              (cleaning_server now)
              c
              (b ∷ [])
              (encode m)
              (fresh pool)).pool.submitted
          ≡ sealed m ∷ [])
unfolding reconnected message_server cleaning_server on_connection on_message call_user run
    set_message_callback set_connection_callback
closing_keeps_decoder alive c b m now pool v on empty =
    decoder_left_behind c b m now now pool v on empty
