-- ===== src/Examples/Tasks.antt =====
-- Runs of gateway/handler/business_processor.cc.
use file_server.Prelude.{
  ℕ, ◌≡◌, refl, Bool, ap, ◌∙◌, true, List, [], ◌∷◌, ◌++◌, map, take, drop, take-append-drop,
  append-nil,
}
use file_server.Prelude.Int.{pos}
use file_server.Protocol.Message.{encode, encode_batch, sealed}
use file_server.Protocol.Decoder.Delivery.{concat}
use file_server.ThreadPool.{Pool}
use file_server.Gateway.Processor.{NetworkTask, Event, run}
use file_server.Gateway.Processor.Streams.{requests_of, pieces_of, streams_separate}
use file_server.Gateway.Processor.Reuse.{sent, fresh}
use file_server.Gateway.Closing.{
  message_server, cleaning_server, reconnected, closing_keeps_decoder,
}
use file_server.Examples.Wire.{login_message, login_message-IsSendable}

abbrev idle_pool : Pool NetworkTask
idle_pool = record {
  tasks = [];
  running = true;
  idle = 1;
  busy = [];
  exited = 0;
  submitted = [];
  started = [];
  finished = [];
}

-- The connection 8 sends a byte between the two pieces of the connection 7.
abbrev events : List Event
events =
    sent 7 (take 30 (encode login_message)) (pos 0)
    ∷ sent 8 (1 ∷ []) (pos 1)
    ∷ sent 7 (drop 30 (encode login_message)) (pos 2)
    ∷ []

all_arrives : concat (pieces_of 7 events) ≡ encode_batch (login_message ∷ [])
unfolding pieces_of concat encode_batch
all_arrives =
    ap (◌++◌ (take 30 (encode login_message))) (append-nil (drop 30 (encode login_message)))
    ∙ take-append-drop 30 (encode login_message)
    ∙ rw append-nil

streams_separate_example :
    requests_of 7 (run events (fresh idle_pool)).pool.submitted ≡ map sealed (login_message ∷ [])
streams_separate_example =
    streams_separate 7 events (login_message ∷ []) idle_pool refl refl
      (login_message-IsSendable, tt) all_arrives

closing_keeps_decoder_example :
    let alive : ℕ → Bool = λ conn. true in
    let pieces = encode login_message in
    (requests_of 7
        (reconnected alive
          (message_server (pos 1))
          7
          (9 ∷ [])
          pieces
          (fresh idle_pool)).pool.submitted
      ≡ [])
    × (requests_of 7
          (reconnected alive
            (cleaning_server (pos 1))
            7
            (9 ∷ [])
            pieces
            (fresh idle_pool)).pool.submitted
        ≡ sealed login_message ∷ [])
closing_keeps_decoder_example =
    closing_keeps_decoder (λ conn. true) 7 9 login_message (pos 1) idle_pool
      login_message-IsSendable refl refl
