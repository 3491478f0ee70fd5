-- ===== src/Gateway/Processor.antt =====
-- gateway/handler/business_processor.cc and task.h: from the bytes of the connections to the tasks of
-- the thread pool. A connection is a number, the pointer.
pub mod Streams
pub mod Reuse
use file_server.Prelude.{
  ℕ, Bool, true, false, Option, none, some, List, [], ◌∷◌, ◌++◌, map, length, if◌then◌else◌,
}
use file_server.Prelude.Int.{ℤ, ◌-ℤ◌}
use file_server.Prelude.Dict.{Dict, lookup, insert, remove}
use file_server.Protocol.Message.{Message}
use file_server.Protocol.Decoder.{Decoder, Parsed, init, feed}
use file_server.ThreadPool.{Pool, submit}

pub record NetworkTask : Type 0 where
  pub request : Message
  pub conn : ℕ
  pub enqueue_time_ms : ℤ

-- `ElapsedMs`
unfoldable pub elapsed_ms : ℤ → NetworkTask → ℤ
elapsed_ms now task = now -ℤ task.enqueue_time_ms

-- `decoders_`, and the pool, which the processor does not own.
pub record Processor : Type 0 where
  pub decoders : Dict Decoder
  pub pool : Pool NetworkTask

-- `GetDecoder`: the decoder of the connection; a new one is kept.
unfoldable pub get_decoder : ℕ → Processor → Decoder × Processor
get_decoder conn p = elim (lookup conn p.decoders) [
  | some decoder ↦ (decoder, p)
  | none ↦ (init, record p { decoders = insert conn init p.decoders })
]

-- `RemoveDecoder` and `ActiveDecoderCount`
unfoldable pub remove_decoder : ℕ → Processor → Processor
remove_decoder conn p = record p { decoders = remove conn p.decoders }

unfoldable pub active_decoder_count : Processor → ℕ
active_decoder_count p = length p.decoders

-- The loop over the messages; `false` is the exception of a stopped pool.
unfoldable pub submit_all : ℕ → ℤ → List Message → Pool NetworkTask → Bool × Pool NetworkTask
submit_all conn now [] pool = (true, pool)
submit_all conn now (msg ∷ msgs) pool =
    elim (submit (record { request = msg; conn = conn; enqueue_time_ms = now }) pool) [
      | none ↦ (false, pool)
      | some pool' ↦ submit_all conn now msgs pool'
    ]

-- The decoder that `Feed` leaves is the one in the map, which is shared. `none` never occurs.
unfoldable pub on_parsed : ℕ → ℤ → Option Parsed → Processor → Bool × Processor
unfolding submit_all
on_parsed conn now none p = (true, p)
on_parsed conn now (some (msgs, decoder)) p =
    let (ok, pool) = submit_all conn now msgs p.pool in
    (ok, record { decoders = insert conn decoder p.decoders; pool = pool })

-- `OnMessage` with the bytes of the buffer, at a time.
unfoldable pub on_message : ℕ → List ℕ → ℤ → Processor → Bool × Processor
unfolding get_decoder on_parsed
on_message conn raw now p =
    let (decoder, p') = get_decoder conn p in on_parsed conn now (feed decoder raw) p'

-- What the event loops of the connections call, in the order in which they get the pool's mutex.
pub record Event : Type 0 where
  pub conn : ℕ
  pub raw : List ℕ
  pub time : ℤ

unfoldable pub run : List Event → Processor → Processor
run [] p = p
run (e ∷ es) p = run es (on_message e.conn e.raw e.time p).1
