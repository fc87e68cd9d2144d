-- ===== src/Examples/Streams.antt =====
-- Opening a sharded client, and the streams of its shards.
use fq_client_go.Common.{
  ℕ, ◌+◌, ◌≡◌, ◌≢◌, refl, arith, true, false, Option, none, some, List, [], ◌∷◌, codes, get_elem?,
  ◌⊎◌,
}
use fq_client_go.Errors.{Error, sentinel, eof, conn_pool_closed, wrap}
use fq_client_go.Types.{LimitEvent}
use fq_client_go.Pool.{World, get_connection}
use fq_client_go.Tcp.Stream.{Handler}
use fq_client_go.Client.Streams.{limit_stream, stream_with, stream_got}
use fq_client_go.Sharded.{ShardingFunc, pos}
use fq_client_go.Sharded.Methods.{Shard}
use fq_client_go.Sharded.Open.{Start, new_sharded}
use fq_client_go.Sharded.Opened.{Settled, new_sharded-Settled}
use fq_client_go.Sharded.Events.{
  Trace, streaming, failed, cancelling, receiving, returned, EventStreams, after_stream,
  first_stream_error, begun, finish, send, receive, Reach, start, step,
}
use fq_client_go.Sharded.Events.Moves.{Returned}
use fq_client_go.Sharded.Events.Order.{streams-Returned}
use fq_client_go.Sharded.Events.Progress.{CanReturn, streams-CanReturn}
use fq_client_go.Sharded.Streams.{MethodEnds, method_ends, StreamEvents, StreamEvents-fails}
use fq_client_go.Examples.Wires.{env_with, no_deadline}
use fq_client_go.Examples.Pools.{target}

abbrev to_second : ShardingFunc
to_second key count = pos 1

new_sharded-Settled_example :
    (r : Start) × (new_sharded 30 1 []
        (codes "a:1945" ∷ codes "b:1945" ∷ [])
        (some to_second)
        (env_with [])
      ≡ some r)
    × Settled 1 (codes "a:1945" ∷ codes "b:1945" ∷ []) (some to_second) r
new_sharded-Settled_example =
    new_sharded-Settled 30 1 [] (codes "a:1945" ∷ codes "b:1945" ∷ []) (some to_second)
      (env_with [])

-- Counts the events.
abbrev count : Handler ℕ ℕ
count event n = (none, n + 1)

-- A stream that may end at any time.
abbrev AnyEnd : ℕ → Trace ℕ → Option Error → Type 0
AnyEnd i trace r = Unit

abbrev two_streams : EventStreams ℕ ℕ
two_streams = record {
  phases = streaming [] ∷ streaming [] ∷ [];
  errs = [];
  errs_closed = false;
  cancelled = false;
  ctx = none;
  main = receiving;
  handled = 0;
  sent = [];
}

abbrev one_failed : EventStreams ℕ ℕ
one_failed = record two_streams { phases = failed (sentinel eof) ∷ streaming [] ∷ [] }

abbrev one_sent : EventStreams ℕ ℕ
one_sent = record one_failed {
  phases = cancelling ∷ streaming [] ∷ [];
  errs = sentinel eof ∷ [];
  sent = sentinel eof ∷ [];
}

abbrev all_returned : EventStreams ℕ ℕ
all_returned = record one_sent {
  errs = [];
  main = returned (some (sentinel eof));
  cancelled = true;
}

one_failed-Reach : Reach count AnyEnd 2 one_failed
unfolding begun after_stream
one_failed-Reach =
    step two_streams one_failed (start none 0) (finish 0 [] (some (sentinel eof)) refl tt)

all_returned-Reach : Reach count AnyEnd 2 all_returned
unfolding first_stream_error
all_returned-Reach =
    step one_sent all_returned
      (step one_failed one_sent one_failed-Reach (send 0 (sentinel eof) refl (omega arith)))
      (receive (sentinel eof) [] refl refl)

streams-Returned_example :
    Returned all_returned.phases none (sentinel eof ∷ []) (some (sentinel eof))
streams-Returned_example =
    streams-Returned count AnyEnd 2 all_returned (some (sentinel eof)) all_returned-Reach refl

streams-CanReturn_example :
    CanReturn count AnyEnd one_failed
    ⊎ ((one_failed.errs ≡ [])
        × (i : ℕ) × (trace : Trace ℕ) × (get_elem? one_failed.phases i ≡ some (streaming trace)))
streams-CanReturn_example = streams-CanReturn count AnyEnd 2 one_failed one_failed-Reach refl

-- A shard whose client was closed.
abbrev closed_world : World
closed_world = record {
  pool = record { size = 1; idle = []; outstanding = 0; closed = true };
  env = env_with [];
}

abbrev closed_shards : List Shard
closed_shards = record { target = target; world = closed_world } ∷ []

abbrev no_connection : Error
no_connection = wrap (codes "get connection") (sentinel conn_pool_closed)

closed-ends : MethodEnds (λ t. limit_stream t no_deadline) closed_shards 0 [] (some no_connection)
unfolding limit_stream stream_with stream_got get_connection
closed-ends =
    method_ends (record { target = target; world = closed_world }) no_connection closed_world refl
      refl

-- Counts the limit events.
abbrev count_limits : Handler ℕ LimitEvent
count_limits event n = (none, n + 1)

abbrev closed_failed : EventStreams ℕ LimitEvent
closed_failed = record {
  phases = failed no_connection ∷ [];
  errs = [];
  errs_closed = false;
  cancelled = false;
  ctx = none;
  main = receiving;
  handled = 0;
  sent = [];
}

abbrev closed_sent : EventStreams ℕ LimitEvent
closed_sent = record closed_failed {
  phases = cancelling ∷ [];
  errs = no_connection ∷ [];
  sent = no_connection ∷ [];
}

abbrev closed_returned : EventStreams ℕ LimitEvent
closed_returned = record closed_sent {
  errs = [];
  main = returned (some no_connection);
  cancelled = true;
}

closed_returned-Reach :
    StreamEvents (λ t. limit_stream t no_deadline) closed_shards count_limits closed_returned
unfolding begun after_stream first_stream_error
closed_returned-Reach =
    step closed_sent closed_returned
      (step closed_failed closed_sent
        (step (begun 1 none 0) closed_failed (start none 0)
          (finish 0 [] (some no_connection) refl closed-ends))
        (send 0 no_connection refl (omega arith)))
      (receive no_connection [] refl refl)

StreamEvents-fails_example : some no_connection ≢ none
StreamEvents-fails_example =
    StreamEvents-fails count_limits (λ t. limit_stream t no_deadline) closed_shards closed_returned
      (some no_connection) (omega arith) closed_returned-Reach refl
