-- ===== src/Examples/Calls.antt =====
-- Methods of a client, and a stream.
use fq_client_go.Common.{
  length, ◌≤◌, ℕ, ◌+◌, none, some, List, [], ◌∷◌, ◌++◌, map, Bytes, codes, ◌≡◌, ◌==◌, if◌then◌else◌,
  refl, arith,
}
use fq_client_go.Errors.{Result, error_is, sentinel, eof, ok}
use fq_client_go.Decimal.{format_uint, digits}
use fq_client_go.Text.{join}
use fq_client_go.Types.{LimitEvent}
use fq_client_go.Response.Wire.{ok_wire, limit_event_fields, LimitEventFits}
use fq_client_go.Command.{command_stream, write_inspect_command}
use fq_client_go.Command.{write_command, writes}
use fq_client_go.Command.Request.{encode}
use fq_client_go.Tcp.{TcpClient}
use fq_client_go.Tcp.Frames.{frame}
use fq_client_go.Tcp.Stream.{Handler}
use fq_client_go.Tcp.Delivery.{event_frames, deliver, delivered}
use fq_client_go.Client.Laws.{Serves, Answered}
use fq_client_go.Client.Methods.{incr, request_of}
use fq_client_go.Client.Methods.Served.{gives, calls-Answered}
use fq_client_go.Client.Streams.{limit_stream}
use fq_client_go.Client.Delivery.{Emits, StreamEnded, limit_stream-StreamEnded}
use fq_client_go.Client.Inspection.{Chunks, reports, chunk_wire, report_of, inspect-Answered}
use fq_client_go.Sharded.{ShardingFunc, pos}
use fq_client_go.Sharded.Methods.{Shard}
use fq_client_go.Sharded.Served.{by_incr, sharded_call, ShardAnswered, sharded_calls-Answered}
use fq_client_go.Client
use fq_client_go.Examples.Wires.{wire_with, client_on, no_deadline, session_on-IsReady, user_key}
use fq_client_go.Examples.Pools.{target, one_idle}

abbrev counting : TcpClient
counting = client_on (wire_with (frame (ok_wire (format_uint 41 ∷ [])) ++ []))

counting-Serves :
    Serves
      (one_idle counting)
      counting
      []
      (encode (request_of (incr user_key)))
      (ok_wire (format_uint 41 ∷ []))
      []
unfolding encode write_command writes ok_wire join format_uint digits
counting-Serves = record {
  is_open = refl;
  sound = record { room = omega arith; drained = λ h. grind arith };
  next = refl;
  ready = session_on-IsReady _ [];
  arrived = refl;
  fits = omega arith;
  small = omega arith;
}

calls-Answered_example :
    Answered
      (Client.incr target no_deadline user_key (one_idle counting))
      (ok 41)
      (one_idle counting)
      counting
      []
      (encode (request_of (incr user_key)))
      []
calls-Answered_example =
    calls-Answered (incr user_key) (gives 41) target no_deadline (one_idle counting) counting [] []
      (omega arith) counting-Serves

-- Stops at the second event.
abbrev pub two_only : Handler ℕ LimitEvent
two_only e n = (if n == 1 then some (sentinel eof) else none, n + 1)

abbrev pub limit_reached : LimitEvent
limit_reached = record { key = codes "k"; window = 60; current = 100; reset_after = 5 }

pub limit_reached-Fits : LimitEventFits limit_reached
limit_reached-Fits = record {
  key = omega arith;
  window = omega arith;
  current = omega arith;
  reset_after = omega arith;
}

abbrev three_events : List LimitEvent
three_events = limit_reached ∷ limit_reached ∷ limit_reached ∷ []

abbrev payloads : List Bytes
payloads = map (λ x. ok_wire (limit_event_fields x)) three_events

abbrev emitting : TcpClient
emitting = client_on (wire_with (event_frames payloads ++ []))

emitting-Emits : Emits (one_idle emitting) emitting [] command_stream payloads []
unfolding ok_wire join format_uint digits
emitting-Emits = record {
  is_open = refl;
  sound = record { room = omega arith; drained = λ h. grind arith };
  next = refl;
  ready = session_on-IsReady _ [];
  calm = refl;
  arrived = refl;
  fits = omega arith;
  small = (omega arith, (omega arith, (omega arith, tt)));
}

two-delivered : deliver two_only three_events 0 ≡ (some (sentinel eof), 2)
unfolding deliver delivered
two-delivered = refl

limit_stream-StreamEnded_example :
    StreamEnded
      (limit_stream target no_deadline two_only (one_idle emitting) 0)
      (sentinel eof)
      2
      (one_idle emitting)
      []
      (frame command_stream)
unfolding error_is
limit_stream-StreamEnded_example =
    limit_stream-StreamEnded two_only target no_deadline three_events (one_idle emitting) emitting
      [] [] 0 (sentinel eof) 2 (limit_reached-Fits, (limit_reached-Fits, (limit_reached-Fits, tt)))
      emitting-Emits two-delivered refl

-- For `json.Unmarshal`: how long the text is.
abbrev measured : Bytes → Result ℕ
measured text = ok (length text)

abbrev in_parts : Chunks
in_parts = reports (codes "{\"a\":" ∷ codes "1," ∷ []) (codes "}")

abbrev reporting : TcpClient
reporting = client_on (wire_with (chunk_wire in_parts ++ []))

write_inspect_command-short : length (write_inspect_command [] []) ≤ 4096
unfolding write_inspect_command writes
write_inspect_command-short = omega arith

inspect-Answered_example :
    Answered
      (Client.inspect target no_deadline measured 0 [] (one_idle reporting))
      (ok 8)
      (one_idle reporting)
      reporting
      []
      (write_inspect_command [] [])
      []
unfolding report_of
inspect-Answered_example =
    inspect-Answered measured 0 target no_deadline [] in_parts (one_idle reporting) reporting [] []
      (record {
        is_open = refl;
        sound = record { room = omega arith; drained = λ h. grind arith };
        next = refl;
      })
      (session_on-IsReady _ []) write_inspect_command-short
      ((omega arith, (omega arith, tt)), omega arith) refl

-- Two shards; the key goes to the second.
abbrev idle_shard : Shard
idle_shard = record { target = target; world = one_idle (client_on (wire_with [])) }

abbrev counting_shard : Shard
counting_shard = record { target = target; world = one_idle counting }

abbrev to_second : ShardingFunc
to_second key count = pos 1

sharded_calls-Answered_example :
    ShardAnswered
      (sharded_call (by_incr user_key) to_second no_deadline (idle_shard ∷ counting_shard ∷ []))
      (ok 41)
      (idle_shard ∷ [])
      counting_shard
      []
      counting
      []
      (encode (request_of (incr user_key)))
      []
      (Client.incr target no_deadline user_key (one_idle counting))
sharded_calls-Answered_example =
    sharded_calls-Answered (by_incr user_key) (gives 41) to_second no_deadline (idle_shard ∷ []) []
      counting_shard counting [] [] refl (omega arith) counting-Serves
