-- ===== src/Examples/Resumption.antt =====
-- A stream that goes on over a second connection.
use fq_client_go.Common.{◌≡◌, none, some, List, [], ◌∷◌, ◌++◌, map, Bytes, codes, refl, arith}
use fq_client_go.Errors.{error_is, sentinel, eof}
use fq_client_go.Decimal.{format_uint, digits}
use fq_client_go.Text.{join}
use fq_client_go.Net.{Wire, connected}
use fq_client_go.Types.{LimitEvent}
use fq_client_go.Response.Wire.{ok_wire, limit_event_fields}
use fq_client_go.Command.{command_stream}
use fq_client_go.Tcp.{TcpClient, is_connection_error}
use fq_client_go.Tcp.Frames.{frame}
use fq_client_go.Tcp.Connect.{hello_request}
use fq_client_go.Tcp.Handshake.{Accepts}
use fq_client_go.Tcp.Delivery.{event_frames, deliver, delivered}
use fq_client_go.Pool.{World}
use fq_client_go.Client.Streams.{limit_stream}
use fq_client_go.Client.Delivery.{StreamEnded}
use fq_client_go.Client.Resumption.{Resumes, asked_again, limit_stream-Resumed}
use fq_client_go.Examples.Wires.{wire_with, client_on, env_with, no_deadline, session_on-IsReady}
use fq_client_go.Examples.Responses.{server_info, server_info-HelloFits}
use fq_client_go.Examples.Transport.{hello_answer}
use fq_client_go.Examples.Pools.{target, one_idle}
use fq_client_go.Examples.Calls.{two_only, limit_reached, limit_reached-Fits}

abbrev first_events : List LimitEvent
first_events = limit_reached ∷ []

abbrev later_events : List LimitEvent
later_events = limit_reached ∷ limit_reached ∷ []

abbrev payloads : List LimitEvent → List Bytes
payloads = map (λ x. ok_wire (limit_event_fields x))

-- Drops behind one event.
abbrev dropping : TcpClient
dropping = client_on (wire_with (event_frames (payloads first_events)))

abbrev next_wire : Wire
next_wire = wire_with (frame hello_answer ++ (event_frames (payloads later_events) ++ []))

abbrev dropping_world : World
dropping_world = record (one_idle dropping) { env = env_with (connected next_wire ∷ []) }

dropping-Accepts :
    Accepts
      (record { client = dropping; env = dropping_world.env })
      next_wire
      []
      server_info
      (event_frames (payloads later_events) ++ [])
unfolding ok_wire join format_uint digits hello_request
dropping-Accepts = record {
  next = refl;
  wire = record { open_wire = refl; calm = tt };
  deadlines = refl;
  room = refl;
  limit = omega arith;
  fits = server_info-HelloFits;
  version = refl;
  arrived = refl;
  small = omega arith;
  short = omega arith;
}

dropping-Resumes :
    Resumes
      (record { client = dropping; env = dropping_world.env })
      next_wire
      []
      server_info
      command_stream
      (payloads first_events)
      (payloads later_events)
      []
unfolding ok_wire join format_uint digits is_connection_error error_is
dropping-Resumes = record {
  ready = session_on-IsReady _ _;
  calm = refl;
  arrived = refl;
  drops = refl;
  next = dropping-Accepts;
  fits = omega arith;
  small = (omega arith, tt);
  fits_after = omega arith;
  small_after = (omega arith, (omega arith, tt));
}

first-delivered : deliver two_only first_events 0 ≡ (none, 1)
unfolding deliver delivered
first-delivered = refl

later-delivered : deliver two_only later_events 1 ≡ (some (sentinel eof), 2)
unfolding deliver delivered
later-delivered = refl

limit_stream-Resumed_example :
    StreamEnded
      (limit_stream target no_deadline two_only dropping_world 0)
      (sentinel eof)
      2
      dropping_world
      []
      (asked_again next_wire (codes "secret") command_stream)
unfolding error_is
limit_stream-Resumed_example =
    limit_stream-Resumed two_only target no_deadline first_events later_events dropping_world
      dropping [] next_wire [] server_info [] 0 1 (sentinel eof) 2 (limit_reached-Fits, tt)
      (limit_reached-Fits, (limit_reached-Fits, tt)) refl
      (record { room = omega arith; drained = λ h. grind arith }) refl dropping-Resumes
      first-delivered later-delivered refl
