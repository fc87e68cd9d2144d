-- ===== src/Examples/Transport.antt =====
-- Frames, the handshake and requests on a connection.
use fq_client_go.Common.{
  ◌≤◌, true, some, List, [], ◌∷◌, ◌++◌, Bytes, codes, length, ◌≡◌, refl, arith,
}
use fq_client_go.Errors.{sentinel, protocol, both, auth_failed, Result, ok, err}
use fq_client_go.Decimal.{format_uint, digits}
use fq_client_go.Text.{join}
use fq_client_go.Net.{Wire, connected}
use fq_client_go.Response.Wire.{ok_wire, error_wire, hello_fields}
use fq_client_go.Response.Protocol.{code_number, authentication_failed}
use fq_client_go.Response.{frame_status_ok}
use fq_client_go.Tcp.{Session, send, put_uint32, write_all, write_frame, read_frame_into, too_large}
use fq_client_go.Tcp.Frames.{frame, Written, write_all-Written}
use fq_client_go.Tcp.Frames.Reads.{read_frame_into-too_large}
use fq_client_go.Tcp.Frames.Sends.{read_frame_into-write_frame}
use fq_client_go.Tcp.Progress.{Succeeds}
use fq_client_go.Tcp.Exchange.{send-Succeeds}
use fq_client_go.Tcp.Connect.{hello, hello_request, connect}
use fq_client_go.Tcp.Handshake.{Established, Accepts, fresh, hello-auth_failed, connect-Established}
use fq_client_go.Tcp.Recovery.{Recovered, send_with_reconnect-Recovered}
use fq_client_go.Tcp.Retry.{send_with_reconnect}
use fq_client_go.Tcp.Attempts.{Dials, send_with_reconnect-Dials}
use fq_client_go.Tcp.Chunked.{chunks, send_chunked, join_status_and_data}
use fq_client_go.Tcp.Reassembly.{chunk_frames, status_frame, glue, send_chunked-ok}
use fq_client_go.Tcp.Ends.{chunks_total}
use fq_client_go.Examples.Wires.{wire_with, no_deadline, session_on, session_on-IsReady}
use fq_client_go.Examples.Responses.{server_info, server_info-HelloFits}

-- The peer takes two bytes, and then the connection breaks.
abbrev breaking : Wire
breaking = record (wire_with []) {
  write_steps = record { taken = 2; failure = some (sentinel auth_failed) } ∷ [];
}

write_all-Written_example : Written breaking (codes "INCR") (write_all (codes "INCR") breaking)
write_all-Written_example = write_all-Written (codes "INCR") breaking

abbrev far_end : Wire
far_end = wire_with ((write_frame (codes "GET") (wire_with [])).1.sent)

read_frame_into-write_frame_example :
    read_frame_into 4096 4096 far_end ≡ (ok (codes "GET"), record far_end { inbox = [] })
read_frame_into-write_frame_example =
    read_frame_into-write_frame 4096 4096 (codes "GET") (wire_with []) far_end (omega arith)
      (omega arith) (omega arith) (record { open_wire = refl; calm = tt }) refl refl refl

read_frame_into-too_large_example :
    read_frame_into 4096 4096 (wire_with (put_uint32 5000 ++ codes "x"))
    ≡ (err (too_large 5000 4096), wire_with (codes "x"))
read_frame_into-too_large_example =
    read_frame_into-too_large 4096 4096 5000 (codes "x") (wire_with (put_uint32 5000 ++ codes "x"))
      refl (omega arith) (omega arith) (omega arith) refl

abbrev answered : Session
answered = session_on (wire_with (frame (codes "ok|5") ++ codes "more")) []

send-Succeeds_example :
    Succeeds
      (send no_deadline (codes "GET k 60") answered)
      (codes "ok|5")
      answered
      (frame (codes "GET k 60"))
      (codes "more")
send-Succeeds_example =
    send-Succeeds no_deadline (codes "GET k 60") (codes "ok|5") (codes "more") answered
      (session_on-IsReady _ []) refl (omega arith) (omega arith)

send_with_reconnect-Dials_example :
    Dials 16 answered (send_with_reconnect no_deadline (codes "GET k 60") answered)
send_with_reconnect-Dials_example =
    send_with_reconnect-Dials no_deadline (codes "GET k 60") answered

-- A response in three frames.
abbrev parts : List Bytes
parts = codes "{\"a\":" ∷ codes "1," ∷ []

abbrev in_parts : Session
in_parts =
    session_on (wire_with (chunk_frames parts (status_frame frame_status_ok (codes "}")) ++ [])) []

send_chunked-ok_example :
    Succeeds
      (send_chunked no_deadline (codes "INSPECT") in_parts)
      (join_status_and_data frame_status_ok (glue parts ++ codes "}"))
      in_parts
      (frame (codes "INSPECT"))
      []
send_chunked-ok_example =
    send_chunked-ok no_deadline (codes "INSPECT") parts (codes "}") [] in_parts
      (session_on-IsReady _ []) (omega arith) (omega arith, (omega arith, tt)) (omega arith) refl

chunks_total_example : (r : Result Bytes × Session) × (chunks 100 no_deadline [] answered ≡ some r)
unfolding put_uint32
chunks_total_example = chunks_total 100 no_deadline [] answered (omega arith)

abbrev pub hello_answer : Bytes
hello_answer = ok_wire (hello_fields server_info)

-- A server that accepts the handshake, and answers one request behind it.
abbrev pub server : Wire
server = wire_with (frame hello_answer ++ (frame (codes "ok|5") ++ []))

abbrev unconnected : Session
unconnected = session_on (record (wire_with []) { closed = true }) (connected server ∷ [])

unconnected-Accepts : Accepts unconnected server [] server_info (frame (codes "ok|5") ++ [])
unfolding ok_wire join format_uint digits hello_request
unconnected-Accepts = record {
  next = refl;
  wire = record { open_wire = refl; calm = tt };
  deadlines = refl;
  room = refl;
  limit = omega arith;
  fits = server_info-HelloFits;
  version = refl;
  arrived = refl;
  small = omega arith;
  short = omega arith;
}

connect-Established_example :
    ((connect unconnected).0 ≡ ok tt)
    × Established
        (fresh unconnected server [])
        (connect unconnected).1
        server_info
        (frame (codes "ok|5") ++ [])
connect-Established_example =
    connect-Established unconnected server [] server_info (frame (codes "ok|5") ++ [])
      unconnected-Accepts

send_with_reconnect-Recovered_example :
    Recovered
      (send_with_reconnect no_deadline (codes "GET k 60") unconnected)
      server
      (codes "secret")
      (codes "GET k 60")
      (codes "ok|5")
      []
send_with_reconnect-Recovered_example =
    send_with_reconnect-Recovered no_deadline (codes "GET k 60") (codes "ok|5") [] unconnected
      server [] server_info refl refl unconnected-Accepts (omega arith) (omega arith) (omega arith)

abbrev refusal : Bytes
refusal = error_wire (code_number authentication_failed) (codes "bad token")

abbrev refused_login : Session
refused_login = session_on (wire_with (frame refusal ++ [])) []

refusal-short : length refusal ≤ 4096
unfolding error_wire code_number format_uint digits
refusal-short = omega arith

request-short : length (hello_request (codes "secret")) ≤ 4096
unfolding hello_request format_uint digits
request-short = omega arith

hello-auth_failed_example :
    (hello no_deadline refused_login).0
    ≡ err (
        both
          (sentinel auth_failed)
          (protocol (code_number authentication_failed) (codes "bad token")))
hello-auth_failed_example =
    hello-auth_failed no_deadline (codes "bad token") [] refused_login (session_on-IsReady _ [])
      refl request-short refusal-short
