-- ===== src/Examples/Pools.antt =====
-- Pools, clients and options.
use fq_client_go.Common.{
  ℕ, ◌+◌, true, false, none, some, [], ◌∷◌, ◌++◌, Bytes, codes, ◌≡◌, refl, arith,
}
use fq_client_go.Errors.{Error, Result, ok}
use fq_client_go.Decimal.{format_uint, digits}
use fq_client_go.Text.{join}
use fq_client_go.Net.{Env, connected}
use fq_client_go.Tcp.Connect.{connect, hello_request}
use fq_client_go.Tcp.Handshake.{Accepts, connect-Established}
use fq_client_go.Examples.Responses.{server_info, server_info-HelloFits}
use fq_client_go.Examples.Transport.{server}
use fq_client_go.Response.Wire.{ok_wire}
use fq_client_go.Tcp.{TcpClient, Session}
use fq_client_go.Tcp.Frames.{frame}
use fq_client_go.Tcp.Stream.{Handler}
use fq_client_go.Options.{
  zero_options, apply_options, apply_from, Files, cert_pool, TlsConfig, TlsSettings, build_config,
  tls_min_version, with_roots, with_pair, first_config, version_tls12,
}
use fq_client_go.Options.Laws.{Built, build_config-Built}
use fq_client_go.Pool.{
  Target, Pool, World, get_connection, get_from, new_connection_pool, made, new_tcp_client,
  connect_with, connected_client, unconnected,
}
use fq_client_go.Pool.Sharing.{Shared, started, Reach, start, step, take_one, IsAccounted}
use fq_client_go.Pool.Sharing.Reached.{Reach-IsAccounted}
use fq_client_go.Client.New.{client_target, new_client}
use fq_client_go.Client.Streams.{stream_loop}
use fq_client_go.Client.Ends.{stream_loop_total}
use fq_client_go.Client.Opening.{Opened, new_client-Opened}
use fq_client_go.Examples.Wires.{wire_with, client_on, env_with, no_deadline, session_on}

abbrev pub target : Target
target = client_target (codes "localhost:1945") 30 []

-- A pool of one connection, which is idle.
abbrev pub one_idle : TcpClient → World
one_idle c = record {
  pool = record { size = 1; idle = c ∷ []; outstanding = 0; closed = false };
  env = env_with [];
}

abbrev spare : TcpClient
spare = client_on (wire_with [])

-- Counts the responses.
abbrev count : Handler ℕ Bytes
count response n = (none, n + 1)

stream_loop_total_example :
    (r : Error × Session × ℕ) × (stream_loop 3 count no_deadline
        (codes "STREAM")
        (session_on (wire_with (codes "ab")) [])
        0
      ≡ some r)
stream_loop_total_example =
    stream_loop_total 3 count no_deadline (codes "STREAM") (session_on (wire_with (codes "ab")) [])
      0 (omega arith)

new_client-Opened_example :
    (r : Result (Unit {0}) × World) × (new_client (codes "localhost:1945") 30 2 [] (env_with [])
      ≡ some r)
    × Opened 2 r
new_client-Opened_example = new_client-Opened (codes "localhost:1945") 30 2 [] (env_with [])

-- A pool that was just made, when the next dial reaches a server.
abbrev dialling : Env
dialling = env_with (connected server ∷ [])

abbrev fresh_world : World
fresh_world = record { pool = new_connection_pool 2; env = dialling }

abbrev unconnected_session : Session
unconnected_session = record { client = unconnected target zero_options; env = dialling }

abbrev behind : Bytes
behind = frame (codes "ok|5") ++ []

server-Accepts : Accepts unconnected_session server [] server_info behind
unfolding unconnected ok_wire join format_uint digits hello_request
server-Accepts = record {
  next = refl;
  wire = record { open_wire = refl; calm = tt };
  deadlines = refl;
  room = refl;
  limit = omega arith;
  fits = server_info-HelloFits;
  version = refl;
  arrived = refl;
  small = omega arith;
  short = omega arith;
}

-- One connection is out of it.
abbrev one_out : Pool
one_out = record { size = 2; idle = []; outstanding = 1; closed = false }

abbrev held_one : Shared
held_one = record {
  world = record { pool = one_out; env = (connect unconnected_session).1.env };
  held = 1;
}

got_one :
    get_connection target fresh_world ≡ (ok (connect unconnected_session).1.client, held_one.world)
unfolding get_connection get_from made new_tcp_client connect_with connected_client apply_options
    apply_from new_connection_pool
got_one =
    let reached =
      (connect-Established unconnected_session server [] server_info behind server-Accepts).0 in
    λ i. made fresh_world (connected_client (reached i, (connect unconnected_session).1))

held_one-Reach : Reach target 2 held_one
held_one-Reach =
    step (started 2 dialling) held_one (start dialling)
      (take_one fresh_world held_one.world 0 (connect unconnected_session).1.client got_one)

Reach-IsAccounted_example : IsAccounted 2 held_one
Reach-IsAccounted_example = Reach-IsAccounted target 2 held_one held_one-Reach

abbrev no_files : Files
no_files = record {
  read_file = λ path. ok (codes "PEM");
  has_certificates = λ text. true;
  key_pair = λ cert key. ok (codes "pair");
}

abbrev with_ca : TlsConfig
with_ca = record {
  ca_file = codes "ca.pem";
  cert_file = [];
  key_file = [];
  server_name = codes "fq";
  skip_verify = false;
  min_version = [];
}

abbrev built : TlsSettings
built = record {
  min_version = version_tls12;
  server_name = codes "fq";
  insecure_skip_verify = false;
  root_cas = some (codes "PEM");
  certificates = [];
}

build_config-Built_example : Built no_files with_ca built
unfolding build_config tls_min_version with_roots with_pair cert_pool fq_client_go.Options.map_error
build_config-Built_example = build_config-Built no_files with_ca built refl
