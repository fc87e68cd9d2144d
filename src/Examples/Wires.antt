-- ===== src/Examples/Wires.antt =====
-- A connection, clients and a session to try the theorems on.
use fq_client_go.Common.{false, none, List, [], ◌∷◌, Bytes, codes, arith, refl}
use fq_client_go.Errors.{sentinel, eof}
use fq_client_go.Net.{Wire, Env, Ctx, Dial}
use fq_client_go.Tcp.{TcpClient, Session}
use fq_client_go.Tcp.Progress.{IsReady}
use fq_client_go.Types.{CappingKey}

-- An open connection on which `inbox` arrives.
abbrev pub wire_with : Bytes → Wire
wire_with inbox = record {
  inbox = inbox;
  fault = sentinel eof;
  sent = [];
  write_steps = [];
  deadline_steps = [];
  deadline = 0;
  closed = false;
}

abbrev pub client_on : Wire → TcpClient
client_on wire = record {
  connection = wire;
  address = codes "localhost:1945";
  max_message_size = 4096;
  idle_timeout = 30;
  buffer_size = 4096;
  token = codes "secret";
  tls = false;
}

abbrev pub env_with : List Dial → Env
env_with dials = record { dials = dials; ctx_errors = []; clock = 7 ∷ [] }

abbrev pub no_deadline : Ctx
no_deadline = record { deadline = none }

abbrev pub session_on : Wire → List Dial → Session
session_on wire dials = record { client = client_on wire; env = env_with dials }

pub session_on-IsReady :
    (inbox : Bytes) (dials : List Dial) → IsReady (session_on (wire_with inbox) dials)
session_on-IsReady inbox dials = record {
  wire = record { open_wire = refl; calm = tt };
  deadlines = refl;
  room = refl;
  small = omega arith;
}

abbrev pub user_key : CappingKey
user_key = record { key = codes "user:1"; capping = 60 }
