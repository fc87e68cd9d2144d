-- ===== src/Client/Laws.antt =====
-- client.go: a method over a connection of the pool that works, from the command to the result.
use fq_client_go.Common.{
  ℕ, suc, ◌≤◌, ◌<◌, ◌^◌, false, Option, some, List, [], ◌∷◌, ◌++◌, Bytes, length, if◌then◌else◌,
  ◌==◌, ◌≡◌, refl, ap, ◌∙◌, subst, arith, inl, inr,
}
use fq_client_go.Errors.{sentinel, protocol, conn_pool_closed, Result, ok, err}
use fq_client_go.Decimal.{format_uint}
use fq_client_go.Net.{Env, Ctx}
use fq_client_go.Types.{CappingKey}
use fq_client_go.Response.{Response}
use fq_client_go.Response.Readers.{parse_response}
use fq_client_go.Response.Wire.{ok_wire, error_wire}
use fq_client_go.Response.Replies.{parse_response-number}
use fq_client_go.Response.Protocol.{parse_response-error_wire}
use fq_client_go.Command.{write_command, command_incr}
use fq_client_go.Exec.{Exec}
use fq_client_go.Tcp.{TcpClient, Session, send}
use fq_client_go.Tcp.Frames.{frame}
use fq_client_go.Tcp.Progress.{IsReady, Succeeds}
use fq_client_go.Tcp.Exchange.{send-Succeeds}
use fq_client_go.Tcp.Retry.{with_reconnect, send_with_reconnect}
use fq_client_go.Tcp.Recovery.{with_reconnect-ok}
use fq_client_go.Pool.{Target, World, Pool, get_from, get_connection, taken, release_connection}
use fq_client_go.Pool.Laws.{IsSound, release_connection-cases, given_back}
use fq_client_go.Client.{
  with_connection, with_got, returned, released, exchange, sent_result, parsed_result,
  status_result, fail_with, uint_command, bool_command, incr,
}

-- The pool is open, its next connection is `c` and works, and behind the request `resp` arrives
-- there; request and response are within the limit.
pub record Serves (w : World) (c : TcpClient) (rest : List TcpClient) (request resp left : Bytes)
    : Type 0 where
  pub is_open : w.pool.closed ≡ false
  pub sound : IsSound w.pool
  pub next : w.pool.idle ≡ c ∷ rest
  pub ready : IsReady (record { client = c; env = w.env })
  pub arrived : c.connection.inbox ≡ frame resp ++ left
  pub fits : length request ≤ c.max_message_size
  pub small : length resp ≤ c.max_message_size

-- The call returned `r`; it sent the request as one frame and read one frame, its connection is the
-- last of the idle ones, and nothing more is out than before.
pub record Answered {A : Type 0} (out : Option (Result A × World)) (r : Result A) (w : World)
    (c : TcpClient) (rest : List TcpClient) (request left : Bytes) : Type 0 where
  pub client : TcpClient
  pub world : World
  pub returns : out ≡ some (r, world)
  pub idle : world.pool.idle ≡ rest ++ client ∷ []
  pub still_open : world.pool.closed ≡ false
  pub outstanding : world.pool.outstanding ≡ w.pool.outstanding
  pub sent : client.connection.sent ≡ c.connection.sent ++ frame request
  pub inbox : client.connection.inbox ≡ left

-- The pool while the next connection is out.
abbrev pub lent : World → List TcpClient → Pool
lent w rest = record w.pool { idle = rest; outstanding = suc w.pool.outstanding }

pub get_connection-next :
    (target : Target) (w : World) (c : TcpClient) (rest : List TcpClient)
    → w.pool.closed ≡ false
    → w.pool.idle ≡ c ∷ rest
    → get_connection target w ≡ (ok c, record { pool = lent w rest; env = w.env })
unfolding get_connection get_from taken
get_connection-next target w c rest o e =
    (λ i. if o i then (err (sentinel conn_pool_closed), w) else get_from target w w.pool.idle)
    ∙ ap (get_from target w) e

pub release_connection-lent :
    (w : World) (d : TcpClient) (c : TcpClient) (rest : List TcpClient) (env : Env)
    → w.pool.closed ≡ false
    → IsSound w.pool
    → w.pool.idle ≡ c ∷ rest
    → release_connection d (record { pool = lent w rest; env = env })
      ≡ some (given_back d (record { pool = lent w rest; env = env }))
release_connection-lent w d c rest env o s e =
    elim (release_connection-cases d (record { pool = lent w rest; env = env }) o) [
      | inl (x, full) ↦ absurd (omega (arith, s.room, ap length e))
      | inr (x, room) ↦ x
    ]

-- The pool is open, and its next connection is `c`.
pub record Lends (w : World) (c : TcpClient) (rest : List TcpClient) : Type 0 where
  pub is_open : w.pool.closed ≡ false
  pub sound : IsSound w.pool
  pub next : w.pool.idle ≡ c ∷ rest

module _ {A B : Type 0} (parse : Bytes → Result (Response A)) (finish : A → B)
    (zero_value : B) where
  -- Whatever way of sending succeeds on the connection.
  pub sent-Answered :
      (send_it : Exec Session Bytes) (target : Target) (w : World) (c : TcpClient)
      (rest : List TcpClient) (request resp left : Bytes)
      → Lends w c rest
      → Succeeds
          (send_it (record { client = c; env = w.env }))
          resp
          (record { client = c; env = w.env })
          (frame request)
          left
      → Answered
          (with_connection target (exchange (with_reconnect send_it) parse finish zero_value) w)
          (parsed_result finish zero_value (parse resp))
          w
          c
          rest
          request
          left
  unfolding with_connection with_got returned released exchange sent_result
  sent-Answered send_it target w c rest request resp left s h =
      let body = exchange (with_reconnect send_it) parse finish zero_value in
      let t = (send_it (record { client = c; env = w.env })).1 in
      let sent_it = with_reconnect-ok send_it (record { client = c; env = w.env }) resp h.result in
      let v = given_back t.client (record { pool = lent w rest; env = t.env }) in
      let r = parsed_result finish zero_value (parse resp) in
      record {
        client = t.client;
        world = v;
        returns =
            ap (with_got body) (get_connection-next target w c rest s.is_open s.next)
            ∙ ap (λ o. returned (lent w rest) (sent_result parse finish zero_value o)) sent_it
            ∙ ap (released r)
                (release_connection-lent w t.client c rest t.env s.is_open s.sound s.next);
        idle = refl;
        still_open = s.is_open;
        outstanding = omega arith;
        sent = h.progress.sent;
        inbox = h.progress.inbox;
      }

  pub exchange-Answered :
      (target : Target) (ctx : Ctx) (w : World) (c : TcpClient) (rest : List TcpClient)
      (request resp left : Bytes)
      → Serves w c rest request resp left
      → Answered
          (with_connection target
            (exchange (send_with_reconnect ctx request) parse finish zero_value)
            w)
          (parsed_result finish zero_value (parse resp))
          w
          c
          rest
          request
          left
  unfolding send_with_reconnect
  exchange-Answered target ctx w c rest request resp left s =
      sent-Answered (send ctx request) target w c rest request resp left
        (record { is_open = s.is_open; sound = s.sound; next = s.next })
        (send-Succeeds ctx request resp left (record { client = c; env = w.env }) s.ready s.arrived
          s.fits s.small)

-- `Incr` over a pool whose next connection works: it sends the command as one frame, and when the
-- response frame carries a number of 64 bits it returns that number, gives the connection back, and
-- leaves what arrives behind the response unread.
pub incr-Answered :
    (target : Target) (ctx : Ctx) (key : CappingKey) (n : ℕ) (w : World) (c : TcpClient)
    (rest : List TcpClient) (left : Bytes)
    → n < 2 ^ 64
    → Serves w c rest (write_command [] command_incr key) (ok_wire (format_uint n ∷ [])) left
    → Answered (incr target ctx key w) (ok n) w c rest (write_command [] command_incr key) left
unfolding incr uint_command parsed_result status_result parse_response ok_wire
incr-Answered target ctx key n w c rest left l s =
    subst
      (λ r. Answered (incr target ctx key w) r w c rest (write_command [] command_incr key) left)
      (ap (parsed_result (λ v. v) 0) (parse_response-number n l))
      (exchange-Answered parse_response (λ v. v) 0 target ctx w c rest
        (write_command [] command_incr key) (ok_wire (format_uint n ∷ [])) left s)

-- Every method that returns a truth value, over a pool whose next connection works: when the response
-- frame carries an error code and text, the call returns that protocol error, the connection is back
-- in the pool, and the command was sent as one frame.
pub bool_command-Answered :
    (target : Target) (ctx : Ctx) (request : Bytes) (code : ℕ) (text : Bytes) (w : World)
    (c : TcpClient) (rest : List TcpClient) (left : Bytes)
    → code ≤ 9999
    → Serves w c rest request (error_wire code text) left
    → Answered (bool_command target ctx request w) (err (protocol code text)) w c rest request left
unfolding bool_command parsed_result status_result fail_with
bool_command-Answered target ctx request code text w c rest left l s =
    subst (λ r. Answered (bool_command target ctx request w) r w c rest request left)
      (ap (parsed_result (λ v. v == 1) false) (parse_response-error_wire code text l))
      (exchange-Answered parse_response (λ v. v == 1) false target ctx w c rest request
        (error_wire code text) left s)
