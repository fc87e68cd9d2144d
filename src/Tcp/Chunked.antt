-- ===== src/Tcp/Chunked.antt =====
-- tcp_client.go: `SendChunked`, a response in several frames.
use fq_client_go.Common.{
  ℕ, zero, suc, Option, none, some, [], ◌∷◌, ◌++◌, Bytes, codes, length, take, drop, if◌then◌else◌,
}
use fq_client_go.Errors.{sentinel, message, corrupted_response, Result, ok, err}
use fq_client_go.Text.{bytes_eq, index_byte}
use fq_client_go.Exec.{Exec, ◌>>◌}
use fq_client_go.Net.{Ctx}
use fq_client_go.Response.{resp_delimiter, frame_status_ok, frame_status_error, frame_status_next}
use fq_client_go.Tcp.{Session, check_request, arm, on_connection, write_frame, receive}

unfoldable pub join_status_and_data : Bytes → Bytes → Bytes
join_status_and_data status body = status ++ resp_delimiter ∷ body

-- What one frame does to the body so far: the loop goes on, or returns.
pub data Round : Type 0 where
  more : Bytes → Round
  done : Result Bytes → Round

unfoldable pub status_round : Bytes → Bytes → Bytes → Round
status_round body status part =
    if bytes_eq status frame_status_next
    then more (body ++ part)
    else if bytes_eq status frame_status_ok
    then done (ok (join_status_and_data frame_status_ok (body ++ part)))
    else if bytes_eq status frame_status_error
    then done (ok (join_status_and_data frame_status_error part))
    else done (err (message (codes "unexpected frame status " ++ status)))

unfoldable pub frame_round : Bytes → Bytes → Round
frame_round body frame = elim (index_byte frame resp_delimiter) [
  | none ↦ done (err (sentinel corrupted_response))
  | some idx ↦ status_round body (take idx frame) (drop (suc idx) frame)
]

-- The loops are over a state `S` that holds the client.
unfoldable pub chunk_round :
    {S : Type 0} → Round → S → (Bytes → S → Option (Result Bytes × S)) → Option (Result Bytes × S)
chunk_round (more grown) t next = next grown t
chunk_round (done r) t next = some (r, t)

unfoldable pub chunk_step :
    {S : Type 0}
    → Bytes
    → Result Bytes × S
    → (Bytes → S → Option (Result Bytes × S))
    → Option (Result Bytes × S)
unfolding chunk_round
chunk_step body (err e, t) next = some (err e, t)
chunk_step body (ok frame, t) next = chunk_round (frame_round body frame) t next

-- The loop; `none` means that the fuel ran out.
unfoldable pub chunks : ℕ → Ctx → Bytes → Session → Option (Result Bytes × Session)
unfolding chunk_step
chunks zero ctx body s = none
chunks (suc fuel) ctx body s =
    chunk_step body ((do arm ctx; receive) s) (λ grown t. chunks fuel ctx grown t)

-- Each frame takes a header off what arrives, so the bytes that arrive bound the rounds.
abbrev pub rounds : Session → ℕ
rounds s = suc (length s.client.connection.inbox)

-- The second case does not occur.
unfoldable pub or_stuck {ℓ} : {A : Type ℓ} → Option A → A → A
or_stuck (some a) b = a
or_stuck none b = b

unfoldable pub send_chunked : Ctx → Bytes → Exec Session Bytes
send_chunked ctx request = do
  check_request request
  arm ctx
  on_connection (write_frame request)
  λ s. or_stuck (chunks (rounds s) ctx [] s) (err (message (codes "out of fuel")), s)
