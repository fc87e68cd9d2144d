-- ===== src/Client/Inspection.antt =====
-- inspect.go: `Inspect`, from its command to the report, over a response in several frames.
use fq_client_go.Common.{
  ℕ, ◌≤◌, ◌≡◌, refl, ap, ◌∙◌, subst, List, [], ◌∷◌, ◌++◌, Bytes, codes, length, All,
}
use fq_client_go.Errors.{sentinel, wrap, both, protocol, corrupted_response, Result, ok, err, ◌>>=◌}
use fq_client_go.Decimal.{format_uint}
use fq_client_go.Net.{Ctx}
use fq_client_go.Response.{resp_delimiter, frame_status_ok, frame_status_error, pad4}
use fq_client_go.Response.Frame.{success_of, failure_of, parse_frame-ok, parse_frame-error}
use fq_client_go.Response.Protocol.{parse_error-wire}
use fq_client_go.Command.{write_inspect_command}
use fq_client_go.Tcp.{TcpClient, Session}
use fq_client_go.Tcp.Frames.{frame}
use fq_client_go.Tcp.Progress.{IsReady, Succeeds}
use fq_client_go.Tcp.Chunked.{send_chunked, join_status_and_data}
use fq_client_go.Tcp.Reassembly.{
  chunk_frames, status_frame, glue, PartFits, send_chunked-ok, send_chunked-error,
}
use fq_client_go.Tcp.Retry.{send_chunked_with_reconnect}
use fq_client_go.Pool.{Target, World}
use fq_client_go.Client.Laws.{Lends, Answered, sent-Answered}
use fq_client_go.Client.{
  parsed_result, status_result, fail_with, read_report, parse_inspect_response, inspect,
}

-- What the server sends: the text of a report in parts, or some parts and then a refusal.
pub data Chunks : Type 0 where
  reports : List Bytes → Bytes → Chunks
  refuses : List Bytes → ℕ → Bytes → Chunks

-- What stands in the last frame.
abbrev refusal : ℕ → Bytes → Bytes
refusal code text = pad4 (format_uint code) ++ resp_delimiter ∷ text

abbrev pub chunk_wire : Chunks → Bytes
chunk_wire (reports parts last) = chunk_frames parts (status_frame frame_status_ok last)
chunk_wire (refuses parts code text) =
    chunk_frames parts (status_frame frame_status_error (refusal code text))

abbrev pub ChunksFit : ℕ → Chunks → Type 0
ChunksFit limit (reports parts last) = All (PartFits limit) parts × PartFits limit last
ChunksFit limit (refuses parts code text) =
    All (PartFits limit) parts × (PartFits limit (refusal code text) × (code ≤ 9999))

-- The response that the frames are put together to.
abbrev whole : Chunks → Bytes
whole (reports parts last) = join_status_and_data frame_status_ok (glue parts ++ last)
whole (refuses parts code text) = join_status_and_data frame_status_error (refusal code text)

chunks-Succeeds :
    (ctx : Ctx) (request left : Bytes) (a : Chunks) (s : Session)
    → IsReady s
    → length request ≤ s.client.max_message_size
    → ChunksFit s.client.max_message_size a
    → s.client.connection.inbox ≡ chunk_wire a ++ left
    → Succeeds (send_chunked ctx request s) (whole a) s (frame request) left
chunks-Succeeds ctx request left (reports parts last) s ready fits (small, end) there =
    send_chunked-ok ctx request parts last left s ready fits small end there
chunks-Succeeds ctx request left (refuses parts code text) s ready fits (small, (end, _)) there =
    send_chunked-error ctx request parts (refusal code text) left s ready fits small end there

module _ {R : Type 0} (unmarshal : Bytes → Result R) (zero_report : R) where
  -- What `Inspect` makes of the text.
  unfoldable pub unmarshalled : Result R → Result R
  unmarshalled (ok report) = ok report
  unmarshalled (err e) = err (wrap (codes "parse response") (both (sentinel corrupted_response) e))

  unfoldable pub report_of : Chunks → Result R
  unfolding unmarshalled
  report_of (reports parts last) = unmarshalled (unmarshal (glue parts ++ last))
  report_of (refuses parts code text) = err (protocol code text)

  parsed-report :
      (limit : ℕ) (a : Chunks)
      → ChunksFit limit a
      → parsed_result (λ r. r) zero_report (parse_inspect_response unmarshal zero_report (whole a))
        ≡ report_of a
  unfolding parse_inspect_response join_status_and_data report_of parsed_result status_result
      fail_with
  parsed-report limit (reports parts last) h =
      ap (parsed_result (λ r. r) zero_report)
        (parse_frame-ok zero_report (read_report unmarshal) (glue parts ++ last))
      ∙ by_text (unmarshal (glue parts ++ last)) refl
    where
      by_text :
          (o : Result R)
          → unmarshal (glue parts ++ last) ≡ o
          → parsed_result
              (λ r. r)
              zero_report
              (read_report unmarshal (glue parts ++ last) >>= λ v. ok (success_of v))
            ≡ unmarshalled (unmarshal (glue parts ++ last))
      by_text (ok report) e = rw (e, read_report) refl
      by_text (err x) e = rw (e, read_report) refl
  parsed-report limit (refuses parts code text) (_, (_, l)) =
      ap (parsed_result (λ r. r) zero_report) (
        parse_frame-error zero_report (read_report unmarshal) (refusal code text)
        ∙ ap (λ e. ok (failure_of zero_report e)) (parse_error-wire code text l))

  -- `Inspect` over a pool whose next connection works: it sends its command as one frame and puts the
  -- frames of the response together. A report in any number of parts is returned as `json.Unmarshal`
  -- reads the parts in order; a text that this refuses is `ErrCorruptedResponse` with its error; and a
  -- refusal of the server, also behind some parts, is its protocol error. The connection is back in the
  -- pool, and what arrives behind the response is left unread.
  pub inspect-Answered :
      (target : Target) (ctx : Ctx) (section : Bytes) (a : Chunks) (w : World) (c : TcpClient)
      (rest : List TcpClient) (left : Bytes)
      → Lends w c rest
      → IsReady (record { client = c; env = w.env })
      → length (write_inspect_command [] section) ≤ c.max_message_size
      → ChunksFit c.max_message_size a
      → c.connection.inbox ≡ chunk_wire a ++ left
      → Answered
          (inspect target ctx unmarshal zero_report section w)
          (report_of a)
          w
          c
          rest
          (write_inspect_command [] section)
          left
  unfolding inspect send_chunked_with_reconnect
  inspect-Answered target ctx section a w c rest left l ready fits small there =
      subst
        (λ r.
          Answered (inspect target ctx unmarshal zero_report section w) r w c rest
            (write_inspect_command [] section) left)
        (parsed-report c.max_message_size a small)
        (sent-Answered (parse_inspect_response unmarshal zero_report) (λ r. r) zero_report
          (send_chunked ctx (write_inspect_command [] section)) target w c rest
          (write_inspect_command [] section) (whole a) left l
          (chunks-Succeeds ctx (write_inspect_command [] section) left a
            (record { client = c; env = w.env }) ready fits small there))
