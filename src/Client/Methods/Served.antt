-- ===== src/Client/Methods/Served.antt =====
-- client.go: each method on a connection that works, from the request to the result.
use fq_client_go.Common.{
  ℕ, ◌≤◌, ◌≡◌, refl, ap, sym, ◌∙◌, subst, false, List, [], ◌∷◌, map, ◌==◌, Bytes,
}
use fq_client_go.Errors.{protocol, Result, ok, err}
use fq_client_go.Net.{Ctx}
use fq_client_go.Types.{
  zero_rate_limit_result, zero_quota_acquire_result, zero_quota_info, zero_scan_result,
}
use fq_client_go.Response.{Response, parse_frame}
use fq_client_go.Response.Frame.{success_of, failure_of, parse_frame-error}
use fq_client_go.Response.Protocol.{parse_error-wire}
use fq_client_go.Response.Readers.{
  parse_response, parse_multi_response, parse_rate_limit_response, parse_quota_acquire_response,
  parse_quota_info_response, parse_scan_response,
}
use fq_client_go.Response.Wire.{ok_wire, error_wire}
use fq_client_go.Response.Replies.{reply_fields, ReplyFits, replies-ReadsAs}
use fq_client_go.Command.Request.{encode}
use fq_client_go.Tcp.{TcpClient}
use fq_client_go.Tcp.Retry.{send_with_reconnect}
use fq_client_go.Pool.{Target, World}
use fq_client_go.Client.Laws.{Serves, Answered, exchange-Answered}
use fq_client_go.Client.{
  Call, with_connection, exchange, parsed_result, status_result, fail_with, values_to_bools,
  uint_command, bool_command, acquire, scan_with, rlimit,
}
use fq_client_go.Client.Methods.{
  Kind, a_number, a_flag, some_flags, a_rate_limit, an_acquisition, a_quota, a_page, Sent, Value,
  value_of, reply_of, Method, request_of, call,
}
use fq_client_go.Client.Methods
use fq_client_go.Client

-- The parser of a kind, and what stands beside an error.
abbrev parser : (k : Kind) → Bytes → Result (Response (Sent k))
parser a_number = parse_response
parser a_flag = parse_response
parser some_flags = parse_multi_response
parser a_rate_limit = parse_rate_limit_response
parser an_acquisition = parse_quota_acquire_response
parser a_quota = parse_quota_info_response
parser a_page = parse_scan_response

abbrev zero_sent : (k : Kind) → Sent k
zero_sent a_number = 0
zero_sent a_flag = 0
zero_sent some_flags = []
zero_sent a_rate_limit = zero_rate_limit_result
zero_sent an_acquisition = zero_quota_acquire_result
zero_sent a_quota = zero_quota_info
zero_sent a_page = zero_scan_result

abbrev zero_value : (k : Kind) → Value k
zero_value a_number = 0
zero_value a_flag = false
zero_value some_flags = []
zero_value a_rate_limit = zero_rate_limit_result
zero_value an_acquisition = zero_quota_acquire_result
zero_value a_quota = zero_quota_info
zero_value a_page = zero_scan_result

-- What the methods of client.go make of a value.
abbrev finish : (k : Kind) → Sent k → Value k
finish a_number v = v
finish a_flag v = v == 1
finish some_flags vs = values_to_bools vs
finish a_rate_limit v = v
finish an_acquisition v = v
finish a_quota v = v
finish a_page v = v

values_to_bools_lem : (vs : List ℕ) → values_to_bools vs ≡ map (λ v. v == 1) vs
unfolding values_to_bools
values_to_bools_lem [] = refl
values_to_bools_lem (v ∷ vs) = ap (λ bs. (v == 1) ∷ bs) (values_to_bools_lem vs)

finish_lem : (k : Kind) (v : Sent k) → finish k v ≡ value_of k v
finish_lem a_number v = refl
finish_lem a_flag v = refl
finish_lem some_flags vs = values_to_bools_lem vs
finish_lem a_rate_limit v = refl
finish_lem an_acquisition v = refl
finish_lem a_quota v = refl
finish_lem a_page v = refl

-- The server's answer: a value, or a refusal with a code and a text.
pub data Answer (k : Kind) : Type 0 where
  gives : Sent k → Answer k
  refuses : ℕ → Bytes → Answer k

abbrev pub answer_wire : {k : Kind} → Answer k → Bytes
answer_wire {k} (gives v) = ok_wire (reply_fields (reply_of k v))
answer_wire (refuses code text) = error_wire code text

abbrev pub AnswerFits : {k : Kind} → Answer k → Type 0
AnswerFits {k} (gives v) = ReplyFits (reply_of k v)
AnswerFits (refuses code text) = code ≤ 9999

abbrev pub answer_result : {k : Kind} → Answer k → Result (Value k)
answer_result {k} (gives v) = ok (value_of k v)
answer_result (refuses code text) = err (protocol code text)

parser-ok_wire :
    (k : Kind) (v : Sent k)
    → ReplyFits (reply_of k v)
    → parser k (ok_wire (reply_fields (reply_of k v))) ≡ ok (success_of v)
parser-ok_wire a_number v f = replies-ReadsAs (reply_of a_number v) f
parser-ok_wire a_flag v f = replies-ReadsAs (reply_of a_flag v) f
parser-ok_wire some_flags v f = replies-ReadsAs (reply_of some_flags v) f
parser-ok_wire a_rate_limit v f = replies-ReadsAs (reply_of a_rate_limit v) f
parser-ok_wire an_acquisition v f = replies-ReadsAs (reply_of an_acquisition v) f
parser-ok_wire a_quota v f = replies-ReadsAs (reply_of a_quota v) f
parser-ok_wire a_page v f = replies-ReadsAs (reply_of a_page v) f

parse_frame-error_wire :
    {A : Type 0} (empty : A) (read : Bytes → Result A) (code : ℕ) (text : Bytes)
    → code ≤ 9999
    → parse_frame empty read (error_wire code text) ≡ ok (failure_of empty (protocol code text))
unfolding error_wire
parse_frame-error_wire empty read code text h =
    parse_frame-error empty read _
    ∙ ap (λ e. ok (failure_of empty e)) (parse_error-wire code text h)

parser-error_wire :
    (k : Kind) (code : ℕ) (text : Bytes)
    → code ≤ 9999
    → parser k (error_wire code text) ≡ ok (failure_of (zero_sent k) (protocol code text))
unfolding parse_response parse_multi_response parse_rate_limit_response parse_quota_acquire_response
    parse_quota_info_response parse_scan_response
parser-error_wire a_number code text h = parse_frame-error_wire _ _ code text h
parser-error_wire a_flag code text h = parse_frame-error_wire _ _ code text h
parser-error_wire some_flags code text h = parse_frame-error_wire _ _ code text h
parser-error_wire a_rate_limit code text h = parse_frame-error_wire _ _ code text h
parser-error_wire an_acquisition code text h = parse_frame-error_wire _ _ code text h
parser-error_wire a_quota code text h = parse_frame-error_wire _ _ code text h
parser-error_wire a_page code text h = parse_frame-error_wire _ _ code text h

parsed_result-served :
    (k : Kind) (a : Answer k)
    → AnswerFits a
    → parsed_result (finish k) (zero_value k) (parser k (answer_wire a)) ≡ answer_result a
unfolding parsed_result status_result fail_with
parsed_result-served k (gives v) f =
    ap (parsed_result (finish k) (zero_value k)) (parser-ok_wire k v f) ∙ ap ok (finish_lem k v)
parsed_result-served k (refuses code text) f =
    ap (parsed_result (finish k) (zero_value k)) (parser-error_wire k code text f)

-- A method is its request, sent on a connection of the pool, and the parser of its kind.
call_lem :
    {k : Kind} (m : Method k) (target : Target) (ctx : Ctx) (w : World)
    → call m target ctx w
      ≡ with_connection target
          (exchange
            (send_with_reconnect ctx (encode (request_of m)))
            (parser k)
            (finish k)
            (zero_value k))
          w
unfolding encode Client.incr Client.get Client.watch Client.del Client.mdel
    Client.rlimit_fixed_window Client.rlimit_sliding_window Client.rlimit_token_bucket
    Client.quota_acquire Client.quota_acquire_lease Client.quota_acquire_n Client.quota_set
    Client.quota_set_n Client.quota_release Client.quota_delete Client.quota_info Client.scan
    Client.pscan Client.flush_db Client.truncate uint_command bool_command rlimit acquire scan_with
call_lem (Methods.incr key) target ctx w = refl
call_lem (Methods.get key) target ctx w = refl
call_lem (Methods.watch key) target ctx w = refl
call_lem (Methods.del key) target ctx w = refl
call_lem (Methods.mdel keys) target ctx w = refl
call_lem (Methods.rlimit_fixed_window key limit) target ctx w = refl
call_lem (Methods.rlimit_sliding_window key limit) target ctx w = refl
call_lem (Methods.rlimit_token_bucket key capacity refill) target ctx w = refl
call_lem (Methods.acquire_quota name amount client ttl) target ctx w = refl
call_lem (Methods.acquire_lease name limit amount client ttl) target ctx w = refl
call_lem (Methods.acquire_n name client ttl) target ctx w = refl
call_lem (Methods.quota_set name limit) target ctx w = refl
call_lem (Methods.quota_set_n name limit clients) target ctx w = refl
call_lem (Methods.quota_release name client) target ctx w = refl
call_lem (Methods.quota_delete name) target ctx w = refl
call_lem (Methods.info name) target ctx w = refl
call_lem (Methods.scan cursor count) target ctx w = refl
call_lem (Methods.pscan prefix cursor count) target ctx w = refl
call_lem Methods.flush_db target ctx w = refl
call_lem Methods.truncate target ctx w = refl

-- Each of the twenty methods that one frame answers, over a pool whose next connection works: it
-- sends its request as one frame; when the server answers with a value that fits the types of its
-- fields, it returns that value, and when the server refuses with a code of four digits and a text,
-- it returns that protocol error. The connection is back in the pool behind the others, nothing more
-- is out than before, and what arrives behind the answer is left unread.
pub calls-Answered :
    {k : Kind} (m : Method k) (a : Answer k) (target : Target) (ctx : Ctx) (w : World)
    (c : TcpClient) (rest : List TcpClient) (left : Bytes)
    → AnswerFits a
    → Serves w c rest (encode (request_of m)) (answer_wire a) left
    → Answered (call m target ctx w) (answer_result a) w c rest (encode (request_of m)) left
calls-Answered {k} m a target ctx w c rest left f s =
    subst (λ o. Answered o (answer_result a) w c rest (encode (request_of m)) left)
      (sym (call_lem m target ctx w))
      (subst
        (λ r.
          Answered
            (with_connection target
              (exchange (send_with_reconnect ctx (encode (request_of m))) (parser k) (finish k)
                (zero_value k))
              w)
            r w c rest (encode (request_of m)) left)
        (parsed_result-served k a f)
        (exchange-Answered (parser k) (finish k) (zero_value k) target ctx w c rest
          (encode (request_of m)) (answer_wire a) left s))
