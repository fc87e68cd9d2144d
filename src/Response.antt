-- ===== src/Response.antt =====
-- response.go: what the parsers share. Each of the Go parsers finds the first `|`, takes what stands
-- before it as the status and the rest as the data, and branches on the status; `parse_frame` is
-- that common body, and the readers in the modules below are the `ok` branches.
pub mod Gives
pub mod Readers
pub mod Frame
pub mod Wire
pub mod RoundTrip
pub mod Lists
pub mod Values
pub mod Tame
pub mod Settled
pub mod Spelled
pub mod Exact
pub mod Replies
pub mod Protocol
use fq_client_go.Common.{
  ℕ, suc, Bool, true, false, Option, none, some, List, [], ◌∷◌, ◌++◌, Bytes, codes, take, drop, ltb,
  ◌==◌, if◌then◌else◌, length, replicate, ◌-◌,
}
use fq_client_go.Errors.{
  Error, sentinel, protocol, wrap, annotate, both, message, net_error, panic, Sentinel,
  corrupted_response, unknown_resp_status, Result, ok, err, ◌>>=◌,
}
use fq_client_go.Text.{bytes_eq, index_byte, split_n2}
use fq_client_go.Decimal.{parse_uint, format_uint}

abbrev pub resp_delimiter : ℕ
resp_delimiter = b'|'

abbrev pub multi_data_delimiter : ℕ
multi_data_delimiter = b';'

abbrev pub frame_status_ok : Bytes
frame_status_ok = codes "ok"

abbrev pub frame_status_error : Bytes
frame_status_error = codes "err"

abbrev pub frame_status_next : Bytes
frame_status_next = codes "nxt"

pub data ResponseStatus : Type 0 where
  unknown success error : ResponseStatus

-- `responseStruct` and its siblings: a status, a value of the response's type, and an error.
pub record Response {ℓ} (A : Type ℓ) : Type ℓ where
  pub status : ResponseStatus
  pub value : A
  pub err : Option Error

-- `err != nil || code > 9999`
pub checked_code : Option ℕ → Bytes → Error
checked_code none text = sentinel corrupted_response
checked_code (some code) text =
    if ltb 9999 code then sentinel corrupted_response else protocol code text

-- The test on `len(fields)` is the pattern.
pub protocol_fields : List Bytes → Error
unfolding checked_code
protocol_fields (code ∷ text ∷ []) = checked_code (parse_uint 16 code) text
protocol_fields _ = sentinel corrupted_response

unfoldable pub parse_error : Bytes → Error
unfolding protocol_fields
parse_error body = protocol_fields (split_n2 body resp_delimiter)

-- `errors.As(err, &protocolErr)`: the code of the first `*ProtocolError` of the chain.
unfoldable pub protocol_code : Error → Option ℕ
protocol_code (sentinel s) = none
protocol_code (protocol code text) = some code
protocol_code (net_error m) = none
protocol_code (message m) = none
protocol_code (panic m) = none
protocol_code (wrap m e) = protocol_code e
protocol_code (annotate e m) = protocol_code e
protocol_code (both a b) = elim (protocol_code a) [ some c ↦ some c | none ↦ protocol_code b ]

unfoldable pub is_protocol_code : Error → ℕ → Bool
unfolding protocol_code
is_protocol_code e code = elim (protocol_code e) [ none ↦ false | some c ↦ c == code ]

-- `fmt.Sprintf("%04d: %s", code, text)`, on the fields of the `*ProtocolError`.
abbrev pub pad4 : Bytes → Bytes
pad4 s = replicate (4 - length s) b'0' ++ s

unfoldable pub protocol_error_string : ℕ → Bytes → Bytes
protocol_error_string code text = pad4 (format_uint code) ++ codes ": " ++ text

unfoldable pub dispatch_status {ℓ} :
    {A : Type ℓ} → A → (Bytes → Result A) → Bytes → Bytes → Result (Response A)
dispatch_status empty read status body =
    if bytes_eq status frame_status_ok
    then (do v ← read body; ok (record { status = success; value = v; err = none }))
    else if bytes_eq status frame_status_error
    then ok (record { status = error; value = empty; err = some (parse_error body) })
    else err (sentinel unknown_resp_status)

-- `empty` is the zero value that stands in the response where the code sets none.
unfoldable pub parse_frame {ℓ} : {A : Type ℓ} → A → (Bytes → Result A) → Bytes → Result (Response A)
unfolding dispatch_status
parse_frame empty read resp = elim (index_byte resp resp_delimiter) [
  | none ↦ err (sentinel corrupted_response)
  | some idx ↦ dispatch_status empty read (take idx resp) (drop (suc idx) resp)
]

-- `strconv.ParseUint(…)`, whose error becomes `ErrCorruptedResponse`.
unfoldable pub uint_field : ℕ → Bytes → Result ℕ
uint_field bits s = elim (parse_uint bits s) [
  | none ↦ err (sentinel corrupted_response)
  | some v ↦ ok v
]

unfoldable pub parse_bool_field : Bytes → Result Bool
parse_bool_field s =
    if bytes_eq s (codes "0")
    then ok false
    else if bytes_eq s (codes "1")
    then ok true
    else err (sentinel corrupted_response)
