-- ===== src/Response/Readers.antt =====
-- response.go: the `ok` branch of each parser, and the parsers.
use fq_client_go.Common.{
  ℕ, zero, suc, ◌-◌, ◌%◌, ◌^◌, Bool, true, false, not, ◌||◌, Option, none, some, List, [], ◌∷◌,
  ◌++◌, Bytes, codes, take, drop, length, ltb, ◌==◌, if◌then◌else◌,
}
use fq_client_go.Errors.{sentinel, panic, corrupted_response, Result, ok, err, ◌>>=◌}
use fq_client_go.Text.{index_byte, split}
use fq_client_go.Decimal.{parse_uint}
use fq_client_go.Types.{
  RateLimitResult, LimitEvent, QuotaAcquireResult, QuotaClientInfo, QuotaInfo, ScanKey, ScanResult,
  QuotaEvent, zero_rate_limit_result, zero_limit_event, zero_quota_acquire_result, zero_quota_info,
  zero_scan_result, zero_quota_event,
}
use fq_client_go.Response.{
  multi_data_delimiter, Response, parse_frame, uint_field, parse_bool_field,
}

abbrev pub corrupted {ℓ} : {A : Type ℓ} → Result A
corrupted = err (sentinel corrupted_response)

-- `bytes.Split(data, []byte{multiDataDelimiter})`
abbrev pub fields : Bytes → List Bytes
fields body = split body multi_data_delimiter

-- `helloResponseStruct`, less its status and its error.
pub record HelloInfo : Type 0 where
  pub version : ℕ
  pub max_message_size : ℕ
  pub auth_required : Bool
  pub role : Bytes

abbrev pub zero_hello_info : HelloInfo
zero_hello_info = record { version = 0; max_message_size = 0; auth_required = false; role = [] }

-- `err != nil || maxMessageSize == 0`
unfoldable pub size_field : Bytes → Result ℕ
unfolding uint_field
size_field s = do n ← uint_field 31 s; if n == 0 then corrupted else ok n

unfoldable pub read_hello : List Bytes → Result HelloInfo
read_hello (f0 ∷ f1 ∷ f2 ∷ f3 ∷ []) = do
  version ← uint_field 64 f0
  size ← size_field f1
  required ← parse_bool_field f2
  ok (record { version = version; max_message_size = size; auth_required = required; role = f3 })
read_hello _ = corrupted

unfoldable pub parse_hello_response : Bytes → Result (Response HelloInfo)
parse_hello_response = parse_frame zero_hello_info (λ body. read_hello (fields body))

unfoldable pub parse_response : Bytes → Result (Response ℕ)
parse_response = parse_frame 0 (uint_field 64)

-- Where the next value ends: at the next `;`, or at the end of the data.
unfoldable pub next_end : Bytes → ℕ
next_end body = elim (index_byte body multi_data_delimiter) [ none ↦ length body | some i ↦ i ]

-- The end of one round: stop at a value that is none, or behind the last one.
unfoldable pub next_value : Option ℕ → Bool → List ℕ → (ℕ → Option (List ℕ)) → Option (List ℕ)
next_value none last values more = none
next_value (some v) true values more = some (values ++ v ∷ [])
next_value (some v) false values more = more v

-- The loop of `respDataToValues`. Each round but the last drops a `;` at least.
unfoldable pub values_loop : ℕ → Bytes → ℕ → List ℕ → Option (List ℕ)
unfolding next_value next_end
values_loop zero body idx values = none
values_loop (suc fuel) body idx values =
    next_value (parse_uint 64 (take idx body)) (idx == length body) values λ v.
      values_loop fuel (drop (suc idx) body) (next_end (drop (suc idx) body)) (values ++ v ∷ [])

unfoldable pub resp_data_to_values : Bytes → Option (List ℕ)
unfolding values_loop
resp_data_to_values body = elim (index_byte body multi_data_delimiter) [
  | none ↦ elim (parse_uint 64 body) [ none ↦ none | some v ↦ some (v ∷ []) ]
  | some idx ↦ values_loop (suc (length body)) body idx []
]

unfoldable pub read_values : Bytes → Result (List ℕ)
read_values body = elim (resp_data_to_values body) [ none ↦ corrupted | some vs ↦ ok vs ]

unfoldable pub parse_multi_response : Bytes → Result (Response (List ℕ))
parse_multi_response = parse_frame [] read_values

unfoldable pub read_rate_limit : List Bytes → Result RateLimitResult
read_rate_limit (f0 ∷ f1 ∷ f2 ∷ f3 ∷ []) = do
  allowed ← parse_bool_field f0
  current ← uint_field 64 f1
  remaining ← uint_field 64 f2
  reset_after ← uint_field 32 f3
  ok (record {
    allowed = allowed;
    current = current;
    remaining = remaining;
    reset_after = reset_after % 2 ^ 32;
  })
read_rate_limit _ = corrupted

unfoldable pub parse_rate_limit_response : Bytes → Result (Response RateLimitResult)
parse_rate_limit_response =
    parse_frame zero_rate_limit_result (λ body. read_rate_limit (fields body))

unfoldable pub read_quota_acquire : List Bytes → Result QuotaAcquireResult
read_quota_acquire (f0 ∷ f1 ∷ f2 ∷ f3 ∷ f4 ∷ []) = do
  acquired ← parse_bool_field f0
  allocated ← uint_field 64 f1
  used ← uint_field 64 f2
  remaining ← uint_field 64 f3
  expires_after ← uint_field 32 f4
  ok (record {
    acquired = acquired;
    allocated = allocated;
    used = used;
    remaining = remaining;
    expires_after = expires_after % 2 ^ 32;
  })
read_quota_acquire _ = corrupted

unfoldable pub parse_quota_acquire_response : Bytes → Result (Response QuotaAcquireResult)
parse_quota_acquire_response =
    parse_frame zero_quota_acquire_result (λ body. read_quota_acquire (fields body))

-- The loop over the triples of fields. A group that is not full would be read out of range.
unfoldable pub read_clients : List Bytes → Result (List QuotaClientInfo)
read_clients [] = ok []
read_clients (id ∷ f1 ∷ f2 ∷ rest) = do
  amount ← uint_field 64 f1
  expires_at ← uint_field 32 f2
  more ← read_clients rest
  ok (record { client_id = id; amount = amount; expires_at = expires_at % 2 ^ 32 } ∷ more)
read_clients _ = err (panic (codes "index out of range"))

unfoldable pub read_quota_fields : List Bytes → Result QuotaInfo
read_quota_fields (f0 ∷ f1 ∷ f2 ∷ rest) = do
  limit ← uint_field 64 f0
  used ← uint_field 64 f1
  remaining ← uint_field 64 f2
  clients ← read_clients rest
  ok (record { limit = limit; used = used; remaining = remaining; clients = clients })
read_quota_fields _ = err (panic (codes "index out of range"))

unfoldable pub read_quota_info : List Bytes → Result QuotaInfo
read_quota_info parts =
    if ltb (length parts) 3 || not ((length parts - 3) % 3 == 0)
    then corrupted
    else read_quota_fields parts

unfoldable pub parse_quota_info_response : Bytes → Result (Response QuotaInfo)
parse_quota_info_response = parse_frame zero_quota_info (λ body. read_quota_info (fields body))

-- The loop over the pairs of fields.
unfoldable pub read_keys : List Bytes → Result (List ScanKey)
read_keys [] = ok []
read_keys (key ∷ f1 ∷ rest) = do
  window ← uint_field 32 f1
  more ← read_keys rest
  ok (record { key = key; window = window % 2 ^ 32 } ∷ more)
read_keys _ = err (panic (codes "index out of range"))

unfoldable pub read_scan_fields : List Bytes → Result ScanResult
read_scan_fields (cursor ∷ rest) = do
  keys ← read_keys rest
  ok (record { cursor = cursor; keys = keys })
read_scan_fields _ = err (panic (codes "index out of range"))

unfoldable pub read_scan : List Bytes → Result ScanResult
read_scan parts =
    if ltb (length parts) 1 || not ((length parts - 1) % 2 == 0)
    then corrupted
    else read_scan_fields parts

unfoldable pub parse_scan_response : Bytes → Result (Response ScanResult)
parse_scan_response = parse_frame zero_scan_result (λ body. read_scan (fields body))

unfoldable pub read_limit_event : List Bytes → Result LimitEvent
read_limit_event (f0 ∷ f1 ∷ f2 ∷ f3 ∷ []) = do
  window ← uint_field 32 f1
  current ← uint_field 64 f2
  reset_after ← uint_field 32 f3
  ok (record {
    key = f0;
    window = window % 2 ^ 32;
    current = current;
    reset_after = reset_after % 2 ^ 32;
  })
read_limit_event _ = corrupted

unfoldable pub parse_limit_event_response : Bytes → Result (Response LimitEvent)
parse_limit_event_response = parse_frame zero_limit_event (λ body. read_limit_event (fields body))

unfoldable pub read_quota_event : List Bytes → Result QuotaEvent
read_quota_event (f0 ∷ f1 ∷ f2 ∷ f3 ∷ f4 ∷ f5 ∷ f6 ∷ []) = do
  amount ← uint_field 64 f3
  used ← uint_field 64 f4
  remaining ← uint_field 64 f5
  expires_at ← uint_field 32 f6
  ok (record {
    event = f0;
    name = f1;
    client_id = f2;
    amount = amount;
    used = used;
    remaining = remaining;
    expires_at = expires_at % 2 ^ 32;
  })
read_quota_event _ = corrupted

unfoldable pub parse_quota_event_response : Bytes → Result (Response QuotaEvent)
parse_quota_event_response = parse_frame zero_quota_event (λ body. read_quota_event (fields body))
