-- ===== src/Response/Wire.antt =====
-- The frames as the server writes them: the wire format that the parsers are held to. Numbers are
-- decimal, flags are `0` or `1`, fields are separated by `;`, and the status stands before a `|`.
use fq_client_go.Common.{
  ℕ, ◌<◌, ◌^◌, ◌≡◌, ◌≢◌, refl, Bool, true, false, List, [], ◌∷◌, ◌++◌, Bytes, codes, All, Lacks,
  arith,
}
use fq_client_go.Errors.{Result, ok}
use fq_client_go.Text.{join}
use fq_client_go.Text.Parts.{split-join}
use fq_client_go.Decimal.{format_uint}
use fq_client_go.Decimal.RoundTrip.{IsDigit-Lacks, format_uint-All-IsDigit}
use fq_client_go.Types.{
  RateLimitResult, LimitEvent, QuotaAcquireResult, QuotaClientInfo, QuotaInfo, ScanKey, ScanResult,
  QuotaEvent,
}
use fq_client_go.Response.{
  multi_data_delimiter, resp_delimiter, frame_status_ok, frame_status_error, parse_frame, pad4,
}
use fq_client_go.Response.Readers.{HelloInfo, fields}
use fq_client_go.Response.Frame.{success_of, parse_frame-ok}

-- `ok|f0;f1;…`
unfoldable pub ok_wire : List Bytes → Bytes
ok_wire fs = frame_status_ok ++ resp_delimiter ∷ join fs multi_data_delimiter

-- `err|code|text`, the code in four digits
unfoldable pub error_wire : ℕ → Bytes → Bytes
error_wire code text =
    frame_status_error ++ resp_delimiter ∷ (pad4 (format_uint code) ++ resp_delimiter ∷ text)

abbrev pub bool_text : Bool → Bytes
bool_text false = codes "0"
bool_text true = codes "1"

abbrev pub rate_limit_fields : RateLimitResult → List Bytes
rate_limit_fields r =
    bool_text r.allowed
    ∷ format_uint r.current
    ∷ format_uint r.remaining
    ∷ format_uint r.reset_after
    ∷ []

abbrev pub quota_acquire_fields : QuotaAcquireResult → List Bytes
quota_acquire_fields r =
    bool_text r.acquired
    ∷ format_uint r.allocated
    ∷ format_uint r.used
    ∷ format_uint r.remaining
    ∷ format_uint r.expires_after
    ∷ []

abbrev pub client_fields : List QuotaClientInfo → List Bytes
client_fields [] = []
client_fields (c ∷ cs) =
    c.client_id ∷ format_uint c.amount ∷ format_uint c.expires_at ∷ client_fields cs

abbrev pub quota_info_fields : QuotaInfo → List Bytes
quota_info_fields q =
    format_uint q.limit ∷ format_uint q.used ∷ format_uint q.remaining ∷ client_fields q.clients

abbrev pub key_fields : List ScanKey → List Bytes
key_fields [] = []
key_fields (k ∷ ks) = k.key ∷ format_uint k.window ∷ key_fields ks

abbrev pub scan_fields : ScanResult → List Bytes
scan_fields r = r.cursor ∷ key_fields r.keys

abbrev pub limit_event_fields : LimitEvent → List Bytes
limit_event_fields e =
    e.key ∷ format_uint e.window ∷ format_uint e.current ∷ format_uint e.reset_after ∷ []

abbrev pub quota_event_fields : QuotaEvent → List Bytes
quota_event_fields e =
    e.event
    ∷ e.name
    ∷ e.client_id
    ∷ format_uint e.amount
    ∷ format_uint e.used
    ∷ format_uint e.remaining
    ∷ format_uint e.expires_at
    ∷ []

abbrev pub hello_fields : HelloInfo → List Bytes
hello_fields h =
    format_uint h.version ∷ format_uint h.max_message_size ∷ bool_text h.auth_required ∷ h.role ∷ []

-- The values that fit their machine words, with texts that a field can carry.
abbrev pub IsField : Bytes → Type 0
IsField = Lacks multi_data_delimiter

pub record RateLimitFits (r : RateLimitResult) : Type 0 where
  pub current : r.current < 2 ^ 64
  pub remaining : r.remaining < 2 ^ 64
  pub reset_after : r.reset_after < 2 ^ 32

pub record QuotaAcquireFits (r : QuotaAcquireResult) : Type 0 where
  pub allocated : r.allocated < 2 ^ 64
  pub used : r.used < 2 ^ 64
  pub remaining : r.remaining < 2 ^ 64
  pub expires_after : r.expires_after < 2 ^ 32

pub record ClientFits (c : QuotaClientInfo) : Type 0 where
  pub client_id : IsField c.client_id
  pub amount : c.amount < 2 ^ 64
  pub expires_at : c.expires_at < 2 ^ 32

pub record QuotaInfoFits (q : QuotaInfo) : Type 0 where
  pub limit : q.limit < 2 ^ 64
  pub used : q.used < 2 ^ 64
  pub remaining : q.remaining < 2 ^ 64
  pub clients : All ClientFits q.clients

pub record KeyFits (k : ScanKey) : Type 0 where
  pub key : IsField k.key
  pub window : k.window < 2 ^ 32

pub record ScanFits (r : ScanResult) : Type 0 where
  pub cursor : IsField r.cursor
  pub keys : All KeyFits r.keys

pub record LimitEventFits (e : LimitEvent) : Type 0 where
  pub key : IsField e.key
  pub window : e.window < 2 ^ 32
  pub current : e.current < 2 ^ 64
  pub reset_after : e.reset_after < 2 ^ 32

pub record QuotaEventFits (e : QuotaEvent) : Type 0 where
  pub event : IsField e.event
  pub name : IsField e.name
  pub client_id : IsField e.client_id
  pub amount : e.amount < 2 ^ 64
  pub used : e.used < 2 ^ 64
  pub remaining : e.remaining < 2 ^ 64
  pub expires_at : e.expires_at < 2 ^ 32

pub record HelloFits (h : HelloInfo) : Type 0 where
  pub version : h.version < 2 ^ 64
  pub max_message_size : h.max_message_size < 2 ^ 31
  pub positive : h.max_message_size ≢ 0
  pub role : IsField h.role

pub number-IsField : (n : ℕ) → IsField (format_uint n)
number-IsField n =
    IsDigit-Lacks multi_data_delimiter (format_uint n) (λ d. omega arith)
      (format_uint-All-IsDigit n)

pub bool_text-IsField : (b : Bool) → IsField (bool_text b)
bool_text-IsField true = omega arith
bool_text-IsField false = omega arith

-- A reader of fields that accepts these ones accepts the frame that carries them.
pub parse_ok_wire {ℓ} :
    {A : Type ℓ} (empty : A) (read : List Bytes → Result A) (fs : List Bytes) (v : A)
    → fs ≢ []
    → All IsField fs
    → read fs ≡ ok v
    → parse_frame empty (λ body. read (fields body)) (ok_wire fs) ≡ ok (success_of v)
unfolding ok_wire
parse_ok_wire empty read fs v n h e =
    rw
      (
        parse_frame-ok empty (λ body. read (fields body)) (join fs multi_data_delimiter),
        split-join multi_data_delimiter fs n h,
        e,
      )
      refl
