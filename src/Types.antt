-- ===== src/Types.antt =====
-- The data types of client.go: keys, results and events. A `uint32` or `uint64` is a natural number;
-- what bounds hold of it is proved where it is parsed.
use fq_client_go.Common.{ℕ, Bool, false, List, [], Bytes}

pub record CappingKey : Type 0 where
  pub key : Bytes
  pub capping : ℕ

pub record LimitKey : Type 0 where
  pub key : Bytes
  pub window : ℕ

pub record RateLimitResult : Type 0 where
  pub allowed : Bool
  pub current : ℕ
  pub remaining : ℕ
  pub reset_after : ℕ

pub record LimitEvent : Type 0 where
  pub key : Bytes
  pub window : ℕ
  pub current : ℕ
  pub reset_after : ℕ

pub record QuotaAcquireResult : Type 0 where
  pub acquired : Bool
  pub allocated : ℕ
  pub used : ℕ
  pub remaining : ℕ
  pub expires_after : ℕ

pub record QuotaClientInfo : Type 0 where
  pub client_id : Bytes
  pub amount : ℕ
  pub expires_at : ℕ

pub record QuotaInfo : Type 0 where
  pub limit : ℕ
  pub used : ℕ
  pub remaining : ℕ
  pub clients : List QuotaClientInfo

pub record ScanKey : Type 0 where
  pub key : Bytes
  pub window : ℕ

pub record ScanResult : Type 0 where
  pub cursor : Bytes
  pub keys : List ScanKey

pub record QuotaEvent : Type 0 where
  pub event : Bytes
  pub name : Bytes
  pub client_id : Bytes
  pub amount : ℕ
  pub used : ℕ
  pub remaining : ℕ
  pub expires_at : ℕ

-- The zero values that a function returns beside an error.
abbrev pub zero_rate_limit_result : RateLimitResult
zero_rate_limit_result = record { allowed = false; current = 0; remaining = 0; reset_after = 0 }

abbrev pub zero_limit_event : LimitEvent
zero_limit_event = record { key = []; window = 0; current = 0; reset_after = 0 }

abbrev pub zero_quota_acquire_result : QuotaAcquireResult
zero_quota_acquire_result = record {
  acquired = false;
  allocated = 0;
  used = 0;
  remaining = 0;
  expires_after = 0;
}

abbrev pub zero_quota_info : QuotaInfo
zero_quota_info = record { limit = 0; used = 0; remaining = 0; clients = [] }

abbrev pub zero_scan_result : ScanResult
zero_scan_result = record { cursor = []; keys = [] }

abbrev pub zero_quota_event : QuotaEvent
zero_quota_event = record {
  event = [];
  name = [];
  client_id = [];
  amount = 0;
  used = 0;
  remaining = 0;
  expires_at = 0;
}
