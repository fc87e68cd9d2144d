-- ===== src/Response/Spelled.antt =====
-- What the fields of a response spell, for each type of result. The relations do not use the readers.
use fq_client_go.Common.{
  ℕ, ◌<◌, ◌^◌, ◌≡◌, ◌≢◌, Bool, if◌then◌else◌, some, List, [], ◌∷◌, Bytes, codes,
}
use fq_client_go.Decimal.{scan_digits}
use fq_client_go.Types.{
  RateLimitResult, LimitEvent, QuotaAcquireResult, QuotaClientInfo, QuotaInfo, ScanKey, ScanResult,
  QuotaEvent,
}
use fq_client_go.Response.Readers.{HelloInfo}

-- The decimal number in the text, all its digits, which fits the width.
abbrev pub IsNumber : ℕ → Bytes → ℕ → Type 0
IsNumber bits s n = (s ≢ []) × (scan_digits 0 s ≡ some n) × (n < 2 ^ bits)

abbrev pub IsFlag : Bytes → Bool → Type 0
IsFlag s b = s ≡ (if b then codes "1" else codes "0")

abbrev pub NumbersSpelled : List Bytes → List ℕ → Type 0
NumbersSpelled [] [] = Unit {0}
NumbersSpelled (f ∷ fs) (n ∷ ns) = IsNumber 64 f n × NumbersSpelled fs ns
NumbersSpelled _ _ = ⊥

abbrev pub HelloSpelled : List Bytes → HelloInfo → Type 0
HelloSpelled (f0 ∷ f1 ∷ f2 ∷ f3 ∷ []) h =
    IsNumber 64 f0 h.version
    × IsNumber 31 f1 h.max_message_size
    × (h.max_message_size ≢ 0)
    × IsFlag f2 h.auth_required
    × (h.role ≡ f3)
HelloSpelled _ h = ⊥

abbrev pub RateLimitSpelled : List Bytes → RateLimitResult → Type 0
RateLimitSpelled (f0 ∷ f1 ∷ f2 ∷ f3 ∷ []) r =
    IsFlag f0 r.allowed
    × IsNumber 64 f1 r.current
    × IsNumber 64 f2 r.remaining
    × IsNumber 32 f3 r.reset_after
RateLimitSpelled _ r = ⊥

abbrev pub QuotaAcquireSpelled : List Bytes → QuotaAcquireResult → Type 0
QuotaAcquireSpelled (f0 ∷ f1 ∷ f2 ∷ f3 ∷ f4 ∷ []) r =
    IsFlag f0 r.acquired
    × IsNumber 64 f1 r.allocated
    × IsNumber 64 f2 r.used
    × IsNumber 64 f3 r.remaining
    × IsNumber 32 f4 r.expires_after
QuotaAcquireSpelled _ r = ⊥

-- Three fields for each client.
abbrev pub ClientsSpelled : List Bytes → List QuotaClientInfo → Type 0
ClientsSpelled [] [] = Unit {0}
ClientsSpelled (f0 ∷ f1 ∷ f2 ∷ fs) (c ∷ cs) =
    (c.client_id ≡ f0)
    × IsNumber 64 f1 c.amount
    × IsNumber 32 f2 c.expires_at
    × ClientsSpelled fs cs
ClientsSpelled _ _ = ⊥

abbrev pub QuotaInfoSpelled : List Bytes → QuotaInfo → Type 0
QuotaInfoSpelled (f0 ∷ f1 ∷ f2 ∷ fs) q =
    IsNumber 64 f0 q.limit
    × IsNumber 64 f1 q.used
    × IsNumber 64 f2 q.remaining
    × ClientsSpelled fs q.clients
QuotaInfoSpelled _ q = ⊥

-- Two fields for each key.
abbrev pub KeysSpelled : List Bytes → List ScanKey → Type 0
KeysSpelled [] [] = Unit {0}
KeysSpelled (f0 ∷ f1 ∷ fs) (k ∷ ks) = (k.key ≡ f0) × IsNumber 32 f1 k.window × KeysSpelled fs ks
KeysSpelled _ _ = ⊥

abbrev pub ScanSpelled : List Bytes → ScanResult → Type 0
ScanSpelled (f ∷ fs) r = (r.cursor ≡ f) × KeysSpelled fs r.keys
ScanSpelled _ r = ⊥

abbrev pub LimitEventSpelled : List Bytes → LimitEvent → Type 0
LimitEventSpelled (f0 ∷ f1 ∷ f2 ∷ f3 ∷ []) e =
    (e.key ≡ f0) × IsNumber 32 f1 e.window × IsNumber 64 f2 e.current × IsNumber 32 f3 e.reset_after
LimitEventSpelled _ e = ⊥

abbrev pub QuotaEventSpelled : List Bytes → QuotaEvent → Type 0
QuotaEventSpelled (f0 ∷ f1 ∷ f2 ∷ f3 ∷ f4 ∷ f5 ∷ f6 ∷ []) e =
    (e.event ≡ f0)
    × (e.name ≡ f1)
    × (e.client_id ≡ f2)
    × IsNumber 64 f3 e.amount
    × IsNumber 64 f4 e.used
    × IsNumber 64 f5 e.remaining
    × IsNumber 32 f6 e.expires_at
QuotaEventSpelled _ e = ⊥
