-- ===== src/Errors.antt =====
-- Go's error values, and the results of functions that return one.
-- The sentinels of response.go, tcp_client.go, conn_pool.go, options.go and sharded_client.go, with
-- those of the standard library that the client tests for.
use fq_client_go.Common.{ℕ, Bool, false, ◌||◌, ◌≡◌, refl, Bytes, ◌==◌}

pub data Sentinel : Type 0 where
  corrupted_response unknown_resp_status : Sentinel
  conn_closed frame_too_large : Sentinel
  no_shards nil_sharding_func shard_index_out_of_range : Sentinel
  conn_pool_closed : Sentinel
  auth_failed tls_key_pair_incomplete tls_unknown_min_version : Sentinel
  eof unexpected_eof short_write net_closed : Sentinel
  context_canceled context_deadline_exceeded : Sentinel

-- Two sentinels are the same pointer when their places in this list are the same.
abbrev pub place : Sentinel → ℕ
place corrupted_response = 0
place unknown_resp_status = 1
place conn_closed = 2
place frame_too_large = 3
place no_shards = 4
place nil_sharding_func = 5
place shard_index_out_of_range = 6
place conn_pool_closed = 7
place auth_failed = 8
place tls_key_pair_incomplete = 9
place tls_unknown_min_version = 10
place eof = 11
place unexpected_eof = 12
place short_write = 13
place net_closed = 14
place context_canceled = 15
place context_deadline_exceeded = 16

pub data Error : Type 0 where
  sentinel : Sentinel → Error
  -- `&ProtocolError{Code, Message}`
  protocol : ℕ → Bytes → Error
  -- a value of the standard library that implements `net.Error`, by its message
  net_error : Bytes → Error
  -- an error with a message that wraps nothing
  message : Bytes → Error
  -- no error value: the goroutine panics (an index out of range, a nil pointer)
  panic : Bytes → Error
  -- `fmt.Errorf("…: %w", err)`
  wrap : Bytes → Error → Error
  -- `fmt.Errorf("%w: …", err)`
  annotate : Error → Bytes → Error
  -- `fmt.Errorf("%w: %w", a, b)`
  both : Error → Error → Error

-- `errors.Is(err, target)` for a sentinel target.
unfoldable pub error_is : Error → Sentinel → Bool
error_is (sentinel s) t = place s == place t
error_is (protocol c m) t = false
error_is (net_error m) t = false
error_is (message m) t = false
error_is (panic m) t = false
error_is (wrap m e) t = error_is e t
error_is (annotate e m) t = error_is e t
error_is (both a b) t = error_is a t || error_is b t

-- A function that returns a value and an error.
pub data Result {ℓ} (A : Type ℓ) : Type ℓ where
  ok : A → Result A
  err : Error → Result A

module _ {ℓ κ} {A : Type ℓ} {B : Type κ} where
  -- `if err != nil { return …, err }`, then what follows.
  infixl 5 ◌>>=◌
  abbrev pub ◌>>=◌ : Result A → (A → Result B) → Result B
  ◌>>=◌ (err e) next = err e
  ◌>>=◌ (ok value) next = next value

  -- A sequence that succeeds had a first step that did.
  pub >>=-succeeds :
      (first : Result A) (next : A → Result B) {last : B}
      → (first >>= next) ≡ ok last
      → (value : A) × (first ≡ ok value) × (next value ≡ ok last)
  >>=-succeeds (err e) next h = cc
  >>=-succeeds (ok value) next h = (value, refl, h)
