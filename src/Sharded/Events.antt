-- ===== src/Sharded/Events.antt =====
-- sharded_client.go: `streamEvents`, which runs a stream of each shard in a goroutine of its own, and
-- `firstStreamError`. A goroutine's call of the caller's function, under the mutex, is one step; so is
-- each send, receive, `cancel` and `close`.
pub mod Moves
pub mod Order
pub mod Progress
use fq_client_go.Common.{
  ℕ, ◌<◌, Bool, true, false, Option, none, some, List, [], ◌∷◌, ◌++◌, length, get_elem?, set,
  replicate, All, ◌≡◌,
}
use fq_client_go.Errors.{Error}
use fq_client_go.Tcp.Stream.{Handler}

-- What a stream has handed to the caller's function, each with what that returned.
abbrev pub Trace : Type 0 → Type 0
Trace T = List (T × Option Error)

-- Where a goroutine stands: inside `stream`; before `errs <- err`; before `cancel()`; behind
-- `wg.Done()`.
pub data Phase (T : Type 0) : Type 0 where
  streaming : Trace T → Phase T
  failed : Error → Phase T
  cancelling : Phase T
  ended : Phase T

pub data Main : Type 0 where
  receiving : Main
  returned : Option Error → Main

-- The state of one call. `ctx` is what `ctx.Err()` returns, `cancelled` tells whether `cancel` was
-- called. `sent` is for the theorems alone: the errors sent on the channel so far, in order.
pub record EventStreams (H T : Type 0) : Type 0 where
  pub phases : List (Phase T)
  pub errs : List Error
  pub errs_closed : Bool
  pub cancelled : Bool
  pub ctx : Option Error
  pub main : Main
  pub handled : H
  pub sent : List Error

-- Behind `stream`: `if err != nil`
unfoldable pub after_stream : {T : Type 0} → Option Error → Phase T
after_stream none = ended
after_stream (some e) = failed e

-- `ctx.Err()`, and what the receive gave: `none` from the closed channel.
unfoldable pub first_stream_error : Option Error → Option Error → Option Error
first_stream_error ctx none = none
first_stream_error none (some e) = some e
first_stream_error (some c) (some e) = some c

abbrev pub is_ended : {T : Type 0} → Phase T → Bool
is_ended (streaming trace) = false
is_ended (failed e) = false
is_ended cancelling = false
is_ended ended = true

-- The goroutines are started, and the caller is about to receive.
unfoldable pub begun : {H T : Type 0} → ℕ → Option Error → H → EventStreams H T
begun count ctx h = record {
  phases = replicate count (streaming []);
  errs = [];
  errs_closed = false;
  cancelled = false;
  ctx = ctx;
  main = receiving;
  handled = h;
  sent = [];
}

-- `Ends i trace r`: the stream of shard `i` may return `r` behind `trace`.
module _ {H T : Type 0} (handle : Handler H T) (Ends : ℕ → Trace T → Option Error → Type 0) where
  pub data Step (s : EventStreams H T) : EventStreams H T → Type 0 where
    -- the caller's context is done
    expire : (e : Error) → s.ctx ≡ none → Step s (record s { ctx = some e })
    -- an event, under `handleMu`
    hand_over :
        (i : ℕ) (trace : Trace T) (event : T)
        → get_elem? s.phases i ≡ some (streaming trace)
        → Step s (record s {
          phases = set s.phases i (streaming (trace ++ (event, (handle event s.handled).0) ∷ []));
          handled = (handle event s.handled).1;
        })
    -- `stream` returns
    finish :
        (i : ℕ) (trace : Trace T) (r : Option Error)
        → get_elem? s.phases i ≡ some (streaming trace)
        → Ends i trace r
        → Step s (record s { phases = set s.phases i (after_stream r) })
    -- `errs <- err`, with room in the channel
    send :
        (i : ℕ) (e : Error)
        → get_elem? s.phases i ≡ some (failed e)
        → length s.errs < length s.phases
        → Step s (record s {
          phases = set s.phases i cancelling;
          errs = s.errs ++ e ∷ [];
          sent = s.sent ++ e ∷ [];
        })
    -- `cancel()`, and `wg.Done()`
    cancel :
        (i : ℕ)
        → get_elem? s.phases i ≡ some cancelling
        → Step s (record s { phases = set s.phases i ended; cancelled = true })
    -- `wg.Wait()` returns, and the channel is closed
    close_errs :
        All (λ p. is_ended p ≡ true) s.phases
        → s.errs_closed ≡ false
        → Step s (record s { errs_closed = true })
    -- `<-errs` gives an error; the deferred `cancel` runs
    receive :
        (e : Error) (rest : List Error)
        → s.main ≡ receiving
        → s.errs ≡ e ∷ rest
        → Step s (record s {
          errs = rest;
          main = returned (first_stream_error s.ctx (some e));
          cancelled = true;
        })
    -- `<-errs` of the closed channel
    receive_closed :
        s.main ≡ receiving
        → s.errs ≡ []
        → s.errs_closed ≡ true
        → Step s (record s { main = returned (first_stream_error s.ctx none); cancelled = true })

  pub data Reach (count : ℕ) : EventStreams H T → Type 0 where
    start : (ctx : Option Error) (h : H) → Reach count (begun count ctx h)
    step : (s t : EventStreams H T) → Reach count s → Step s t → Reach count t
