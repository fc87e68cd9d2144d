-- ===== src/Sharded/Streams.antt =====
-- sharded_client.go: `Stream`, `PStream`, `QStream` and `QPStream`, which run the method of a client
-- on every shard.
use fq_client_go.Common.{
  ℕ, ◌<◌, ◌≡◌, ◌≢◌, refl, ap, arith, Bool, true, false, Option, none, some, List, [], ◌∷◌, ◌++◌,
  Bytes, length, length-append, get_elem?, map, set, All, All-set, All-replicate, All-get_elem?,
}
use fq_client_go.Errors.{Error}
use fq_client_go.Net.{Ctx}
use fq_client_go.Types.{LimitEvent, QuotaEvent}
use fq_client_go.Pool.{Target, World}
use fq_client_go.Tcp.Stream.{Handler}
use fq_client_go.Client.Streams.{limit_stream, limit_pstream}
use fq_client_go.Client
use fq_client_go.Sharded.Methods.{Shard}
use fq_client_go.Sharded.Events.{
  Trace, Phase, streaming, failed, cancelling, ended, returned, EventStreams, after_stream,
  is_ended, begun, Step, expire, hand_over, finish, send, cancel, close_errs, receive,
  receive_closed, Reach, start, step,
}
use fq_client_go.Sharded.Events.Moves.{Returned, nothing, first}
use fq_client_go.Sharded.Events.Order.{Reach-IsOrdered}

-- What a method is called with to see whether it makes the calls of a trace: the answers that the
-- caller's function gave, and what it was given.
pub record Replay (T : Type 0) : Type 0 where
  pub answers : List (Option Error)
  pub given : List T

unfoldable pub answered : {T : Type 0} → T → List (Option Error) → List T → Option Error × Replay T
answered event [] given = (none, record { answers = []; given = given ++ event ∷ [] })
answered event (a ∷ answers) given = (a, record { answers = answers; given = given ++ event ∷ [] })

unfoldable pub replay : {T : Type 0} → Handler (Replay T) T
unfolding answered
replay event h = answered event h.answers h.given

-- `Client.Stream` and the like.
abbrev pub Method : Type 0 → Type 0
Method T = Target → Handler (Replay T) T → World → Replay T → Option (Error × Replay T × World)

-- The method on shard `i` makes the calls of the trace and then returns the error.
pub data MethodEnds {T : Type 0} (method : Method T) (shards : List Shard) (i : ℕ) (trace : Trace T)
    : Option Error → Type 0 where
  method_ends :
      (shard : Shard) (e : Error) (w : World)
      → get_elem? shards i ≡ some shard
      → method shard.target replay shard.world
          (record { answers = map (λ c. c.1) trace; given = [] })
        ≡ some (e, record { answers = []; given = map (λ c. c.0) trace }, w)
      → MethodEnds method shards i trace (some e)

-- The states that a call reaches, in whatever order the goroutines run.
abbrev pub StreamEvents :
    {H T : Type 0} → Method T → List Shard → Handler H T → EventStreams H T → Type 0
StreamEvents method shards handle = Reach handle (MethodEnds method shards) (length shards)

module _ (ctx : Ctx) (shards : List Shard) {H : Type 0} where
  unfoldable pub Stream : Handler H LimitEvent → EventStreams H LimitEvent → Type 0
  Stream = StreamEvents (λ target. limit_stream target ctx) shards

  unfoldable pub PStream : Bytes → Handler H LimitEvent → EventStreams H LimitEvent → Type 0
  PStream prefix = StreamEvents (λ target. limit_pstream target ctx prefix) shards

  unfoldable pub QStream : Handler H QuotaEvent → EventStreams H QuotaEvent → Type 0
  QStream = StreamEvents (λ target. Client.Streams.qstream target ctx) shards

  unfoldable pub QpStream : Bytes → Handler H QuotaEvent → EventStreams H QuotaEvent → Type 0
  QpStream prefix = StreamEvents (λ target. Client.Streams.qpstream target ctx prefix) shards

abbrev is_running : {T : Type 0} → Phase T → Bool
is_running (streaming trace) = true
is_running (failed e) = true
is_running cancelling = false
is_running ended = false

-- No goroutine is done before an error was sent.
abbrev Busy : {H T : Type 0} → EventStreams H T → Type 0
Busy s = s.sent ≡ [] → All (λ p. is_running p ≡ true) s.phases

module _ {H T : Type 0} (handle : Handler H T) (method : Method T) (shards : List Shard) where
  finished-Busy :
      (s : EventStreams H T) (i : ℕ) (trace : Trace T) (r : Option Error)
      → MethodEnds method shards i trace r
      → Busy s
      → Busy (record s { phases = set s.phases i (after_stream r) })
  unfolding after_stream
  finished-Busy s i trace _ (method_ends shard e w q x) b n =
      All-set (λ p. is_running p ≡ true) s.phases i (failed e) (b n) refl

  Step-Busy :
      (s t : EventStreams H T) → Step handle (MethodEnds method shards) s t → Busy s → Busy t
  Step-Busy s _ (expire e f) b = b
  Step-Busy s _ (hand_over i trace event g) b =
      λ n. All-set (λ p. is_running p ≡ true) s.phases i _ (b n) refl
  Step-Busy s _ (finish i trace r g x) b = finished-Busy s i trace r x b
  Step-Busy s _ (send i e g x) b =
      λ n. absurd (omega (arith, ap length n, length-append s.sent (e ∷ [])))
  Step-Busy s _ (cancel i g) b = λ n.
      let x = All-get_elem? (λ p. is_running p ≡ true) s.phases i cancelling (b n) g in absurd cc
  Step-Busy s _ (close_errs all o) b = b
  Step-Busy s _ (receive e rest m q) b = b
  Step-Busy s _ (receive_closed m q c) b = b

  Reach-Busy : (s : EventStreams H T) → StreamEvents method shards handle s → Busy s
  unfolding begun
  Reach-Busy _ (start ctx h) =
      λ n. All-replicate (λ p. is_running p ≡ true) (length shards) (streaming []) refl
  Reach-Busy _ (step s t r k) = Step-Busy s t k (Reach-Busy s r)

  some_open :
      (ps : List (Phase T))
      → 0 < length ps
      → All (λ p. is_running p ≡ true) ps
      → All (λ p. is_ended p ≡ true) ps
      → ⊥
  some_open [] l h g = omega arith
  some_open (streaming trace ∷ ps) l h (g, _) = cc
  some_open (failed e ∷ ps) l h (g, _) = cc
  some_open (cancelling ∷ ps) l (h, _) g = cc
  some_open (ended ∷ ps) l (h, _) g = cc

  -- In whatever order the goroutines run: a call of a method that streams the events of all shards
  -- does not return nil, when there is a shard, since the method of one shard does not.
  pub StreamEvents-fails :
      (s : EventStreams H T) (r : Option Error)
      → 0 < length shards
      → StreamEvents method shards handle s
      → s.main ≡ returned r
      → r ≢ none
  StreamEvents-fails s r l h m =
      let a = Reach-IsOrdered handle (MethodEnds method shards) (length shards) s h in
      refuse r (a.result r m) a.started
    where
      refuse :
          (r : Option Error)
          → Returned s.phases s.ctx s.sent r
          → length s.phases ≡ length shards
          → r ≢ none
      refuse _ (nothing q all) k n = some_open s.phases (omega (arith, k, l)) (Reach-Busy s h q) all
      refuse _ (first x e rest q o) k n = cc
