-- ===== src/Sharded/Events/Order.antt =====
-- sharded_client.go: `streamEvents` in every order of its goroutines: what is in the channel, and
-- what the caller gets.
use fq_client_go.Common.{
  ℕ, ◌<◌, ◌≡◌, refl, ap, sym, ◌∙◌, arith, Bool, true, false, Option, none, some, [], length,
  sum-set, sum-replicate, All-replicate, get_elem?, set, length-replicate,
}
use fq_client_go.Errors.{Error}
use fq_client_go.Tcp.Stream.{Handler}
use fq_client_go.Sharded.Events.{
  Trace, streaming, failed, ended, returned, EventStreams, after_stream, first_stream_error, begun,
  Step, expire, hand_over, finish, send, cancel, close_errs, receive, receive_closed, Reach, start,
  step,
}
use fq_client_go.Sharded.Events.Moves.{
  weight, open-All, Returned-expired, first-Returned, moved-IsOrdered, sent-IsOrdered,
  cancelled-IsOrdered, received-IsOrdered, is_cancelling, Returned, nothing, IsOrdered,
}

module _ {H T : Type 0} (handle : Handler H T) (Ends : ℕ → Trace T → Option Error → Type 0) where
  finished-IsOrdered :
      (count : ℕ) (s : EventStreams H T) (i : ℕ) (trace : Trace T) (r : Option Error)
      → IsOrdered count s
      → get_elem? s.phases i ≡ some (streaming trace)
      → IsOrdered count (record s { phases = set s.phases i (after_stream r) })
  unfolding after_stream
  finished-IsOrdered count s i trace none a g =
      moved-IsOrdered count s a i (streaming trace) ended s.handled g refl refl (omega arith)
  finished-IsOrdered count s i trace (some e) a g =
      moved-IsOrdered count s a i (streaming trace) (failed e) s.handled g refl refl (omega arith)

  Step-IsOrdered :
      (count : ℕ) (s t : EventStreams H T)
      → Step handle Ends s t
      → IsOrdered count s
      → IsOrdered count t
  unfolding first_stream_error
  Step-IsOrdered count s _ (expire e f) a = record {
    started = a.started;
    room = a.room;
    unread = a.unread;
    quiet = a.quiet;
    done = a.done;
    cause = a.cause;
    result = λ r m. Returned-expired _ _ e _ r f (a.result r m);
  }
  Step-IsOrdered count s _ (hand_over i trace event g) a =
      moved-IsOrdered count s a i (streaming trace) _ _ g refl refl (omega arith)
  Step-IsOrdered count s _ (finish i trace r g x) a = finished-IsOrdered count s i trace r a g
  Step-IsOrdered count s _ (send i e g x) a = sent-IsOrdered count s a i e g
  Step-IsOrdered count s _ (cancel i g) a = cancelled-IsOrdered count s a i g
  Step-IsOrdered count s _ (close_errs all o) a = record {
    started = a.started;
    room = a.room;
    unread = a.unread;
    quiet = a.quiet;
    done = λ _. all;
    cause = a.cause;
    result = a.result;
  }
  Step-IsOrdered count s _ (receive e rest m q) a =
      received-IsOrdered count s a _ rest (omega (arith, ap length q))
        (first-Returned s.phases s.ctx e rest s.sent (sym (a.unread m) ∙ q))
  Step-IsOrdered count s _ (receive_closed m q c) a =
      received-IsOrdered count s a none s.errs (omega arith)
        (nothing (sym (a.unread m) ∙ q) (a.done c))

  begun-IsOrdered :
      (count : ℕ) (ctx : Option Error) (h : H) → IsOrdered count (begun {H = H} {T = T} count ctx h)
  unfolding begun
  begun-IsOrdered count ctx h = record {
    started = length-replicate count (streaming []);
    room = omega (arith, sum-replicate (weight {T = T}) count (streaming []));
    unread = λ m. refl;
    quiet = λ q. All-replicate (λ p. is_cancelling p ≡ false) count (streaming []) refl;
    done = λ c. absurd cc;
    cause = λ c. absurd cc;
    result = λ r m. absurd cc;
  }

  pub Reach-IsOrdered :
      (count : ℕ) (s : EventStreams H T) → Reach handle Ends count s → IsOrdered count s
  Reach-IsOrdered count _ (start ctx h) = begun-IsOrdered count ctx h
  Reach-IsOrdered count _ (step s t r k) = Step-IsOrdered count s t k (Reach-IsOrdered count s r)

  -- In whatever order the goroutines of `streamEvents` run: when the call has returned, it returned
  -- nil, no error was ever sent and every goroutine is done; or it returned an error, and that is the
  -- first error that was sent, or the error of the caller's context.
  pub streams-Returned :
      (count : ℕ) (s : EventStreams H T) (r : Option Error)
      → Reach handle Ends count s
      → s.main ≡ returned r
      → Returned s.phases s.ctx s.sent r
  streams-Returned count s r h m = (Reach-IsOrdered count s h).result r m

  -- In whatever order the goroutines of `streamEvents` run: one that is about to send its error finds
  -- the channel open and with room, so that it neither blocks nor panics.
  pub send-enabled :
      (count : ℕ) (s : EventStreams H T) (i : ℕ) (e : Error)
      → Reach handle Ends count s
      → get_elem? s.phases i ≡ some (failed e)
      → (length s.errs < length s.phases) × (s.errs_closed ≡ false)
  send-enabled count s i e h g =
      let a = Reach-IsOrdered count s h in
      (
        omega (arith, a.room, a.started, sum-set weight s.phases i (failed e) ended g),
        not_closed a s.errs_closed refl,
      )
    where
      not_closed : IsOrdered count s → (b : Bool) → s.errs_closed ≡ b → s.errs_closed ≡ false
      not_closed a false c = c
      not_closed a true c = absurd (open-All s.phases i (failed e) g refl (a.done c))
