-- ===== src/Sharded/Events/Progress.antt =====
-- sharded_client.go: when `streamEvents` returns.
use fq_client_go.Common.{
  ℕ, suc, ◌≡◌, ◌≢◌, refl, ap, sym, ◌∙◌, Bool, true, false, Option, none, some, List, [], ◌∷◌, ◌++◌,
  get_elem?, set, All, ◌⊎◌, inl, inr,
}
use fq_client_go.Errors.{Error}
use fq_client_go.Tcp.Stream.{Handler}
use fq_client_go.Sharded.Events.{
  Trace, Phase, streaming, failed, cancelling, ended, receiving, returned, EventStreams,
  first_stream_error, is_ended, Step, expire, hand_over, finish, cancel, send, close_errs, receive,
  receive_closed, Reach,
}
use fq_client_go.Sharded.Events.Moves.{IsOrdered, is_cancelling}
use fq_client_go.Sharded.Events.Order.{Reach-IsOrdered, send-enabled}

module _ {T : Type 0} where
  abbrev is_failed : Phase T → Bool
  is_failed (streaming trace) = false
  is_failed (failed e) = true
  is_failed cancelling = false
  is_failed ended = false

  -- A goroutine that can send, if there is one.
  failed_or_not :
      (ps : List (Phase T))
      → ((i : ℕ) × (e : Error) × (get_elem? ps i ≡ some (failed e)))
        ⊎ All (λ p. is_failed p ≡ false) ps
  failed_or_not [] = inr tt
  failed_or_not (p ∷ ps) = here p (failed_or_not ps)
    where
      here :
          (p : Phase T)
          → ((i : ℕ) × (e : Error) × (get_elem? ps i ≡ some (failed e)))
            ⊎ All (λ p. is_failed p ≡ false) ps
          → ((i : ℕ) × (e : Error) × (get_elem? (p ∷ ps) i ≡ some (failed e)))
            ⊎ All (λ p. is_failed p ≡ false) (p ∷ ps)
      here (failed e) _ = inl (0, e, refl)
      here _ (inl (i, e, g)) = inl (suc i, e, g)
      here (streaming trace) (inr h) = inr (refl, h)
      here cancelling (inr h) = inr (refl, h)
      here ended (inr h) = inr (refl, h)

  -- A goroutine inside its stream, or all are done, where none is about to send or to cancel.
  streaming_or_not :
      (ps : List (Phase T))
      → All (λ p. is_failed p ≡ false) ps
      → All (λ p. is_cancelling p ≡ false) ps
      → ((i : ℕ) × (trace : Trace T) × (get_elem? ps i ≡ some (streaming trace)))
        ⊎ All (λ p. is_ended p ≡ true) ps
  streaming_or_not [] f c = inr tt
  streaming_or_not (streaming trace ∷ ps) f c = inl (0, trace, refl)
  streaming_or_not (failed e ∷ ps) (f, _) c = absurd cc
  streaming_or_not (cancelling ∷ ps) f (c, _) = absurd cc
  streaming_or_not (ended ∷ ps) (_, f) (_, c) = behind (streaming_or_not ps f c)
    where
      behind :
          ((i : ℕ) × (trace : Trace T) × (get_elem? ps i ≡ some (streaming trace)))
            ⊎ All (λ p. is_ended p ≡ true) ps
          → ((i : ℕ) × (trace : Trace T) × (get_elem? (ended ∷ ps) i ≡ some (streaming trace)))
            ⊎ All (λ p. is_ended p ≡ true) (ended ∷ ps)
      behind (inl (i, trace, g)) = inl (suc i, trace, g)
      behind (inr h) = inr (refl, h)

module _ {H T : Type 0} (handle : Handler H T) (Ends : ℕ → Trace T → Option Error → Type 0) where
  -- A step of the call alone: no event arrives, no stream returns, and the caller's function and
  -- context do nothing.
  abbrev pub is_own : {s t : EventStreams H T} → Step handle Ends s t → Bool
  is_own (expire e f) = false
  is_own (hand_over i trace event g) = false
  is_own (finish i trace r g x) = false
  is_own (send i e g x) = true
  is_own (cancel i g) = true
  is_own (close_errs all o) = true
  is_own (receive e rest m q) = true
  is_own (receive_closed m q c) = true

  -- A run of steps of the call alone, from one state to another.
  pub data OwnRun (s : EventStreams H T) : EventStreams H T → Type 0 where
    none_more : OwnRun s s
    one_more :
        (t u : EventStreams H T)
        → OwnRun s t
        → (k : Step handle Ends t u) → is_own k ≡ true
        → OwnRun s u

  -- The call can return, by steps that wait neither for the network nor for the caller's function.
  pub data CanReturn (s : EventStreams H T) : Type 0 where
    returns :
        (t : EventStreams H T) (r : Option Error) → OwnRun s t → t.main ≡ returned r → CanReturn s

  behind_step :
      (s t : EventStreams H T)
      → (k : Step handle Ends s t) → is_own k ≡ true
      → CanReturn t
      → CanReturn s
  behind_step s t k o (returns u r run m) = returns u r (prepend u run) m
    where
      prepend : (u : EventStreams H T) → OwnRun t u → OwnRun s u
      prepend _ none_more = one_more s t none_more k o
      prepend _ (one_more v u run l p) = one_more v u (prepend v run) l p

  receives :
      (s : EventStreams H T) (es : List Error)
      → s.main ≡ receiving
      → s.errs ≡ es
      → es ≢ []
      → CanReturn s
  receives s [] m q n = absurd (n refl)
  receives s (e ∷ rest) m q n =
      returns _ (first_stream_error s.ctx (some e))
        (one_more s _ none_more (receive e rest m q) refl) refl

  finds_closed :
      (s : EventStreams H T) → s.main ≡ receiving → s.errs ≡ [] → s.errs_closed ≡ true → CanReturn s
  finds_closed s m q c =
      returns _ (first_stream_error s.ctx none) (one_more s _ none_more (receive_closed m q c) refl)
        refl

  closes :
      (s : EventStreams H T) (c : Bool)
      → s.main ≡ receiving
      → s.errs ≡ []
      → s.errs_closed ≡ c
      → All (λ p. is_ended p ≡ true) s.phases
      → CanReturn s
  closes s true m q c h = finds_closed s m q c
  closes s false m q c h =
      behind_step s _ (close_errs h c) refl
        (finds_closed (record s { errs_closed = true }) m q refl)

  -- While `streamEvents` waits, in every state that its goroutines can reach: the channel is empty
  -- and some goroutine is inside the stream of its shard; or the call can return by sends, receives,
  -- `cancel` and `close` alone, without an event, a stream that ends or a context that expires.
  pub streams-CanReturn :
      (count : ℕ) (s : EventStreams H T)
      → Reach handle Ends count s
      → s.main ≡ receiving
      → CanReturn s
        ⊎ ((s.errs ≡ [])
            × (i : ℕ) × (trace : Trace T) × (get_elem? s.phases i ≡ some (streaming trace)))
  streams-CanReturn count s h m = by_channel s.errs refl
    where
      a : IsOrdered count s
      a = Reach-IsOrdered handle Ends count s h

      sends :
          s.errs ≡ []
          → ((i : ℕ) × (e : Error) × (get_elem? s.phases i ≡ some (failed e)))
          → CanReturn s
      sends q (i, e, g) =
          behind_step s _ (send i e g (send-enabled handle Ends count s i e h g).0) refl (
            receives
              (record s {
                phases = set s.phases i cancelling;
                errs = s.errs ++ e ∷ [];
                sent = s.sent ++ e ∷ [];
              })
              (e ∷ []) m (ap (λ es. es ++ e ∷ []) q) (λ n. cc))

      by_channel :
          (es : List Error)
          → s.errs ≡ es
          → CanReturn s
            ⊎ ((s.errs ≡ [])
                × (i : ℕ) × (trace : Trace T) × (get_elem? s.phases i ≡ some (streaming trace)))
      by_channel (e ∷ rest) q = inl (receives s (e ∷ rest) m q (λ n. cc))
      by_channel [] q = elim (failed_or_not s.phases) [
        | inl f ↦ inl (sends q f)
        | inr f ↦ elim (streaming_or_not s.phases f (a.quiet (sym (a.unread m) ∙ q))) [
          | inl (i, trace, g) ↦ inr (q, i, trace, g)
          | inr all ↦ inl (closes s s.errs_closed m q refl all)
        ]
      ]
