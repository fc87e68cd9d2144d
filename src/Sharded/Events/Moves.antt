-- ===== src/Sharded/Events/Moves.antt =====
-- sharded_client.go: what each kind of step of `streamEvents` keeps.
use fq_client_go.Common.{
  ℕ, ◌+◌, ◌≤◌, ◌≡◌, ◌≢◌, refl, ap, ◌∙◌, subst, arith, Bool, true, false, Option, none, some, List,
  [], ◌∷◌, ◌++◌, length, length-append, length-set, sum, sum-set, All-set, All-get_elem?, get_elem?,
  set, All, ◌⊎◌, inl, inr,
}
use fq_client_go.Errors.{Error}
use fq_client_go.Sharded.Events.{
  Phase, streaming, failed, cancelling, ended, receiving, returned, EventStreams,
  first_stream_error, is_ended,
}

-- A goroutine that may still send.
abbrev pub weight : {T : Type 0} → Phase T → ℕ
weight (streaming trace) = 1
weight (failed e) = 1
weight cancelling = 0
weight ended = 0

abbrev pub is_cancelling : {T : Type 0} → Phase T → Bool
is_cancelling cancelling = true
is_cancelling (streaming trace) = false
is_cancelling (failed e) = false
is_cancelling ended = false

-- What the caller was given. Nothing: no error was sent and every goroutine is done. An error: it is
-- the first that was sent, or that of the context.
pub data Returned {T : Type 0} (phases : List (Phase T)) (ctx : Option Error) (sent : List Error)
    : Option Error → Type 0 where
  nothing : sent ≡ [] → All (λ p. is_ended p ≡ true) phases → Returned phases ctx sent none
  first :
      (x e : Error) (rest : List Error)
      → sent ≡ e ∷ rest
      → (x ≡ e) ⊎ (ctx ≡ some x)
      → Returned phases ctx sent (some x)

pub record IsOrdered {H T : Type 0} (count : ℕ) (s : EventStreams H T) : Type 0 where
  pub started : length s.phases ≡ count
  -- the channel has room for every error that may still be sent
  pub room : length s.errs + sum weight s.phases ≤ count
  pub unread : s.main ≡ receiving → s.errs ≡ s.sent
  pub quiet : s.sent ≡ [] → All (λ p. is_cancelling p ≡ false) s.phases
  pub done : s.errs_closed ≡ true → All (λ p. is_ended p ≡ true) s.phases
  -- the streams go on until one fails or the call returns
  pub cause : s.cancelled ≡ true → (s.sent ≢ []) ⊎ (s.main ≢ receiving)
  pub result : (r : Option Error) → s.main ≡ returned r → Returned s.phases s.ctx s.sent r

append-ne-nil : (es : List Error) (e : Error) → (es ++ e ∷ []) ≢ []
append-ne-nil es e h = omega (arith, ap length h, length-append es (e ∷ []))

module _ {T : Type 0} where
  -- A goroutine that is not done rules out that all are.
  pub open-All :
      (ps : List (Phase T)) (i : ℕ) (p : Phase T)
      → get_elem? ps i ≡ some p
      → is_ended p ≡ false
      → All (λ p. is_ended p ≡ true) ps
      → ⊥
  open-All ps i p g o h = let x = All-get_elem? (λ p. is_ended p ≡ true) ps i p h g in cc

  -- A returned error stays the first one, when further ones are sent and goroutines go on.
  pub Returned-later :
      (ps qs : List (Phase T)) (ctx : Option Error) (sent more : List Error) (r : Option Error)
      → (All (λ p. is_ended p ≡ true) ps → ⊥)
      → Returned ps ctx sent r
      → Returned qs ctx (sent ++ more) r
  Returned-later ps qs ctx sent more _ o (nothing q h) = absurd (o h)
  Returned-later ps qs ctx sent more _ o (first x e rest q k) =
      first x e (rest ++ more) (ap (λ es. es ++ more) q) k

  pub Returned-moved :
      (ps qs : List (Phase T)) (ctx : Option Error) (sent : List Error) (r : Option Error)
      → (All (λ p. is_ended p ≡ true) ps → ⊥)
      → Returned ps ctx sent r
      → Returned qs ctx sent r
  Returned-moved ps qs ctx sent _ o (nothing q h) = absurd (o h)
  Returned-moved ps qs ctx sent _ o (first x e rest q k) = first x e rest q k

  pub Returned-expired :
      (ps : List (Phase T)) (ctx : Option Error) (e : Error) (sent : List Error) (r : Option Error)
      → ctx ≡ none
      → Returned ps ctx sent r
      → Returned ps (some e) sent r
  Returned-expired ps ctx e sent _ f (nothing q h) = nothing q h
  Returned-expired ps ctx e sent _ f (first x d rest q (inl k)) = first x d rest q (inl k)
  Returned-expired ps ctx e sent _ f (first x d rest q (inr k)) = absurd cc

  pub first-Returned :
      (ps : List (Phase T)) (ctx : Option Error) (e : Error) (rest sent : List Error)
      → sent ≡ e ∷ rest
      → Returned ps ctx sent (first_stream_error ctx (some e))
  unfolding first_stream_error
  first-Returned ps none e rest sent q = first e e rest q (inl refl)
  first-Returned ps (some c) e rest sent q = first c e rest q (inr refl)

module _ {H T : Type 0} (count : ℕ) (s : EventStreams H T) (a : IsOrdered count s) where
  pub moved-IsOrdered :
      (i : ℕ) (p q : Phase T) (h : H)
      → get_elem? s.phases i ≡ some p
      → is_ended p ≡ false
      → is_cancelling q ≡ false
      → weight q ≤ weight p
      → IsOrdered count (record s { phases = set s.phases i q; handled = h })
  moved-IsOrdered i p q h g o n w = record {
    started = length-set s.phases i q ∙ a.started;
    room = omega (arith, a.room, sum-set weight s.phases i p q g);
    unread = a.unread;
    quiet = λ e. All-set (λ p. is_cancelling p ≡ false) s.phases i q (a.quiet e) n;
    done = λ c. absurd (open-All s.phases i p g o (a.done c));
    cause = a.cause;
    result = λ r m. Returned-moved _ _ _ _ r (open-All s.phases i p g o) (a.result r m);
  }

  pub sent-IsOrdered :
      (i : ℕ) (e : Error)
      → get_elem? s.phases i ≡ some (failed e)
      → IsOrdered count (record s {
        phases = set s.phases i cancelling;
        errs = s.errs ++ e ∷ [];
        sent = s.sent ++ e ∷ [];
      })
  sent-IsOrdered i e g = record {
    started = length-set s.phases i cancelling ∙ a.started;
    room = omega (
      arith,
      a.room,
      length-append s.errs (e ∷ []),
      sum-set weight s.phases i (failed e) cancelling g,
    );
    unread = λ m. ap (λ es. es ++ e ∷ []) (a.unread m);
    quiet = λ q. absurd (append-ne-nil s.sent e q);
    done = λ c. absurd (open-All s.phases i (failed e) g refl (a.done c));
    cause = λ _. inl (append-ne-nil s.sent e);
    result =
        λ r m. Returned-later _ _ _ _ _ r (open-All s.phases i (failed e) g refl) (a.result r m);
  }

  pub cancelled-IsOrdered :
      (i : ℕ)
      → get_elem? s.phases i ≡ some cancelling
      → IsOrdered count (record s { phases = set s.phases i ended; cancelled = true })
  cancelled-IsOrdered i g = record {
    started = length-set s.phases i ended ∙ a.started;
    room = omega (arith, a.room, sum-set weight s.phases i cancelling ended g);
    unread = a.unread;
    quiet = λ e. All-set (λ p. is_cancelling p ≡ false) s.phases i ended (a.quiet e) refl;
    done = λ c. absurd (open-All s.phases i cancelling g refl (a.done c));
    cause = λ _. inl λ q.
        let x = All-get_elem? (λ p. is_cancelling p ≡ false) s.phases i cancelling (a.quiet q) g in
        cc;
    result = λ r m. Returned-moved _ _ _ _ r (open-All s.phases i cancelling g refl) (a.result r m);
  }

  pub received-IsOrdered :
      (x : Option Error) (es : List Error)
      → length es ≤ length s.errs
      → Returned s.phases s.ctx s.sent x
      → IsOrdered count (record s { errs = es; main = returned x; cancelled = true })
  received-IsOrdered x es l k = record {
    started = a.started;
    room = omega (arith, a.room);
    unread = λ m. absurd cc;
    quiet = a.quiet;
    done = a.done;
    cause = λ _. inr (λ m. cc);
    result = λ r m. subst (Returned s.phases s.ctx s.sent) (returned_inj m) k;
  }
    where
      returned_inj : {y : Option Error} → returned x ≡ returned y → x ≡ y
      returned_inj m = cc
