-- ===== src/Tcp/Progress.antt =====
-- tcp_client.go: a connection that works, and what a step on it sends and leaves.
use fq_client_go.Common.{◌^◌, ◌<◌, ◌≡◌, ap, sym, ◌∙◌, subst, [], ◌++◌, append_assoc, Bytes}
use fq_client_go.Errors.{Result, ok}
use fq_client_go.Exec.{Exec, proceed, proceed-ok}
use fq_client_go.Tcp.{Session}
use fq_client_go.Tcp.Frames.{IsOpen}

-- The connection works: it is open, writes and deadlines go through, and the buffers have the size
-- of the largest message, which fits a header.
pub record IsReady (s : Session) : Type 0 where
  pub wire : IsOpen s.client.connection
  pub deadlines : s.client.connection.deadline_steps ≡ []
  pub room : s.client.buffer_size ≡ s.client.max_message_size
  pub small : s.client.max_message_size < 2 ^ 32

-- From `s` to `t` the bytes `more` were sent, and `left` is still to be read.
pub record Progress (s t : Session) (more left : Bytes) : Type 0 where
  pub sent : t.client.connection.sent ≡ s.client.connection.sent ++ more
  pub inbox : t.client.connection.inbox ≡ left
  pub limit : t.client.max_message_size ≡ s.client.max_message_size
  pub fault : t.client.connection.fault ≡ s.client.connection.fault
  pub token : t.client.token ≡ s.client.token
  pub dials : t.env.dials ≡ s.env.dials
  pub ctx_errors : t.env.ctx_errors ≡ s.env.ctx_errors
  pub ready : IsReady t

-- A step that succeeded.
pub record Succeeds {A : Type 0} (out : Result A × Session) (a : A) (s : Session)
    (more left : Bytes) : Type 0 where
  pub result : out.0 ≡ ok a
  pub progress : Progress s out.1 more left

pub Progress-trans :
    (s t u : Session) (more most left rest : Bytes)
    → Progress s t more left
    → Progress t u most rest
    → Progress s u (more ++ most) rest
Progress-trans s t u more most left rest g h = record {
  sent =
      h.sent
      ∙ ap (λ (b : Bytes). b ++ most) g.sent
      ∙ append_assoc s.client.connection.sent more most;
  inbox = h.inbox;
  limit = h.limit ∙ g.limit;
  fault = h.fault ∙ g.fault;
  token = h.token ∙ g.token;
  dials = h.dials ∙ g.dials;
  ctx_errors = h.ctx_errors ∙ g.ctx_errors;
  ready = h.ready;
}

pub Succeeds-then :
    {A B : Type 0} (out : Result A × Session) (f : A → Exec Session B) (a : A) (b : B) (s : Session)
    (more most left rest : Bytes)
    → Succeeds out a s more left
    → Succeeds (f a out.1) b out.1 most rest
    → Succeeds (proceed out f) b s (more ++ most) rest
Succeeds-then out f a b s more most left rest g h =
    subst (λ o. Succeeds o b s (more ++ most) rest) (sym (proceed-ok out f a g.result))
      (record {
        result = h.result;
        progress = Progress-trans s out.1 (f a out.1).1 more most left rest g.progress h.progress;
      })
