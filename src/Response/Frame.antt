-- ===== src/Response/Frame.antt =====
-- What the common body of the parsers does with each kind of frame.
use fq_client_go.Common.{
  ℕ, suc, ◌<◌, ◌^◌, none, some, ◌∷◌, ◌++◌, Bytes, take, drop, Lacks, ◌≡◌, ◌≢◌, inl, inr, refl, sym,
  ◌∙◌, arith, take-append, drop-append-suc, Bool-cases, Option-cases,
}
use fq_client_go.Errors.{
  Error, sentinel, corrupted_response, unknown_resp_status, Result, ok, err, ◌>>=◌, >>=-succeeds,
}
use fq_client_go.Text.{bytes_eq, index_byte}
use fq_client_go.Text.Cut.{
  bytes_eq-eq, bytes_eq-ne, index_byte-append, index_byte-Lacks, index_byte-some, index_byte-none,
}
use fq_client_go.Decimal.{format_uint}
use fq_client_go.Decimal.RoundTrip.{parse_uint-format_uint}
use fq_client_go.Response.{
  resp_delimiter, frame_status_ok, frame_status_error, Response, success, error, parse_frame,
  dispatch_status, parse_error, uint_field,
}

pub uint_field-format_uint : (bits n : ℕ) → n < 2 ^ bits → uint_field bits (format_uint n) ≡ ok n
unfolding uint_field
uint_field-format_uint bits n h = rw (parse_uint-format_uint bits n h, uint_field)

-- The answer to a frame is settled by its first delimiter.
abbrev pub success_of {ℓ} : {A : Type ℓ} → A → Response A
success_of v = record { status = success; value = v; err = none }

abbrev pub failure_of {ℓ} : {A : Type ℓ} → A → Error → Response A
failure_of empty e = record { status = error; value = empty; err = some e }

module _ {ℓ} {A : Type ℓ} (empty : A) (read : Bytes → Result A) where
  pub parse_frame-append :
      (status body : Bytes)
      → Lacks resp_delimiter status
      → parse_frame empty read (status ++ resp_delimiter ∷ body)
        ≡ dispatch_status empty read status body
  unfolding parse_frame
  parse_frame-append status body h = rw (
    index_byte-append resp_delimiter status body h,
    parse_frame,
    take-append status (resp_delimiter ∷ body),
    drop-append-suc status resp_delimiter body,
  )

  pub parse_frame-ok :
      (body : Bytes)
      → parse_frame empty read (frame_status_ok ++ resp_delimiter ∷ body)
        ≡ (read body >>= λ v. ok (success_of v))
  unfolding dispatch_status bytes_eq
  parse_frame-ok body = parse_frame-append frame_status_ok body (omega arith)

  pub parse_frame-error :
      (body : Bytes)
      → parse_frame empty read (frame_status_error ++ resp_delimiter ∷ body)
        ≡ ok (failure_of empty (parse_error body))
  unfolding dispatch_status bytes_eq
  parse_frame-error body = parse_frame-append frame_status_error body (omega arith)

  dispatch_status-other :
      (status body : Bytes)
      → status ≢ frame_status_ok
      → status ≢ frame_status_error
      → dispatch_status empty read status body ≡ err (sentinel unknown_resp_status)
  unfolding dispatch_status
  dispatch_status-other status body n m = elim (Bool-cases (bytes_eq status frame_status_ok)) [
    | inl e ↦ absurd (n (bytes_eq-eq _ _ e))
    | inr e ↦ rw e (elim (Bool-cases (bytes_eq status frame_status_error)) [
      | inl e' ↦ absurd (m (bytes_eq-eq _ _ e'))
      | inr e' ↦ rw e' refl
    ])
  ]

  pub parse_frame-other :
      (status body : Bytes)
      → Lacks resp_delimiter status
      → status ≢ frame_status_ok
      → status ≢ frame_status_error
      → parse_frame empty read (status ++ resp_delimiter ∷ body)
        ≡ err (sentinel unknown_resp_status)
  parse_frame-other status body h n m =
      parse_frame-append status body h ∙ dispatch_status-other status body n m

  pub parse_frame-no_delimiter :
      (resp : Bytes)
      → Lacks resp_delimiter resp
      → parse_frame empty read resp ≡ err (sentinel corrupted_response)
  unfolding parse_frame
  parse_frame-no_delimiter resp h = rw (index_byte-Lacks resp_delimiter resp h, parse_frame)

-- A response is of one of four kinds, by its first delimiter and its status.
pub data FrameKind (resp : Bytes) : Type 0 where
  ok_frame : (body : Bytes) → resp ≡ frame_status_ok ++ resp_delimiter ∷ body → FrameKind resp
  error_frame : (body : Bytes) → resp ≡ frame_status_error ++ resp_delimiter ∷ body → FrameKind resp
  other_frame :
      (status body : Bytes)
      → Lacks resp_delimiter status
      → status ≢ frame_status_ok
      → status ≢ frame_status_error
      → resp ≡ status ++ resp_delimiter ∷ body
      → FrameKind resp
  no_delimiter : Lacks resp_delimiter resp → FrameKind resp

status_kind :
    (resp status body : Bytes)
    → Lacks resp_delimiter status
    → resp ≡ status ++ resp_delimiter ∷ body
    → FrameKind resp
status_kind resp status body h e = elim (Bool-cases (bytes_eq status frame_status_ok)) [
  | inl is_ok ↦ ok_frame body (rw (bytes_eq-eq _ _ is_ok) at e)
  | inr not_ok ↦ elim (Bool-cases (bytes_eq status frame_status_error)) [
    | inl is_err ↦ error_frame body (rw (bytes_eq-eq _ _ is_err) at e)
    | inr not_err ↦ other_frame status body h (bytes_eq-ne _ _ not_ok) (bytes_eq-ne _ _ not_err) e
  ]
]

pub frame_kind : (resp : Bytes) → FrameKind resp
frame_kind resp = elim (Option-cases (index_byte resp resp_delimiter)) [
  | inl e ↦ no_delimiter (index_byte-none resp_delimiter resp e)
  | inr (i, e) ↦
      let (cut, lacks) = index_byte-some resp_delimiter resp i e in
      status_kind resp (take i resp) (drop (suc i) resp) lacks cut
]

module _ {ℓ} {A : Type ℓ} (empty : A) (read : Bytes → Result A) where
  -- The parse succeeds on the `ok` frames whose data can be read, and on the `err` frames.
  pub data Parsed (resp : Bytes) (r : Response A) : Type ℓ where
    read_value :
        (body : Bytes) (v : A)
        → resp ≡ frame_status_ok ++ resp_delimiter ∷ body
        → read body ≡ ok v
        → r ≡ success_of v
        → Parsed resp r
    read_error :
        (body : Bytes)
        → resp ≡ frame_status_error ++ resp_delimiter ∷ body
        → r ≡ failure_of empty (parse_error body)
        → Parsed resp r

  pub parse_frame-Parsed :
      (resp : Bytes) (r : Response A) → parse_frame empty read resp ≡ ok r → Parsed resp r
  parse_frame-Parsed resp r h = elim (frame_kind resp) [
    | ok_frame body e ↦
        let (v, eq, q) =
          >>=-succeeds (read body) (λ v. ok (success_of v))
            (sym (parse_frame-ok empty read body) ∙ rw e at h) in
        read_value body v e eq (cc)
    | error_frame body e ↦
        read_error body e (cc (sym (parse_frame-error empty read body) ∙ rw e at h))
    | other_frame status body l n m e ↦
        cc (sym (parse_frame-other empty read status body l n m) ∙ rw e at h)
    | no_delimiter l ↦ cc (sym (parse_frame-no_delimiter empty read resp l) ∙ h)
  ]

  pub Parsed-parse_frame :
      (resp : Bytes) (r : Response A) → Parsed resp r → parse_frame empty read resp ≡ ok r
  Parsed-parse_frame resp r (read_value body v e q s) =
      rw (e, parse_frame-ok empty read body, q, s) refl
  Parsed-parse_frame resp r (read_error body e s) = rw (e, parse_frame-error empty read body, s)
