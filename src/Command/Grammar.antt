-- ===== src/Command/Grammar.antt =====
-- The commands as the server reads them: from the words of a line to the request.
use fq_client_go.Common.{
  ℕ, ◌<◌, ◌^◌, Option, none, some, List, [], ◌∷◌, Bytes, codes, ◌≡◌, if◌then◌else◌,
}
use fq_client_go.Text.{bytes_eq}
use fq_client_go.Decimal.{format_uint, parse_uint}
use fq_client_go.Decimal.RoundTrip.{parse_uint-format_uint}
use fq_client_go.Types.{CappingKey}
use fq_client_go.Command.{
  command_incr, command_get, command_del, command_mdel, command_watch, command_rlimit,
  command_stream, command_pstream, command_quota, command_qstream, command_qpstream, command_scan,
  command_pscan, command_flushdb, command_truncate, command_inspect, rlimit_algorithm_fw,
  rlimit_algorithm_sw, rlimit_algorithm_tb,
}
use fq_client_go.Command.Request.{
  Request, incr, get, watch, del, mdel, rlimit_fixed_window, rlimit_sliding_window,
  rlimit_token_bucket, quota_acquire, quota_acquire_lease, quota_acquire_n, quota_set, quota_set_n,
  quota_release, quota_delete, quota_info, scan, pscan, flush_db, truncate, stream, qstream,
  pstream, qpstream, inspect,
}

infixl 5 ◌>>=◌
abbrev pub ◌>>=◌ : {A B : Type 0} → Option A → (A → Option B) → Option B
none >>= f = none
some a >>= f = f a

unfoldable pub u32 : Bytes → Option ℕ
u32 = parse_uint 32

pub u32-format_uint : (n : ℕ) → n < 2 ^ 32 → u32 (format_uint n) ≡ some n
unfolding u32
u32-format_uint n h = parse_uint-format_uint 32 n h

read_key : (CappingKey → Request) → List Bytes → Option Request
read_key make (key ∷ capping ∷ []) = do
  n ← u32 capping
  some (make (record { key = key; capping = n }))
read_key make _ = none

unfoldable pub read_key_list : List Bytes → Option (List CappingKey)
read_key_list [] = some []
read_key_list (key ∷ capping ∷ rest) = do
  n ← u32 capping
  keys ← read_key_list rest
  some (record { key = key; capping = n } ∷ keys)
read_key_list _ = none

read_mdel : List Bytes → Option Request
unfolding read_key_list
read_mdel (word ∷ []) = if bytes_eq word [] then some (mdel []) else none
read_mdel args = do keys ← read_key_list args; some (mdel keys)

read_rlimit : List Bytes → Option Request
read_rlimit (algorithm ∷ key ∷ limit ∷ window ∷ []) = do
  n ← u32 limit
  w ← u32 window
  if bytes_eq algorithm rlimit_algorithm_fw
      then some (rlimit_fixed_window (record { key = key; window = w }) n)
      else if bytes_eq algorithm rlimit_algorithm_sw
      then some (rlimit_sliding_window (record { key = key; window = w }) n)
      else none
read_rlimit (algorithm ∷ key ∷ capacity ∷ refill ∷ window ∷ []) = do
  n ← u32 capacity
  r ← u32 refill
  w ← u32 window
  if bytes_eq algorithm rlimit_algorithm_tb
      then some (rlimit_token_bucket (record { key = key; window = w }) n r)
      else none
read_rlimit _ = none

unfoldable pub read_ttl : List Bytes → Option (List ℕ)
read_ttl [] = some []
read_ttl (ttl ∷ []) = do n ← u32 ttl; some (n ∷ [])
read_ttl _ = none

read_acq : List Bytes → Option Request
read_acq (name ∷ amount ∷ client ∷ rest) = do
  n ← u32 amount
  ttl ← read_ttl rest
  some (quota_acquire name n client ttl)
read_acq _ = none

read_acql : List Bytes → Option Request
read_acql (name ∷ limit ∷ amount ∷ client ∷ rest) = do
  l ← u32 limit
  n ← u32 amount
  ttl ← read_ttl rest
  some (quota_acquire_lease name l n client ttl)
read_acql _ = none

read_acqn : List Bytes → Option Request
read_acqn (name ∷ client ∷ rest) = do ttl ← read_ttl rest; some (quota_acquire_n name client ttl)
read_acqn _ = none

read_set : List Bytes → Option Request
read_set (name ∷ limit ∷ []) = do n ← u32 limit; some (quota_set name n)
read_set _ = none

read_setn : List Bytes → Option Request
read_setn (name ∷ limit ∷ clients ∷ []) = do
  n ← u32 limit
  c ← u32 clients
  some (quota_set_n name n c)
read_setn _ = none

read_rel : List Bytes → Option Request
read_rel (name ∷ client ∷ []) = some (quota_release name client)
read_rel _ = none

read_name : (Bytes → Request) → List Bytes → Option Request
read_name make (name ∷ []) = some (make name)
read_name make _ = none

read_quota : List Bytes → Option Request
unfolding read_acq read_acql read_acqn read_set read_setn read_rel read_name read_ttl
read_quota [] = none
read_quota (verb ∷ args) =
    if bytes_eq verb (codes "ACQ")
    then read_acq args
    else if bytes_eq verb (codes "ACQL")
    then read_acql args
    else if bytes_eq verb (codes "ACQN")
    then read_acqn args
    else if bytes_eq verb (codes "SET")
    then read_set args
    else if bytes_eq verb (codes "SETN")
    then read_setn args
    else if bytes_eq verb (codes "REL")
    then read_rel args
    else if bytes_eq verb (codes "DEL")
    then read_name quota_delete args
    else if bytes_eq verb (codes "INF")
    then read_name quota_info args
    else none

read_scan : List Bytes → Option Request
read_scan (cursor ∷ count ∷ []) = do n ← u32 count; some (scan cursor n)
read_scan _ = none

read_pscan : List Bytes → Option Request
read_pscan (prefix ∷ cursor ∷ count ∷ []) = do n ← u32 count; some (pscan prefix cursor n)
read_pscan _ = none

read_bare : Request → List Bytes → Option Request
read_bare r [] = some r
read_bare r (a ∷ args) = none

read_section : List Bytes → Option Request
read_section [] = some (inspect [])
read_section (section ∷ []) = some (inspect section)
read_section _ = none

unfoldable pub decode : List Bytes → Option Request
unfolding read_key read_mdel read_rlimit read_quota read_scan read_pscan read_bare read_section
    read_name bytes_eq
decode [] = none
decode (verb ∷ args) =
    if bytes_eq verb command_incr
    then read_key incr args
    else if bytes_eq verb command_get
    then read_key get args
    else if bytes_eq verb command_watch
    then read_key watch args
    else if bytes_eq verb command_del
    then read_key del args
    else if bytes_eq verb command_mdel
    then read_mdel args
    else if bytes_eq verb command_rlimit
    then read_rlimit args
    else if bytes_eq verb command_quota
    then read_quota args
    else if bytes_eq verb command_scan
    then read_scan args
    else if bytes_eq verb command_pscan
    then read_pscan args
    else if bytes_eq verb command_flushdb
    then read_bare flush_db args
    else if bytes_eq verb command_truncate
    then read_bare truncate args
    else if bytes_eq verb command_stream
    then read_bare stream args
    else if bytes_eq verb command_qstream
    then read_bare qstream args
    else if bytes_eq verb command_pstream
    then read_name pstream args
    else if bytes_eq verb command_qpstream
    then read_name qpstream args
    else if bytes_eq verb command_inspect
    then read_section args
    else none
