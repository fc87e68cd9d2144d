-- ===== src/Command.antt =====
-- client.go and inspect.go: the functions that write a command into a buffer.
-- `writes buf ps` stands for a call of `WriteString` or `WriteByte` on the buffer for each of `ps`.
pub mod Grammar
pub mod Request
pub mod Layout
pub mod Decode
use fq_client_go.Common.{
  ℕ, suc, ◌-◌, ◌<◌, Bool, true, false, List, [], ◌∷◌, ◌++◌, Bytes, codes, length, ltb,
  if◌then◌else◌,
}
use fq_client_go.Text.{bytes_eq}
use fq_client_go.Decimal.{format_uint}
use fq_client_go.Types.{CappingKey, LimitKey}

abbrev pub command_incr : Bytes
command_incr = codes "INCR"

abbrev pub command_get : Bytes
command_get = codes "GET"

abbrev pub command_del : Bytes
command_del = codes "DEL"

abbrev pub command_mdel : Bytes
command_mdel = codes "MDEL"

abbrev pub command_watch : Bytes
command_watch = codes "WATCH"

abbrev pub command_rlimit : Bytes
command_rlimit = codes "RLIMIT"

abbrev pub command_stream : Bytes
command_stream = codes "STREAM"

abbrev pub command_pstream : Bytes
command_pstream = codes "PSTREAM"

abbrev pub command_quota : Bytes
command_quota = codes "QUOTA"

abbrev pub command_qstream : Bytes
command_qstream = codes "QSTREAM"

abbrev pub command_qpstream : Bytes
command_qpstream = codes "QPSTREAM"

abbrev pub command_scan : Bytes
command_scan = codes "SCAN"

abbrev pub command_pscan : Bytes
command_pscan = codes "PSCAN"

abbrev pub command_flushdb : Bytes
command_flushdb = codes "FLUSHDB"

abbrev pub command_truncate : Bytes
command_truncate = codes "TRUNCATE"

abbrev pub command_hello : Bytes
command_hello = codes "HELLO"

abbrev pub command_inspect : Bytes
command_inspect = codes "INSPECT"

abbrev pub rlimit_algorithm_fw : Bytes
rlimit_algorithm_fw = codes "FW"

abbrev pub rlimit_algorithm_sw : Bytes
rlimit_algorithm_sw = codes "SW"

abbrev pub rlimit_algorithm_tb : Bytes
rlimit_algorithm_tb = codes "TB"

abbrev pub protocol_version : ℕ
protocol_version = 1

abbrev pub scan_cursor_initial : Bytes
scan_cursor_initial = codes "0"

abbrev pub space : ℕ
space = b' '

abbrev pub sp : Bytes
sp = space ∷ []

unfoldable pub writes : Bytes → List Bytes → Bytes
writes buf [] = buf
writes buf (p ∷ ps) = writes (buf ++ p) ps

unfoldable pub write_command : Bytes → Bytes → CappingKey → Bytes
write_command buf command key =
    let capping_str = format_uint key.capping in
    writes buf (command ∷ sp ∷ key.key ∷ sp ∷ capping_str ∷ [])

-- The rounds of the loop of `writeMultiCommand`; `i < len(keys)-1` where keys are left.
unfoldable pub write_keys : Bytes → List CappingKey → Bytes
write_keys buf [] = buf
write_keys buf (key ∷ rest) =
    let capping_str = format_uint key.capping in
    let written = writes buf (key.key ∷ sp ∷ capping_str ∷ []) in
    write_keys (if ltb 0 (length rest) then writes written (sp ∷ []) else written) rest

unfoldable pub write_multi_command : Bytes → Bytes → List CappingKey → Bytes
write_multi_command buf command keys = write_keys (writes buf (command ∷ sp ∷ [])) keys

unfoldable pub write_rlimit_window_command : Bytes → Bytes → LimitKey → ℕ → Bytes
write_rlimit_window_command buf algorithm key limit =
    let limit_str = format_uint limit in
    let window_str = format_uint key.window in
    writes buf
      (command_rlimit ∷ sp ∷ algorithm ∷ sp ∷ key.key ∷ sp ∷ limit_str ∷ sp ∷ window_str ∷ [])

unfoldable pub write_rlimit_token_bucket_command : Bytes → LimitKey → ℕ → ℕ → Bytes
write_rlimit_token_bucket_command buf key capacity refill_amount =
    let capacity_str = format_uint capacity in
    let refill_amount_str = format_uint refill_amount in
    let refill_window_str = format_uint key.window in
    writes buf (
      command_rlimit ∷ sp ∷ rlimit_algorithm_tb ∷ sp ∷ key.key ∷ sp ∷ capacity_str ∷ sp
      ∷ refill_amount_str ∷ sp ∷ refill_window_str ∷ [])

-- Of the variadic `ttl` only the first is sent.
unfoldable pub write_ttl : Bytes → List ℕ → Bytes
write_ttl buf [] = buf
write_ttl buf (first ∷ others) = writes buf (sp ∷ format_uint first ∷ [])

unfoldable pub write_quota_acquire_command : Bytes → Bytes → ℕ → Bytes → List ℕ → Bytes
write_quota_acquire_command buf name amount client_id ttl =
    let amount_str = format_uint amount in
    write_ttl
      (writes buf (command_quota ∷ codes " ACQ " ∷ name ∷ sp ∷ amount_str ∷ sp ∷ client_id ∷ []))
      ttl

unfoldable pub write_quota_acquire_lease_command : Bytes → Bytes → ℕ → ℕ → Bytes → List ℕ → Bytes
write_quota_acquire_lease_command buf name limit amount client_id ttl =
    let limit_str = format_uint limit in
    let amount_str = format_uint amount in
    write_ttl
      (writes buf (
        command_quota
        ∷ codes " ACQL "
        ∷ name
        ∷ sp
        ∷ limit_str
        ∷ sp
        ∷ amount_str
        ∷ sp
        ∷ client_id
        ∷ []))
      ttl

unfoldable pub write_quota_acquire_n_command : Bytes → Bytes → Bytes → List ℕ → Bytes
write_quota_acquire_n_command buf name client_id ttl =
    write_ttl (writes buf (command_quota ∷ codes " ACQN " ∷ name ∷ sp ∷ client_id ∷ [])) ttl

unfoldable pub write_quota_set_command : Bytes → Bytes → ℕ → Bytes
write_quota_set_command buf name limit =
    let limit_str = format_uint limit in
    writes buf (command_quota ∷ codes " SET " ∷ name ∷ sp ∷ limit_str ∷ [])

unfoldable pub write_quota_set_n_command : Bytes → Bytes → ℕ → ℕ → Bytes
write_quota_set_n_command buf name limit clients =
    let limit_str = format_uint limit in
    let clients_str = format_uint clients in
    writes buf (command_quota ∷ codes " SETN " ∷ name ∷ sp ∷ limit_str ∷ sp ∷ clients_str ∷ [])

unfoldable pub write_quota_release_command : Bytes → Bytes → Bytes → Bytes
write_quota_release_command buf name client_id =
    writes buf (command_quota ∷ codes " REL " ∷ name ∷ sp ∷ client_id ∷ [])

unfoldable pub write_quota_delete_command : Bytes → Bytes → Bytes
write_quota_delete_command buf name = writes buf (command_quota ∷ codes " DEL " ∷ name ∷ [])

unfoldable pub write_quota_info_command : Bytes → Bytes → Bytes
write_quota_info_command buf name = writes buf (command_quota ∷ codes " INF " ∷ name ∷ [])

-- `if cursor == "" { cursor = ScanCursorInitial }`
unfoldable pub or_initial : Bytes → Bytes
or_initial [] = scan_cursor_initial
or_initial (c ∷ s) = c ∷ s

unfoldable pub write_scan_command : Bytes → Bytes → ℕ → Bytes
write_scan_command buf cursor count =
    writes buf (command_scan ∷ sp ∷ or_initial cursor ∷ sp ∷ format_uint count ∷ [])

unfoldable pub write_pscan_command : Bytes → Bytes → Bytes → ℕ → Bytes
write_pscan_command buf prefix cursor count =
    writes buf (command_pscan ∷ sp ∷ prefix ∷ sp ∷ or_initial cursor ∷ sp ∷ format_uint count ∷ [])

-- `PStream` and `QPStream` write their command themselves.
unfoldable pub write_prefix_command : Bytes → Bytes → Bytes → Bytes
write_prefix_command buf command prefix = writes buf (command ∷ sp ∷ prefix ∷ [])

unfoldable pub write_inspect_command : Bytes → Bytes → Bytes
write_inspect_command buf [] = writes buf (command_inspect ∷ [])
write_inspect_command buf (c ∷ section) = writes buf (command_inspect ∷ sp ∷ (c ∷ section) ∷ [])
