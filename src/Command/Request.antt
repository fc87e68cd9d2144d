-- ===== src/Command/Request.antt =====
-- The requests of the client's methods, the bytes that each method writes for one, and the words of
-- the protocol that stand for it.
use fq_client_go.Common.{ℕ, List, [], ◌∷◌, Bytes, codes}
use fq_client_go.Decimal.{format_uint}
use fq_client_go.Types.{CappingKey, LimitKey}
use fq_client_go.Command.{
  command_incr, command_get, command_del, command_mdel, command_watch, command_rlimit,
  command_stream, command_pstream, command_quota, command_qstream, command_qpstream, command_scan,
  command_pscan, command_flushdb, command_truncate, command_inspect, rlimit_algorithm_fw,
  rlimit_algorithm_sw, rlimit_algorithm_tb, or_initial, write_command, write_multi_command,
  write_rlimit_window_command, write_rlimit_token_bucket_command, write_quota_acquire_command,
  write_quota_acquire_lease_command, write_quota_acquire_n_command, write_quota_set_command,
  write_quota_set_n_command, write_quota_release_command, write_quota_delete_command,
  write_quota_info_command, write_scan_command, write_pscan_command, write_prefix_command,
  write_inspect_command,
}

pub data Request : Type 0 where
  incr get watch del : CappingKey → Request
  mdel : List CappingKey → Request
  rlimit_fixed_window rlimit_sliding_window : LimitKey → ℕ → Request
  rlimit_token_bucket : LimitKey → ℕ → ℕ → Request
  quota_acquire : Bytes → ℕ → Bytes → List ℕ → Request
  quota_acquire_lease : Bytes → ℕ → ℕ → Bytes → List ℕ → Request
  quota_acquire_n : Bytes → Bytes → List ℕ → Request
  quota_set : Bytes → ℕ → Request
  quota_set_n : Bytes → ℕ → ℕ → Request
  quota_release : Bytes → Bytes → Request
  quota_delete quota_info : Bytes → Request
  scan : Bytes → ℕ → Request
  pscan : Bytes → Bytes → ℕ → Request
  flush_db truncate stream qstream : Request
  pstream qpstream inspect : Bytes → Request

-- What the method of the client writes into its buffer, or sends without one.
unfoldable pub encode : Request → Bytes
encode (incr key) = write_command [] command_incr key
encode (get key) = write_command [] command_get key
encode (watch key) = write_command [] command_watch key
encode (del key) = write_command [] command_del key
encode (mdel keys) = write_multi_command [] command_mdel keys
encode (rlimit_fixed_window key limit) =
    write_rlimit_window_command [] rlimit_algorithm_fw key limit
encode (rlimit_sliding_window key limit) =
    write_rlimit_window_command [] rlimit_algorithm_sw key limit
encode (rlimit_token_bucket key capacity refill) =
    write_rlimit_token_bucket_command [] key capacity refill
encode (quota_acquire name amount client ttl) =
    write_quota_acquire_command [] name amount client ttl
encode (quota_acquire_lease name limit amount client ttl) =
    write_quota_acquire_lease_command [] name limit amount client ttl
encode (quota_acquire_n name client ttl) = write_quota_acquire_n_command [] name client ttl
encode (quota_set name limit) = write_quota_set_command [] name limit
encode (quota_set_n name limit clients) = write_quota_set_n_command [] name limit clients
encode (quota_release name client) = write_quota_release_command [] name client
encode (quota_delete name) = write_quota_delete_command [] name
encode (quota_info name) = write_quota_info_command [] name
encode (scan cursor count) = write_scan_command [] cursor count
encode (pscan prefix cursor count) = write_pscan_command [] prefix cursor count
encode flush_db = command_flushdb
encode truncate = command_truncate
encode stream = command_stream
encode qstream = command_qstream
encode (pstream prefix) = write_prefix_command [] command_pstream prefix
encode (qpstream prefix) = write_prefix_command [] command_qpstream prefix
encode (inspect section) = write_inspect_command [] section

abbrev pub key_words : List CappingKey → List Bytes
key_words [] = []
key_words (k ∷ ks) = k.key ∷ format_uint k.capping ∷ key_words ks

abbrev pub ttl_words : List ℕ → List Bytes
ttl_words [] = []
ttl_words (first ∷ others) = format_uint first ∷ []

abbrev pub section_words : Bytes → List Bytes
section_words [] = []
section_words (c ∷ section) = (c ∷ section) ∷ []

-- The command in words: the verb, and one word for each argument.
unfoldable pub words : Request → List Bytes
words (incr k) = command_incr ∷ k.key ∷ format_uint k.capping ∷ []
words (get k) = command_get ∷ k.key ∷ format_uint k.capping ∷ []
words (watch k) = command_watch ∷ k.key ∷ format_uint k.capping ∷ []
words (del k) = command_del ∷ k.key ∷ format_uint k.capping ∷ []
words (mdel []) = command_mdel ∷ [] ∷ []
words (mdel (k ∷ ks)) = command_mdel ∷ key_words (k ∷ ks)
words (rlimit_fixed_window k limit) =
    command_rlimit ∷ rlimit_algorithm_fw ∷ k.key ∷ format_uint limit ∷ format_uint k.window ∷ []
words (rlimit_sliding_window k limit) =
    command_rlimit ∷ rlimit_algorithm_sw ∷ k.key ∷ format_uint limit ∷ format_uint k.window ∷ []
words (rlimit_token_bucket k capacity refill) =
    command_rlimit
    ∷ rlimit_algorithm_tb
    ∷ k.key
    ∷ format_uint capacity
    ∷ format_uint refill
    ∷ format_uint k.window
    ∷ []
words (quota_acquire name amount client ttl) =
    command_quota ∷ codes "ACQ" ∷ name ∷ format_uint amount ∷ client ∷ ttl_words ttl
words (quota_acquire_lease name limit amount client ttl) =
    command_quota
    ∷ codes "ACQL"
    ∷ name
    ∷ format_uint limit
    ∷ format_uint amount
    ∷ client
    ∷ ttl_words ttl
words (quota_acquire_n name client ttl) =
    command_quota ∷ codes "ACQN" ∷ name ∷ client ∷ ttl_words ttl
words (quota_set name limit) = command_quota ∷ codes "SET" ∷ name ∷ format_uint limit ∷ []
words (quota_set_n name limit clients) =
    command_quota ∷ codes "SETN" ∷ name ∷ format_uint limit ∷ format_uint clients ∷ []
words (quota_release name client) = command_quota ∷ codes "REL" ∷ name ∷ client ∷ []
words (quota_delete name) = command_quota ∷ codes "DEL" ∷ name ∷ []
words (quota_info name) = command_quota ∷ codes "INF" ∷ name ∷ []
words (scan cursor count) = command_scan ∷ or_initial cursor ∷ format_uint count ∷ []
words (pscan prefix cursor count) =
    command_pscan ∷ prefix ∷ or_initial cursor ∷ format_uint count ∷ []
words flush_db = command_flushdb ∷ []
words truncate = command_truncate ∷ []
words stream = command_stream ∷ []
words qstream = command_qstream ∷ []
words (pstream prefix) = command_pstream ∷ prefix ∷ []
words (qpstream prefix) = command_qpstream ∷ prefix ∷ []
words (inspect section) = command_inspect ∷ section_words section
