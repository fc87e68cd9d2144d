-- ===== src/Command/Layout.antt =====
-- Each command is its words with one space between each two.
use fq_client_go.Common.{
  suc, List, [], ◌∷◌, ◌++◌, Bytes, ◌≡◌, ◌≢◌, refl, ap, ◌∙◌, append_assoc, All, Lacks, arith, length,
  lt→ltb,
}
use fq_client_go.Text.{join, split}
use fq_client_go.Text.Parts.{split-join}
use fq_client_go.Decimal.{format_uint}
use fq_client_go.Types.{CappingKey}
use fq_client_go.Command.{
  space, sp, writes, write_command, write_keys, write_multi_command, write_rlimit_window_command,
  write_rlimit_token_bucket_command, write_ttl, write_quota_acquire_command,
  write_quota_acquire_lease_command, write_quota_acquire_n_command, write_quota_set_command,
  write_quota_set_n_command, write_quota_release_command, write_quota_delete_command,
  write_quota_info_command, write_scan_command, write_pscan_command, write_prefix_command,
  write_inspect_command, command_mdel,
}
use fq_client_go.Command.Request.{
  Request, incr, get, watch, del, mdel, quota_acquire, quota_acquire_lease, quota_acquire_n,
  flush_db, truncate, stream, qstream, inspect, encode, words, key_words,
}

write_keys-words :
    (buf : Bytes) (k : CappingKey) (ks : List CappingKey)
    → write_keys buf (k ∷ ks) ≡ buf ++ join (key_words (k ∷ ks)) space
unfolding write_keys writes join
write_keys-words buf k [] = simp append_assoc
write_keys-words buf k (l ∷ ks) = rw (lt→ltb 0 (suc (length ks)) (omega arith)) (
    write_keys-words ((((buf ++ k.key) ++ sp) ++ format_uint k.capping) ++ sp) l ks
    ∙ simp append_assoc)

-- Every command that the client sends is the words of its request, with one space between each two.
pub encode-words : (r : Request) → encode r ≡ join (words r) space
unfolding encode words join writes write_command write_multi_command write_rlimit_window_command
    write_rlimit_token_bucket_command write_ttl write_quota_acquire_command
    write_quota_acquire_lease_command write_quota_acquire_n_command write_quota_set_command
    write_quota_set_n_command write_quota_release_command write_quota_delete_command
    write_quota_info_command write_scan_command write_pscan_command write_prefix_command
    write_inspect_command
encode-words (incr k) = simp append_assoc
encode-words (get k) = simp append_assoc
encode-words (watch k) = simp append_assoc
encode-words (del k) = simp append_assoc
encode-words (mdel []) = unfold write_keys in refl
encode-words (mdel (k ∷ ks)) = write_keys-words (command_mdel ++ sp) k ks ∙ simp append_assoc
encode-words (quota_acquire name amount client []) = simp append_assoc
encode-words (quota_acquire name amount client (t ∷ ts)) = simp append_assoc
encode-words (quota_acquire_lease name limit amount client []) = simp append_assoc
encode-words (quota_acquire_lease name limit amount client (t ∷ ts)) = simp append_assoc
encode-words (quota_acquire_n name client []) = simp append_assoc
encode-words (quota_acquire_n name client (t ∷ ts)) = simp append_assoc
encode-words flush_db = refl
encode-words truncate = refl
encode-words stream = refl
encode-words qstream = refl
encode-words (inspect []) = refl
encode-words (inspect (c ∷ s)) = refl
encode-words _ = simp append_assoc

-- A request whose texts a word can carry.
abbrev pub IsWord : Bytes → Type 0
IsWord = Lacks space

words-ne-nil : (r : Request) → words r ≢ []
unfolding words
words-ne-nil (mdel []) = λ e. cc
words-ne-nil (mdel (k ∷ ks)) = λ e. cc
words-ne-nil _ = λ e. cc

-- If no word of a request holds a space, the command is split at its spaces into those very words:
-- a key, a name or a cursor never runs into its neighbours.
pub split-encode : (r : Request) → All IsWord (words r) → split (encode r) space ≡ words r
split-encode r h =
    ap (λ s. split s space) (encode-words r) ∙ split-join space (words r) (words-ne-nil r) h
