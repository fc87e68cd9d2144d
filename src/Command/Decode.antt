-- ===== src/Command/Decode.antt =====
-- Reading back the commands that the writers write, by the grammar of the server.
use fq_client_go.Common.{ℕ, ◌<◌, ◌^◌, some, List, [], ◌∷◌, ◌≡◌, refl, ap, ◌∙◌, All}
use fq_client_go.Text.{split}
use fq_client_go.Types.{CappingKey}
use fq_client_go.Command.{space, or_initial}
use fq_client_go.Command.Request.{
  Request, incr, get, watch, del, mdel, rlimit_fixed_window, rlimit_sliding_window,
  rlimit_token_bucket, quota_acquire, quota_acquire_lease, quota_acquire_n, quota_set, quota_set_n,
  scan, pscan, inspect, encode, words, key_words, ttl_words,
}
use fq_client_go.Command.Layout.{IsWord, split-encode}
use fq_client_go.Command.Grammar.{decode, read_key_list, read_ttl, u32-format_uint}

-- The first of the lifetimes, if one is given.
abbrev pub first_ttl : List ℕ → List ℕ
first_ttl [] = []
first_ttl (first ∷ others) = first ∷ []

-- What of a request reaches the server: the initial cursor for an empty one, and one lifetime.
unfoldable pub normal : Request → Request
normal (scan cursor count) = scan (or_initial cursor) count
normal (pscan prefix cursor count) = pscan prefix (or_initial cursor) count
normal (quota_acquire name amount client ttl) = quota_acquire name amount client (first_ttl ttl)
normal (quota_acquire_lease name limit amount client ttl) =
    quota_acquire_lease name limit amount client (first_ttl ttl)
normal (quota_acquire_n name client ttl) = quota_acquire_n name client (first_ttl ttl)
normal r = r

abbrev pub IsU32 : ℕ → Type 0
IsU32 n = n < 2 ^ 32

-- The numbers of a request are `uint32`.
abbrev pub Fits : Request → Type 0
Fits (incr k) = IsU32 k.capping
Fits (get k) = IsU32 k.capping
Fits (watch k) = IsU32 k.capping
Fits (del k) = IsU32 k.capping
Fits (mdel ks) = All (λ k. IsU32 k.capping) ks
Fits (rlimit_fixed_window k limit) = IsU32 k.window × IsU32 limit
Fits (rlimit_sliding_window k limit) = IsU32 k.window × IsU32 limit
Fits (rlimit_token_bucket k capacity refill) = IsU32 k.window × IsU32 capacity × IsU32 refill
Fits (quota_acquire name amount client ttl) = IsU32 amount × All IsU32 ttl
Fits (quota_acquire_lease name limit amount client ttl) = IsU32 limit × IsU32 amount × All IsU32 ttl
Fits (quota_acquire_n name client ttl) = All IsU32 ttl
Fits (quota_set name limit) = IsU32 limit
Fits (quota_set_n name limit clients) = IsU32 limit × IsU32 clients
Fits (scan cursor count) = IsU32 count
Fits (pscan prefix cursor count) = IsU32 count
Fits r = Unit {0}

read_key_list-words :
    (ks : List CappingKey) → All (λ k. IsU32 k.capping) ks → read_key_list (key_words ks) ≡ some ks
unfolding read_key_list
read_key_list-words [] h = refl
read_key_list-words (k ∷ ks) h = rw (u32-format_uint k.capping h.0, read_key_list-words ks h.1)

read_ttl-words : (ttl : List ℕ) → All IsU32 ttl → read_ttl (ttl_words ttl) ≡ some (first_ttl ttl)
unfolding read_ttl
read_ttl-words [] h = refl
read_ttl-words (t ∷ ts) h = rw (u32-format_uint t h.0)

decode-words : (r : Request) → Fits r → decode (words r) ≡ some (normal r)
unfolding decode words normal
decode-words (incr k) h = rw (u32-format_uint k.capping h)
decode-words (get k) h = rw (u32-format_uint k.capping h)
decode-words (watch k) h = rw (u32-format_uint k.capping h)
decode-words (del k) h = rw (u32-format_uint k.capping h)
decode-words (mdel []) h = refl
decode-words (mdel (k ∷ ks)) h = rw (u32-format_uint k.capping h.0, read_key_list-words ks h.1)
decode-words (rlimit_fixed_window k limit) h =
    rw (u32-format_uint limit h.1, u32-format_uint k.window h.0)
decode-words (rlimit_sliding_window k limit) h =
    rw (u32-format_uint limit h.1, u32-format_uint k.window h.0)
decode-words (rlimit_token_bucket k capacity refill) h =
    rw (u32-format_uint capacity h.1, u32-format_uint refill h.2, u32-format_uint k.window h.0)
decode-words (quota_acquire name amount client ttl) h =
    rw (u32-format_uint amount h.0, read_ttl-words ttl h.1)
decode-words (quota_acquire_lease name limit amount client ttl) h =
    rw (u32-format_uint limit h.0, u32-format_uint amount h.1, read_ttl-words ttl h.2)
decode-words (quota_acquire_n name client ttl) h = rw (read_ttl-words ttl h)
decode-words (quota_set name limit) h = rw (u32-format_uint limit h)
decode-words (quota_set_n name limit clients) h =
    rw (u32-format_uint limit h.0, u32-format_uint clients h.1)
decode-words (scan cursor count) h = rw (u32-format_uint count h)
decode-words (pscan prefix cursor count) h = rw (u32-format_uint count h)
decode-words (inspect []) h = refl
decode-words (inspect (c ∷ s)) h = refl
decode-words _ h = refl

-- If no word of a request holds a space and its numbers are 32-bit, the bytes sent for it decode to
-- the request itself, but that an empty cursor reads as `0` and only the first lifetime is kept.
pub decode-encode :
    (r : Request)
    → All IsWord (words r)
    → Fits r
    → decode (split (encode r) space) ≡ some (normal r)
decode-encode r plain fits = ap decode (split-encode r plain) ∙ decode-words r fits
