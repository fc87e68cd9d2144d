-- ===== src/Sharded/Laws.antt =====
-- sharded_client.go: where commands go, what all shards answer, and the cursors of a scan.
use fq_client_go.Common.{
  ℕ, ◌^◌, ◌<◌, ◌≡◌, ◌≢◌, refl, ap, ◌∙◌, arith, Bool, true, false, ◌&&◌, ◌||◌, some, List, [], ◌∷◌,
  ◌++◌, Bytes, length, length-append, All, Lacks, ltb, leb, lt→ltb, ◌==◌,
}
use fq_client_go.Errors.{Error, Result, ok, err}
use fq_client_go.Text.{bytes_eq}
use fq_client_go.Text.Cut.{split_n2-append}
use fq_client_go.Decimal.{format_uint, parse_uint}
use fq_client_go.Decimal.RoundTrip.{
  parse_uint-format_uint, format_uint-All-IsDigit, IsDigit-Lacks, IsDigit, format_uint-ne-nil,
}
use fq_client_go.Command.{scan_cursor_initial}
use fq_client_go.Sharded.{
  pos, ShardingFunc, shard_index_by_key, checked_index, Command, put_first, put_behind, on_shard,
  routed, on_shard_by_key, bool_loop, next_bool, bool_command_on_all_shards,
}
use fq_client_go.Sharded.Cursor.{
  separator, atoi, not_negated, cursor_index, cursor_parts, parse_scan_cursor, make_scan_cursor,
}

module _ {S A : Type 0} where
  on_shard-at :
      (front back : List S) (s t : S) (command : Command S A) (r : Result A)
      → command s ≡ some (r, t)
      → on_shard (length front) command (front ++ s ∷ back) ≡ some (r, front ++ t ∷ back)
  unfolding on_shard put_first put_behind
  on_shard-at [] back s t command r e = ap (put_first back) e
  on_shard-at (u ∷ front) back s t command r e =
      ap (put_behind u) (on_shard-at front back s t command r e)

  -- A command for a key goes to the one shard that the sharding function names for it, among the
  -- shards there are, and returns what that shard returns; no other shard is touched.
  pub on_shard_by_key-at :
      (sharding_func : ShardingFunc) (key : Bytes) (front back : List S) (s t : S)
      (command : Command S A) (r : Result A)
      → sharding_func key (length (front ++ s ∷ back)) ≡ pos (length front)
      → command s ≡ some (r, t)
      → on_shard_by_key sharding_func key command (front ++ s ∷ back) ≡ some (r, front ++ t ∷ back)
  unfolding on_shard_by_key routed shard_index_by_key checked_index
  on_shard_by_key-at sharding_func key front back s t command r named e =
      let shards = front ++ s ∷ back in
      let inside : ltb (length front) (length shards) ≡ true =
        lt→ltb (length front) (length shards) (omega (arith, length-append front (s ∷ back))) in
      rw (named, inside) (on_shard-at front back s t command r e)

-- The shards answered `bs` in their order, each from its own state.
pub data Answers {S : Type 0} (command : Command S Bool)
    : List S → List Bool → List S → Type 0 where
  no_shard : Answers command [] [] []
  one_more :
      (s t : S) (b : Bool) (ss ts : List S) (bs : List Bool)
      → command s ≡ some (ok b, t)
      → Answers command ss bs ts
      → Answers command (s ∷ ss) (b ∷ bs) (t ∷ ts)

abbrev pub all_true : Bool → List Bool → Bool
all_true b [] = b
all_true b (c ∷ bs) = all_true (b && c) bs

module _ {S : Type 0} (command : Command S Bool) where
  bool_loop-Answers :
      (b : Bool) (ss ts : List S) (bs : List Bool)
      → Answers command ss bs ts
      → bool_loop command b ss ≡ some (ok (all_true b bs), ts)
  unfolding bool_loop next_bool put_behind
  bool_loop-Answers b _ _ _ no_shard = refl
  bool_loop-Answers b _ _ _ (one_more s t c ss ts bs e k) =
      ap (λ o. next_bool b ss o (λ d. bool_loop command d ss)) e
      ∙ ap (put_behind t) (bool_loop-Answers (b && c) ss ts bs k)

  bool_loop-stops :
      (b : Bool) (ss ts : List S) (bs : List Bool) (s t : S) (rest : List S) (e : Error)
      → Answers command ss bs ts
      → command s ≡ some (err e, t)
      → bool_loop command b (ss ++ s ∷ rest) ≡ some (err e, ts ++ t ∷ rest)
  unfolding bool_loop next_bool put_behind
  bool_loop-stops b _ _ _ s t rest e no_shard f =
      ap (λ o. next_bool b rest o (λ d. bool_loop command d rest)) f
  bool_loop-stops b _ _ _ s t rest e (one_more u v c ss ts bs g k) f =
      ap (λ o. next_bool b (ss ++ s ∷ rest) o (λ d. bool_loop command d (ss ++ s ∷ rest))) g
      ∙ ap (put_behind v) (bool_loop-stops (b && c) ss ts bs s t rest e k f)

  -- A command on all shards that all answer asks each of them once, in their order, and its result is
  -- whether all answers are true.
  pub bool_command_on_all_shards-Answers :
      (ss ts : List S) (bs : List Bool)
      → Answers command ss bs ts
      → bool_command_on_all_shards command ss ≡ some (ok (all_true true bs), ts)
  unfolding bool_command_on_all_shards
  bool_command_on_all_shards-Answers ss ts bs k = bool_loop-Answers true ss ts bs k

  -- A command on all shards returns the error of the first shard that fails, when the shards before
  -- it answered, and does not ask the shards behind it.
  pub bool_command_on_all_shards-stops :
      (ss ts : List S) (bs : List Bool) (s t : S) (rest : List S) (e : Error)
      → Answers command ss bs ts
      → command s ≡ some (err e, t)
      → bool_command_on_all_shards command (ss ++ s ∷ rest) ≡ some (err e, ts ++ t ∷ rest)
  unfolding bool_command_on_all_shards
  bool_command_on_all_shards-stops ss ts bs s t rest e k f =
      bool_loop-stops true ss ts bs s t rest e k f

-- What a command on all shards amounts to: all answer, or the first one that fails ends it.
pub data Asked {S : Type 0} (command : Command S Bool)
    : List S → Result Bool → List S → Type 0 where
  asked_all :
      (ss ts : List S) (bs : List Bool)
      → Answers command ss bs ts
      → Asked command ss (ok (all_true true bs)) ts
  stopped :
      (ss ts : List S) (bs : List Bool) (s t : S) (rest : List S) (e : Error)
      → Answers command ss bs ts
      → command s ≡ some (err e, t)
      → Asked command (ss ++ s ∷ rest) (err e) (ts ++ t ∷ rest)

-- A command on all shards asks them in their order. If all answer, each was asked once and the result
-- is whether all answers are true; if one fails behind others that answered, its error is the result
-- and the shards behind it are not asked.
pub bool_command_on_all_shards-Asked :
    {S : Type 0} (command : Command S Bool) (shards after : List S) (r : Result Bool)
    → Asked command shards r after
    → bool_command_on_all_shards command shards ≡ some (r, after)
bool_command_on_all_shards-Asked command _ _ _ (asked_all ss ts bs k) =
    bool_command_on_all_shards-Answers command ss ts bs k
bool_command_on_all_shards-Asked command _ _ _ (stopped ss ts bs s t rest e k f) =
    bool_command_on_all_shards-stops command ss ts bs s t rest e k f

IsDigit-nonzero : (c : ℕ) → IsDigit c → ((c == b'-') ≡ false) × ((c == b'+') ≡ false)
IsDigit-nonzero c h = (ground (arith, h), ground (arith, h))

atoi-digits : (s : Bytes) → s ≢ [] → All IsDigit s → atoi s ≡ not_negated (parse_uint 63 s)
unfolding atoi
atoi-digits [] n h = absurd (n refl)
atoi-digits (c ∷ s) n (d, h) = let (a, b) = IsDigit-nonzero c d in rw (a, b)

not_initial :
    (p : Bytes) (r : Bytes)
    → (bytes_eq (p ++ separator ∷ r) [] || bytes_eq (p ++ separator ∷ r) scan_cursor_initial)
      ≡ false
unfolding bytes_eq
not_initial [] r = ground arith
not_initial (c ∷ []) r = ground arith
not_initial (c ∷ d ∷ p) r = ground arith

-- The cursor that a scan returns for a shard and its non-empty cursor is read back as the two.
pub parse_scan_cursor-make_scan_cursor :
    (count index : ℕ) (c : ℕ) (shard_cursor : Bytes)
    → index < count
    → count < 2 ^ 63
    → parse_scan_cursor count (make_scan_cursor count index (c ∷ shard_cursor))
      ≡ ok (index, c ∷ shard_cursor)
unfolding make_scan_cursor parse_scan_cursor cursor_parts cursor_index not_negated
parse_scan_cursor-make_scan_cursor count index c shard_cursor i small =
    let inside : leb count index ≡ false = ground arith in
    let lacks : Lacks separator (format_uint index) =
      IsDigit-Lacks separator (format_uint index) (λ d. omega arith)
        (format_uint-All-IsDigit index) in
    let digits = format_uint index in
    let known : ltb index count ≡ true = lt→ltb index count i in
    rw
      (
        inside,
        not_initial digits (c ∷ shard_cursor),
        split_n2-append separator digits (c ∷ shard_cursor) lacks,
        atoi-digits digits (format_uint-ne-nil index) (format_uint-All-IsDigit index),
        parse_uint-format_uint 63 index (omega arith),
      )
      (rw known refl)
