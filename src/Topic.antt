-- ===== src/Topic.antt =====
-- lib/util_topic.c: the checks of topic names and of topic filters. A C string is the list of its
-- bytes before the first NUL and shorter than 2^31; NULL is `none`. `broker` is WITH_BROKER.
pub mod Agree
pub mod Match
pub mod Levels
pub mod Matched
pub mod Decides
pub mod Checked
mod Tests
use dimq.Prelude.{
  ℕ, ◌+◌, ◌==◌, Bool, true, false, not, ◌&&◌, ◌||◌, ltb, List, [], ◌∷◌, Option, none, some, length,
  if◌then◌else◌,
}
use dimq.Result.{Result, Status, ok, err, fault, inval, success, guard, ◌>>=◌, ◌>>◌}

-- TOPIC_HIERARCHY_LIMIT
abbrev pub hierarchy_limit : ℕ
hierarchy_limit = 200

abbrev pub count_level : ℕ → ℕ → ℕ
count_level c hier_count = if c == b'/' then hier_count + 1 else hier_count

abbrev pub check_depth : Bool → ℕ → Status
check_depth broker hier_count =
    if broker && ltb hierarchy_limit hier_count then err inval else success

-- `while(str && str[0])`: `len` and `hier_count` at the end
unfoldable pub pub_scan : List ℕ → ℕ → ℕ → Result (ℕ × ℕ)
pub_scan [] len hier_count = ok (len, hier_count)
pub_scan (c ∷ str) len hier_count =
    let rest = pub_scan str (len + 1) (count_level c hier_count) in
    if c == b'+' || c == b'#' then err inval else rest

unfoldable pub pub_topic_check : Bool → Option (List ℕ) → Status
pub_topic_check broker none = err inval
pub_topic_check broker (some str) = pub_scan str 0 0 >>= λ (len, hier_count).
    if ltb 65535 len then err inval else check_depth broker hier_count

-- `for(i=0; i<len; i++)`
unfoldable pub pub_loop : List ℕ → ℕ → Result ℕ
pub_loop [] hier_count = ok hier_count
pub_loop (c ∷ str) hier_count =
    let rest = pub_loop str (count_level c hier_count) in
    if c == b'+' || c == b'#' then err inval else rest

unfoldable pub pub_topic_check2 : Bool → Option (List ℕ) → Status
pub_topic_check2 broker none = err inval
pub_topic_check2 broker (some str) =
    if ltb 65535 (length str) then err inval else pub_loop str 0 >>= check_depth broker

-- `str[1]`
abbrev pub head_or_nul : List ℕ → ℕ
head_or_nul [] = 0
head_or_nul (c ∷ str) = c

-- `while(str[0])`; `c` is the byte in front.
unfoldable pub sub_scan : ℕ → List ℕ → ℕ → ℕ → Result (ℕ × ℕ)
sub_scan c [] len hier_count = ok (len, hier_count)
sub_scan c (x ∷ str) len hier_count =
    let rest = sub_scan x str (len + 1) (count_level x hier_count) in
    if x == b'+'
    then (if (not (c == 0) && not (c == b'/'))
          || (not (head_or_nul str == 0) && not (head_or_nul str == b'/'))
        then err inval
        else rest)
    else if x == b'#'
    then (if (not (c == 0) && not (c == b'/')) || not (head_or_nul str == 0)
        then err inval
        else rest)
    else rest

unfoldable pub sub_topic_check : Bool → Option (List ℕ) → Status
sub_topic_check broker none = err inval
sub_topic_check broker (some str) = sub_scan 0 str 0 0 >>= λ (len, hier_count).
    if ltb 65535 len then err inval else check_depth broker hier_count

-- `for(i=0; i<len; i++)`: `i<len-1` is that more bytes follow.
abbrev pub more_bytes : List ℕ → Bool
more_bytes [] = false
more_bytes (c ∷ str) = true

unfoldable pub sub_loop : ℕ → List ℕ → ℕ → Result ℕ
sub_loop c [] hier_count = ok hier_count
sub_loop c (x ∷ str) hier_count =
    let rest = sub_loop x str (count_level x hier_count) in
    if x == b'+'
    then (if (not (c == 0) && not (c == b'/')) || (more_bytes str && not (head_or_nul str == b'/'))
        then err inval
        else rest)
    else if x == b'#'
    then (if (not (c == 0) && not (c == b'/')) || more_bytes str then err inval else rest)
    else rest

unfoldable pub sub_topic_check2 : Bool → Option (List ℕ) → Status
sub_topic_check2 broker none = err inval
sub_topic_check2 broker (some str) =
    if ltb 65535 (length str) then err inval else sub_loop 0 str 0 >>= check_depth broker
