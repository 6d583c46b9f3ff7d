-- ===== src/Topic/Match.antt =====
-- `dimq_topic_matches_sub2` of lib/util_topic.c. `sub` and `topic` are what is left of the strings
-- after the pointers, `prev` is `sub[-1]`, and `none` where `spos` is 0. Reading the end gives NUL.
use dimq.Topic.{head_or_nul}
use dimq.Prelude.{
  ℕ, ◌==◌, Bool, true, false, not, ◌&&◌, ◌||◌, List, [], ◌∷◌, Option, none, some, if◌then◌else◌,
}
use dimq.Result.{Result, ok, err, fault, inval}

abbrev pub is_wildcard : ℕ → Bool
is_wildcard c = c == b'+' || c == b'#'

-- `while(topic[0] != 0)`: is there a wildcard in it?
unfoldable pub has_wildcard : List ℕ → Bool
has_wildcard [] = false
has_wildcard (c ∷ topic) = is_wildcard c || has_wildcard topic

-- `while(topic[0] != 0 && topic[0] != '/')`: the rest of the topic.
unfoldable pub skip_level : List ℕ → Result (List ℕ)
skip_level [] = ok []
skip_level (c ∷ topic) =
    let rest = skip_level topic in
    if c == b'/' then ok (c ∷ topic) else if is_wildcard c then err inval else rest

-- `while(sub[0] != 0)`: is a `#` followed by something?
unfoldable pub hash_inside : List ℕ → Bool
hash_inside [] = false
hash_inside (c ∷ sub) = (c == b'#' && not (head_or_nul sub == 0)) || hash_inside sub

-- `spos > 0 && sub[-1] != '/'`
abbrev pub bad_front : Option ℕ → Bool
bad_front none = false
bad_front (some c) = not (c == b'/')

abbrev pub is_empty : List ℕ → Bool
is_empty [] = true
is_empty (c ∷ cs) = false

abbrev pub tail : List ℕ → List ℕ
tail [] = []
tail (c ∷ cs) = cs

-- `sub[0] == '/' && sub[1] == '#' && sub[2] == 0`
abbrev pub is_slash_hash : List ℕ → Bool
is_slash_hash sub =
    head_or_nul sub == b'/' && head_or_nul (tail sub) == b'#' && head_or_nul (tail (tail sub)) == 0

abbrev pub is_plus_char : Option ℕ → Bool
is_plus_char none = false
is_plus_char (some c) = c == b'+'

-- The topic after a `+`, and then the rest of the round.
abbrev pub after_level : Result (List ℕ) → (List ℕ → Result Bool) → Result Bool
after_level (ok rest) next = next rest
after_level (err e) next = err e
after_level fault next = fault

-- `sub[0]` is not a wildcard and does not match.
abbrev pub no_match : Option ℕ → ℕ → List ℕ → List ℕ → Result Bool
no_match prev s sub topic =
    if head_or_nul topic == 0 && is_plus_char prev && s == b'/' && head_or_nul sub == b'#'
    then ok true
    else if hash_inside (s ∷ sub)
    then err inval
    else ok false

-- `sub[0]` is `#` and does not match literally.
abbrev pub hash_branch : Option ℕ → List ℕ → List ℕ → Result Bool
hash_branch prev sub topic =
    if bad_front prev
    then err inval
    else if not (head_or_nul sub == 0)
    then err inval
    else if has_wildcard topic
    then err inval
    else ok true

-- `while(sub[0] != 0)`, with what follows the loop.
unfoldable pub matches_loop : Option ℕ → List ℕ → List ℕ → Result Bool
matches_loop prev [] topic = if has_wildcard topic then err inval else ok false
matches_loop prev (s ∷ sub) topic =
    let plus_next = λ (rest : List ℕ).
      let more = matches_loop (some b'+') sub rest in
      if is_empty rest && is_empty sub then ok true else more in
    let more = matches_loop (some s) sub (tail topic) in
    if is_wildcard (head_or_nul topic)
    then err inval
    else if not (s == head_or_nul topic) || head_or_nul topic == 0
    then (if s == b'+'
        then (if bad_front prev
            then err inval
            else if not (head_or_nul sub == 0) && not (head_or_nul sub == b'/')
            then err inval
            else after_level (skip_level topic) plus_next)
        else if s == b'#'
        then hash_branch prev sub topic
        else no_match prev s sub topic)
    else if head_or_nul (tail topic) == 0 && is_slash_hash sub
    then ok true
    else if is_empty sub && is_empty (tail topic)
    then ok true
    else if is_empty (tail topic) && head_or_nul sub == b'+' && is_empty (tail sub)
    then (if bad_front (some s) then err inval else ok true)
    else more

-- The answer is what is written to `*result`, for a `result` that is not NULL; an error leaves false.
unfoldable pub topic_matches_sub : Option (List ℕ) → Option (List ℕ) → Result Bool
topic_matches_sub none topic = err inval
topic_matches_sub (some sub) none = err inval
topic_matches_sub (some sub) (some topic) =
    if is_empty sub || is_empty topic
    then err inval
    else if (head_or_nul sub == b'$' && not (head_or_nul topic == b'$'))
        || (head_or_nul topic == b'$' && not (head_or_nul sub == b'$'))
    then ok false
    else matches_loop none sub topic
