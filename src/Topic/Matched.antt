-- ===== src/Topic/Matched.antt =====
-- One round of the loop of `dimq_topic_matches_sub2`, and the facts about the bytes of levels.
use dimq.Topic.Match.{
  matches_loop, is_wildcard, has_wildcard, skip_level, hash_inside, bad_front, is_empty, tail,
  is_slash_hash, after_level, no_match,
}
use dimq.Topic.Levels.{Level, plus, hash, word, IsPlain, AllPlain, IsFilter, filter_rest, name_rest}
use dimq.Topic.{head_or_nul}
use dimq.Prelude.{
  ℕ, ◌≡◌, ◌≢◌, ◌==◌, Bool, true, false, not, ◌&&◌, List, [], ◌∷◌, ◌++◌, Option, some, arith, refl,
  if◌then◌else◌,
}
use dimq.Result.{Result, ok, err, inval}

-- After `sub[0]` matched `topic[0]`.
abbrev pub advance : ℕ → List ℕ → List ℕ → Result Bool
advance s sub topic =
    if head_or_nul topic == 0 && is_slash_hash sub
    then ok true
    else if is_empty sub && is_empty topic
    then ok true
    else if is_empty topic && head_or_nul sub == b'+' && is_empty (tail sub)
    then (if bad_front (some s) then err inval else ok true)
    else matches_loop (some s) sub topic

abbrev pub after_plus : List ℕ → List ℕ → Result Bool
after_plus sub rest =
    if is_empty rest && is_empty sub then ok true else matches_loop (some b'+') sub rest

pub loop_equal :
    (prev : Option ℕ) (c : ℕ) (sub topic : List ℕ)
    → c ≢ 0
    → is_wildcard c ≡ false
    → matches_loop prev (c ∷ sub) (c ∷ topic) ≡ advance c sub topic
unfolding matches_loop
loop_equal prev c sub topic h w = ground arith

pub loop_differs :
    (prev : Option ℕ) (c : ℕ) (sub topic : List ℕ)
    → is_wildcard c ≡ false
    → is_wildcard (head_or_nul topic) ≡ false
    → c ≢ head_or_nul topic
    → matches_loop prev (c ∷ sub) topic ≡ no_match prev c sub topic
unfolding matches_loop
loop_differs prev c sub topic w v h = ground arith

pub loop_plus :
    (prev : Option ℕ) (sub topic : List ℕ)
    → bad_front prev ≡ false
    → is_wildcard (head_or_nul topic) ≡ false
    → (not (head_or_nul sub == 0) && not (head_or_nul sub == b'/')) ≡ false
    → matches_loop prev (b'+' ∷ sub) topic ≡ after_level (skip_level topic) (after_plus sub)
unfolding matches_loop
loop_plus prev sub topic b w h = ground arith

pub loop_hash :
    (prev : Option ℕ) (topic : List ℕ)
    → bad_front prev ≡ false
    → has_wildcard topic ≡ false
    → matches_loop prev (b'#' ∷ []) topic ≡ ok true
unfolding matches_loop has_wildcard
loop_hash prev [] b w = ground arith
loop_hash prev (c ∷ topic) b w = ground arith

wild-append : (t r : List ℕ) → IsPlain t → has_wildcard r ≡ false → has_wildcard (t ++ r) ≡ false
unfolding has_wildcard
wild-append [] r p h = h
wild-append (c ∷ t) r p h = ground (arith, wild-append t r p.1 h)

pub name_rest-wild : (ts : List (List ℕ)) → AllPlain ts → has_wildcard (name_rest ts) ≡ false
unfolding has_wildcard
name_rest-wild [] h = refl
name_rest-wild (t ∷ ts) h = wild-append t (name_rest ts) h.0 (name_rest-wild ts h.1)

pub skip_level-name :
    (t : List ℕ) (ts : List (List ℕ))
    → IsPlain t
    → skip_level (t ++ name_rest ts) ≡ ok (name_rest ts)
unfolding skip_level
skip_level-name [] [] p = refl
skip_level-name [] (u ∷ ts) p = refl
skip_level-name (c ∷ t) ts p = ground (arith, skip_level-name t ts p.1)

hash-append : (w r : List ℕ) → IsPlain w → hash_inside r ≡ false → hash_inside (w ++ r) ≡ false
unfolding hash_inside
hash-append [] r p h = h
hash-append (c ∷ w) r p h = ground (arith, hash-append w r p.1 h)

pub filter_rest-hash : (fs : List Level) → IsFilter fs → hash_inside (filter_rest fs) ≡ false
unfolding hash_inside
filter_rest-hash [] h = refl
filter_rest-hash (plus ∷ fs) h = filter_rest-hash fs h
filter_rest-hash (hash ∷ fs) h = rw h refl
filter_rest-hash (word w ∷ fs) h = hash-append w (filter_rest fs) h.0 (filter_rest-hash fs h.1)

pub filter_bytes-hash :
    (w : List ℕ) (fs : List Level)
    → IsPlain w
    → IsFilter fs
    → hash_inside (w ++ filter_rest fs) ≡ false
filter_bytes-hash w fs p h = hash-append w (filter_rest fs) p (filter_rest-hash fs h)

-- What stands at the end of a level: the end or a separator.
pub name_rest-head : (ts : List (List ℕ)) → is_wildcard (head_or_nul (name_rest ts)) ≡ false
name_rest-head [] = refl
name_rest-head (t ∷ ts) = refl

pub name_bytes-head :
    (t : List ℕ) (ts : List (List ℕ))
    → IsPlain t
    → is_wildcard (head_or_nul (t ++ name_rest ts)) ≡ false
name_bytes-head [] ts p = name_rest-head ts
name_bytes-head (c ∷ t) ts p = ground arith

pub name_bytes-wild :
    (t : List ℕ) (ts : List (List ℕ))
    → IsPlain t
    → AllPlain ts
    → has_wildcard (t ++ name_rest ts) ≡ false
name_bytes-wild t ts p h = wild-append t (name_rest ts) p (name_rest-wild ts h)
