-- ===== src/Topic/Checked.antt =====
-- What `dimq_sub_topic_check` and `dimq_pub_topic_check` accept, and what `dimq_topic_matches_sub2`
-- then answers.
use dimq.Result.{inval, Result, ok, err, success, ◌>>=◌, >>=-success}
use native.Mathlib.Decide.{ℕ_discrete}
use dimq.Prelude.{
  ltb, ◌∙◌, ℕ, ◌+◌, ◌≡◌, ◌≢◌, ◌==◌, ◌⊎◌, inl, inr, Bool, true, ◌||◌, List, [], ◌∷◌, map, some,
  arith, refl, ap, subst, sym, if◌then◌else◌,
}
use dimq.Topic.Levels.{
  Level, plus, hash, word, IsPlain, AllPlain, IsFilter, level_bytes, filter_rest, filter_bytes,
  name_rest, name_bytes, Matches,
}
use dimq.Topic.Decides.{Decides, SameDollar, levels_decide}
use dimq.Topic.Match.{topic_matches_sub}
use dimq.Topic.Agree.{NoNul}
use dimq.Topic.{
  head_or_nul, sub_scan, pub_scan, sub_topic_check, pub_topic_check, count_level, check_depth,
}

-- The bytes up to the first separator, and the levels behind it.
abbrev pub push : ℕ → List ℕ × List (List ℕ) → List ℕ × List (List ℕ)
push c (l, ls) = if c == b'/' then ([], l ∷ ls) else (c ∷ l, ls)

unfoldable pub split : List ℕ → List ℕ × List (List ℕ)
split [] = ([], [])
split (c ∷ s) = push c (split s)

abbrev pub to_level : List ℕ → Level
to_level [] = word []
to_level (c ∷ []) = if c == b'+' then plus else if c == b'#' then hash else word (c ∷ [])
to_level (c ∷ d ∷ w) = word (c ∷ d ∷ w)

abbrev pub filter_levels : List ℕ → List Level
filter_levels s = to_level (split s).0 ∷ map to_level (split s).1

abbrev pub name_levels : List ℕ → List (List ℕ)
name_levels s = (split s).0 ∷ (split s).1

name_bytes-push :
    (c : ℕ) (l : List ℕ) (ls : List (List ℕ))
    → name_bytes (push c (l, ls)).0 (push c (l, ls)).1 ≡ c ∷ name_bytes l ls
name_bytes-push c l ls = ground arith

pub name_bytes-split : (s : List ℕ) → name_bytes (split s).0 (split s).1 ≡ s
unfolding split
name_bytes-split [] = refl
name_bytes-split (c ∷ s) =
    name_bytes-push c (split s).0 (split s).1 ∙ ap (λ r. c ∷ r) (name_bytes-split s)

level_bytes-to_level : (w : List ℕ) → level_bytes (to_level w) ≡ w
level_bytes-to_level [] = refl
level_bytes-to_level (c ∷ []) = ground arith
level_bytes-to_level (c ∷ d ∷ w) = refl

filter_rest-levels : (ls : List (List ℕ)) → filter_rest (map to_level ls) ≡ name_rest ls
filter_rest-levels [] = refl
filter_rest-levels (l ∷ ls) = rw (level_bytes-to_level l, filter_rest-levels ls) refl

pub filter_bytes-levels :
    (s : List ℕ) → filter_bytes (to_level (split s).0) (map to_level (split s).1) ≡ s
filter_bytes-levels s =
    rw (level_bytes-to_level (split s).0, filter_rest-levels (split s).1) (name_bytes-split s)

plain_level : (c : ℕ) (w : List ℕ) → IsPlain (c ∷ w) → to_level (c ∷ w) ≡ word (c ∷ w)
plain_level c [] p = ground arith
plain_level c (d ∷ w) p = refl

-- A topic name that is accepted has no wildcards.
pub_scan-IsPlain :
    (str : List ℕ) (len hier : ℕ) (r : ℕ × ℕ)
    → NoNul str
    → pub_scan str len hier ≡ ok r
    → IsPlain (split str).0 × AllPlain (split str).1
unfolding pub_scan split
pub_scan-IsPlain [] len hier r n e = (tt, tt)
pub_scan-IsPlain (c ∷ str) len hier r n e =
    let ih = pub_scan-IsPlain str (len + 1) (count_level c hier) r n.1 in ground (arith, ih)

-- What a round of the scan of a filter has found.
scan_next :
    (c x : ℕ) (s : List ℕ) (len hier : ℕ) (r : ℕ × ℕ)
    → sub_scan c (x ∷ s) len hier ≡ ok r
    → sub_scan x s (len + 1) (count_level x hier) ≡ ok r
unfolding sub_scan
scan_next c x s len hier r e = ground arith

scan_front :
    (c x : ℕ) (s : List ℕ) (len hier : ℕ) (r : ℕ × ℕ)
    → sub_scan c (x ∷ s) len hier ≡ ok r
    → (x == b'+' || x == b'#') ≡ true
    → (c ≡ 0) ⊎ (c ≡ b'/')
unfolding sub_scan
scan_front c x s len hier r e h = ground arith

scan_plus :
    (c : ℕ) (s : List ℕ) (len hier : ℕ) (r : ℕ × ℕ)
    → sub_scan c (b'+' ∷ s) len hier ≡ ok r
    → (head_or_nul s ≡ 0) ⊎ (head_or_nul s ≡ b'/')
unfolding sub_scan
scan_plus c s len hier r e = ground arith

scan_hash :
    (c : ℕ) (s : List ℕ) (len hier : ℕ) (r : ℕ × ℕ)
    → sub_scan c (b'#' ∷ s) len hier ≡ ok r
    → head_or_nul s ≡ 0
unfolding sub_scan
scan_hash c s len hier r e = ground arith

-- At the start of a level, and inside of one.
abbrev AtStart : List ℕ → Type 0
AtStart str =
    (c len hier : ℕ) (r : ℕ × ℕ)
    → sub_scan c str len hier ≡ ok r
    → (c ≡ 0) ⊎ (c ≡ b'/')
    → IsFilter (filter_levels str)

abbrev Inside : List ℕ → Type 0
Inside str =
    (c len hier : ℕ) (r : ℕ × ℕ)
    → sub_scan c str len hier ≡ ok r
    → c ≢ 0
    → c ≢ b'/'
    → IsPlain (split str).0 × IsFilter (map to_level (split str).1)

split_slash : (s : List ℕ) → split (b'/' ∷ s) ≡ ([], (split s).0 ∷ (split s).1)
unfolding split
split_slash s = refl

split_other : (x : ℕ) (s : List ℕ) → x ≢ b'/' → split (x ∷ s) ≡ (x ∷ (split s).0, (split s).1)
unfolding split
split_other x s h = ground arith

-- Behind a `+` the level is over.
level_over :
    (s : List ℕ) → NoNul s → (head_or_nul s ≡ 0) ⊎ (head_or_nul s ≡ b'/') → (split s).0 ≡ []
unfolding split
level_over [] n h = refl
level_over (x ∷ s) n h = ground arith

string_over : (s : List ℕ) → NoNul s → head_or_nul s ≡ 0 → s ≡ []
string_over [] n h = refl
string_over (x ∷ s) n h = absurd (n.0 h)

slash_start : (s : List ℕ) → AtStart s → AtStart (b'/' ∷ s)
slash_start s ih c len hier r e h =
    rw (split_slash s)
      (tt, ih b'/' (len + 1) (hier + 1) r (scan_next c b'/' s len hier r e) (inr refl))

slash-Inside : (s : List ℕ) → AtStart s → Inside (b'/' ∷ s)
slash-Inside s ih c len hier r e h k =
    rw (split_slash s)
      (tt, ih b'/' (len + 1) (hier + 1) r (scan_next c b'/' s len hier r e) (inr refl))

plus_start : (s : List ℕ) → NoNul s → Inside s → AtStart (b'+' ∷ s)
plus_start s n ih c len hier r e h =
    rw (split_other b'+' s (λ x. absurd (omega arith)), level_over s n (scan_plus c s len hier r e))
      (ih b'+' (len + 1) hier r (scan_next c b'+' s len hier r e) (λ x. absurd (omega arith))
        (λ x. absurd (omega arith))).1

hash_start : (s : List ℕ) → NoNul s → AtStart (b'#' ∷ s)
unfolding split
hash_start s n c len hier r e h =
    subst (λ u. IsFilter (filter_levels (b'#' ∷ u)))
      (sym (string_over s n (scan_hash c s len hier r e))) refl

word_start :
    (x : ℕ) (s : List ℕ) → x ≢ 0 → x ≢ b'/' → x ≢ b'+' → x ≢ b'#' → Inside s → AtStart (x ∷ s)
word_start x s n0 n1 n2 n3 ih c len hier r e h =
    let (p, q) = ih x (len + 1) (count_level x hier) r (scan_next c x s len hier r e) n0 n1 in
    rw (split_other x s n1)
      (rw (plain_level x (split s).0 ((n0, n1, n2, n3), p)) (((n0, n1, n2, n3), p), q))

word-Inside : (x : ℕ) (s : List ℕ) → x ≢ 0 → x ≢ b'/' → Inside s → Inside (x ∷ s)
word-Inside x s n0 n1 ih c len hier r e h k =
    let (p, q) = ih x (len + 1) (count_level x hier) r (scan_next c x s len hier r e) n0 n1 in
    let front = scan_front c x s len hier r e in
    rw (split_other x s n1) (((n0, n1, ground (arith, front), ground (arith, front)), p), q)

sub_scan-filter : (str : List ℕ) → NoNul str → AtStart str × Inside str
unfolding split
sub_scan-filter [] n = (λ c len hier r e h. (tt, tt), λ c len hier r e h k. (tt, tt))
sub_scan-filter (x ∷ s) n =
    let (a, b) = sub_scan-filter s n.1 in
    elim (ℕ_discrete x b'/') [
      | yes e ↦
          subst (λ y. AtStart (y ∷ s) × Inside (y ∷ s)) (sym e) (slash_start s a, slash-Inside s a)
      | no n1 ↦ (
        elim (ℕ_discrete x b'+') [
          | yes e ↦ subst (λ y. AtStart (y ∷ s)) (sym e) (plus_start s n.1 b)
          | no n2 ↦ elim (ℕ_discrete x b'#') [
            | yes e ↦ subst (λ y. AtStart (y ∷ s)) (sym e) (hash_start s n.1)
            | no n3 ↦ word_start x s n.0 n1 n2 n3 b
          ]
        ],
        word-Inside x s n.0 n1 b,
      )
    ]

checked :
    (broker : Bool) (m : Result (ℕ × ℕ))
    → (m >>= λ (len, h). if ltb 65535 len then err inval else check_depth broker h) ≡ success
    → (r : ℕ × ℕ) × (m ≡ ok r)
checked broker m e = let (r, p, q) = >>=-success m _ e in (r, p)

pub sub_topic_check-IsFilter :
    (broker : Bool) (sub : List ℕ)
    → NoNul sub
    → sub_topic_check broker (some sub) ≡ success
    → IsFilter (filter_levels sub)
unfolding sub_topic_check
sub_topic_check-IsFilter broker sub n es =
    let (r, scanned) = checked broker (sub_scan 0 sub 0 0) es in
    (sub_scan-filter sub n).0 0 0 0 r scanned (inl refl)

pub pub_topic_check-AllPlain :
    (broker : Bool) (topic : List ℕ)
    → NoNul topic
    → pub_topic_check broker (some topic) ≡ success
    → AllPlain (name_levels topic)
unfolding pub_topic_check
pub_topic_check-AllPlain broker topic m et =
    let (k, plain) = checked broker (pub_scan topic 0 0) et in pub_scan-IsPlain topic 0 0 k m plain

-- For a filter that `dimq_sub_topic_check` accepts and a name that `dimq_pub_topic_check` accepts,
-- both of one byte at least and with no NUL in them, `dimq_topic_matches_sub2` gives an answer, and it
-- is whether the levels of the filter match those of the name; and whether both or none begin with `$`.
pub topic_matches_sub-Decides :
    (broker : Bool) (sub topic : List ℕ)
    → NoNul sub
    → NoNul topic
    → sub ≢ []
    → topic ≢ []
    → sub_topic_check broker (some sub) ≡ success
    → pub_topic_check broker (some topic) ≡ success
    → Decides
        (SameDollar sub topic × Matches (filter_levels sub) (name_levels topic))
        (topic_matches_sub (some sub) (some topic))
topic_matches_sub-Decides broker sub topic n m ns nt es et =
    let good = sub_topic_check-IsFilter broker sub n es in
    let (p, q) = pub_topic_check-AllPlain broker topic m et in
    let back = filter_bytes-levels sub in
    let same = name_bytes-split topic in
    rw (back, same) at
      (levels_decide (to_level (split sub).0) (map to_level (split sub).1) (split topic).0
        (split topic).1 good p q (λ e. ns (sym back ∙ e)) (λ e. nt (sym same ∙ e)))
