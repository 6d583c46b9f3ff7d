-- ===== src/Topic/Decides.antt =====
-- `dimq_topic_matches_sub2` decides whether a filter matches a topic name.
use dimq.Topic.Matched.{
  name_bytes-wild, advance, after_plus, loop_equal, loop_differs, loop_plus, loop_hash,
  name_rest-wild, skip_level-name, filter_rest-hash, filter_bytes-hash, name_bytes-head,
}
use dimq.Prelude.{
  ◌∙◌, ℕ, ◌≡◌, ◌≢◌, ◌==◌, Bool, true, false, not, ◌&&◌, ◌||◌, List, [], ◌∷◌, ◌++◌, Option, none,
  some, arith, refl, subst, sym, if◌then◌else◌,
}
use dimq.Topic.Match.{
  topic_matches_sub, matches_loop, is_wildcard, has_wildcard, hash_inside, bad_front, is_empty,
  is_plus_char,
}
use dimq.Topic.Levels.{
  Level, plus, hash, word, IsPlain, AllPlain, IsFilter, level_bytes, filter_rest, filter_bytes,
  name_rest, name_bytes, Matches,
}
use dimq.Topic.{head_or_nul}
use native.Mathlib.Decide.{ℕ_discrete}
use dimq.Result.{Result, ok, err, fault}

-- The run gave an answer, and it is right about `G`.
abbrev pub Decides : Type 0 → Result Bool → Type 0
Decides G (ok true) = G
Decides G (ok false) = ¬ G
Decides G (err e) = ⊥
Decides G fault = ⊥

Decides-iff : {G H : Type 0} (r : Result Bool) → (G → H) → (H → G) → Decides G r → Decides H r
Decides-iff (ok true) f g d = f d
Decides-iff (ok false) f g d = λ h. d (g h)
Decides-iff (err e) f g d = d
Decides-iff fault f g d = d

says_no : {G : Type 0} (r : Result Bool) → r ≡ ok false → ¬ G → Decides G r
says_no {G} r e n = subst (Decides G) (sym e) n

says_yes : {G : Type 0} (r : Result Bool) → r ≡ ok true → G → Decides G r
says_yes {G} r e g = subst (Decides G) (sym e) g

loop_nil :
    (prev : Option ℕ) (topic : List ℕ)
    → has_wildcard topic ≡ false
    → matches_loop prev [] topic ≡ ok false
unfolding matches_loop
loop_nil prev topic h = ground arith

-- A byte that is no wildcard and differs, and no `/#` behind a `+` at the end of the topic.
differs_false :
    (prev : Option ℕ) (c : ℕ) (sub topic : List ℕ)
    → is_wildcard c ≡ false
    → is_wildcard (head_or_nul topic) ≡ false
    → c ≢ head_or_nul topic
    → (head_or_nul topic == 0 && is_plus_char prev && c == b'/' && head_or_nul sub == b'#') ≡ false
    → hash_inside (c ∷ sub) ≡ false
    → matches_loop prev (c ∷ sub) topic ≡ ok false
differs_false prev c sub topic w v n k h =
    loop_differs prev c sub topic w v n ∙ ground (arith, k, h)

no_hash_head :
    (w : List ℕ) (fs : List Level) → IsPlain w → (head_or_nul (w ++ filter_rest fs) == b'#') ≡ false
no_hash_head [] [] p = refl
no_hash_head [] (f ∷ fs) p = refl
no_hash_head (c ∷ w) fs p = ground arith

advance_more :
    (s c d : ℕ) (sub topic : List ℕ)
    → d ≢ 0
    → advance s (c ∷ sub) (d ∷ topic) ≡ matches_loop (some s) (c ∷ sub) (d ∷ topic)
advance_more s c d sub topic h = ground arith

advance_nil :
    (s d : ℕ) (topic : List ℕ)
    → d ≢ 0
    → advance s [] (d ∷ topic) ≡ matches_loop (some s) [] (d ∷ topic)
advance_nil s d topic h = ground arith

advance_end :
    (s c : ℕ) (sub : List ℕ)
    → c ≢ 0
    → c ≢ b'/'
    → c ≢ b'+'
    → advance s (c ∷ sub) [] ≡ matches_loop (some s) (c ∷ sub) []
advance_end s c sub h k l = ground arith

-- What is known at the end of a level, behind a matching byte and behind a `+`.
abbrev Ends : List Level → List (List ℕ) → Type 0
Ends fs ts =
    ((s : ℕ) → s ≢ b'+' → Decides (Matches fs ts) (advance s (filter_rest fs) (name_rest ts)))
    × Decides (Matches fs ts) (after_plus (filter_rest fs) (name_rest ts))

-- The answer `false` to an equation of words that fails.
word_level :
    (w t : List ℕ) (fs : List Level) (ts : List (List ℕ)) (s : ℕ)
    → s ≢ b'+'
    → IsPlain w
    → IsPlain t
    → IsFilter fs
    → AllPlain ts
    → Ends fs ts
    → Decides ((w ≡ t) × Matches fs ts) (advance s (w ++ filter_rest fs) (t ++ name_rest ts))
word_level [] [] fs ts s n p q v u e =
    Decides-iff (advance s (filter_rest fs) (name_rest ts)) (λ m. (refl, m)) (λ m. m.1) (e.0 s n)
word_level [] (d ∷ t) [] ts s n p q v u e =
    says_no _
      (advance_nil s d (t ++ name_rest ts) q.0.0
        ∙ loop_nil (some s) ((d ∷ t) ++ name_rest ts) (name_bytes-wild (d ∷ t) ts q u))
      (λ m. absurd (ground arith))
word_level [] (d ∷ t) (f ∷ fs) ts s n p q v u e =
    says_no _
      (advance_more s b'/' d (level_bytes f ++ filter_rest fs) (t ++ name_rest ts) q.0.0
        ∙ differs_false (some s) b'/' (level_bytes f ++ filter_rest fs) ((d ∷ t) ++ name_rest ts)
            refl (name_bytes-head (d ∷ t) ts q) (λ x. q.0.1 (sym x)) (ground arith)
            (filter_rest-hash (f ∷ fs) v))
      (λ m. absurd (ground arith))
word_level (c ∷ w) [] fs [] s n p q v u e =
    says_no _
      (advance_end s c (w ++ filter_rest fs) p.0.0 p.0.1 p.0.2
        ∙ differs_false (some s) c (w ++ filter_rest fs) [] (ground arith) refl p.0.0 (ground arith)
            (filter_bytes-hash (c ∷ w) fs p v))
      (λ m. absurd (ground arith))
word_level (c ∷ w) [] fs (t ∷ ts) s n p q v u e =
    says_no _
      (advance_more s c b'/' (w ++ filter_rest fs) (t ++ name_rest ts) (λ x. absurd (omega arith))
        ∙ differs_false (some s) c (w ++ filter_rest fs) (b'/' ∷ (t ++ name_rest ts)) (ground arith)
            refl p.0.1 (ground arith) (filter_bytes-hash (c ∷ w) fs p v))
      (λ m. absurd (ground arith))
word_level (c ∷ w) (d ∷ t) fs ts s n p q v u e = elim (ℕ_discrete c d) [
  | yes same ↦
      subst (Decides ((c ∷ w ≡ d ∷ t) × Matches fs ts))
        (sym (
          advance_more s c d (w ++ filter_rest fs) (t ++ name_rest ts) q.0.0
          ∙ rw (← same) (
              loop_equal (some s) c (w ++ filter_rest fs) (t ++ name_rest ts) p.0.0
                (ground arith))))
        (Decides-iff (advance c (w ++ filter_rest fs) (t ++ name_rest ts))
          (λ (x, m). (rw (same, x) refl, m)) (λ (x, m). (ground arith, m))
          (word_level w t fs ts c p.0.2 p.1 q.1 v u e))
  | no other ↦
      says_no _
        (advance_more s c d (w ++ filter_rest fs) (t ++ name_rest ts) q.0.0
          ∙ differs_false (some s) c (w ++ filter_rest fs) ((d ∷ t) ++ name_rest ts) (ground arith)
              (name_bytes-head (d ∷ t) ts q) other (ground arith)
              (filter_bytes-hash (c ∷ w) fs p v))
        (λ m. absurd (ground arith))
]

advance_slash :
    (s : ℕ) (sub : List ℕ)
    → (head_or_nul sub == b'#') ≡ false
    → advance s (b'/' ∷ sub) [] ≡ matches_loop (some s) (b'/' ∷ sub) []
advance_slash s sub h = rw h refl

pub IsFilter-tail : (f : Level) (fs : List Level) → IsFilter (f ∷ fs) → IsFilter fs
IsFilter-tail plus fs v = v
IsFilter-tail hash fs v = subst IsFilter (sym v) tt
IsFilter-tail (word w) fs v = v.1

plus_front :
    (fs : List Level)
    → (not (head_or_nul (filter_rest fs) == 0) && not (head_or_nul (filter_rest fs) == b'/'))
      ≡ false
plus_front [] = refl
plus_front (f ∷ fs) = refl

plus_level :
    (prev : Option ℕ) (fs : List Level) (t : List ℕ) (ts : List (List ℕ))
    → bad_front prev ≡ false
    → IsPlain t
    → matches_loop prev (b'+' ∷ filter_rest fs) (t ++ name_rest ts)
      ≡ after_plus (filter_rest fs) (name_rest ts)
plus_level prev fs t ts b q =
    loop_plus prev (filter_rest fs) (t ++ name_rest ts) b (name_bytes-head t ts q) (plus_front fs)
    ∙ rw (skip_level-name t ts q) refl

hash_level :
    (topic : List ℕ) → has_wildcard topic ≡ false → advance b'/' (b'#' ∷ []) topic ≡ ok true
hash_level topic w = ground (arith, loop_hash (some b'/') topic refl w)

-- From the start of a level, behind a separator.
start :
    (f : Level) (fs : List Level) (t : List ℕ) (ts : List (List ℕ))
    → IsFilter (f ∷ fs)
    → IsPlain t
    → AllPlain ts
    → Ends fs ts
    → Decides (Matches (f ∷ fs) (t ∷ ts)) (advance b'/' (filter_bytes f fs) (name_bytes t ts))
start (word w) fs t ts v q u e = word_level w t fs ts b'/' (λ x. absurd (omega arith)) v.0 q v.1 u e
start plus fs (d ∷ t) ts v q u e =
    subst (Decides (Matches fs ts))
      (sym (
        advance_more b'/' b'+' d (filter_rest fs) (t ++ name_rest ts) q.0.0
        ∙ plus_level (some b'/') fs (d ∷ t) ts refl q))
      e.1
start plus fs [] (t ∷ ts) v q u e =
    subst (Decides (Matches fs (t ∷ ts)))
      (sym (
        advance_more b'/' b'+' b'/' (filter_rest fs) (t ++ name_rest ts) (λ x. absurd (omega arith))
        ∙ plus_level (some b'/') fs [] (t ∷ ts) refl tt))
      e.1
start plus [] [] [] v q u e = tt
start plus (f ∷ fs) [] [] v q u e =
    subst (Decides (Matches (f ∷ fs) [])) (sym (plus_level (some b'/') (f ∷ fs) [] [] refl tt)) e.1
start hash fs t ts v q u e =
    subst (λ gs. Decides (Unit {0}) (advance b'/' (b'#' ∷ filter_rest gs) (name_bytes t ts)))
      (sym v) (says_yes _ (hash_level (name_bytes t ts) (name_bytes-wild t ts q u)) tt)

ends : (fs : List Level) (ts : List (List ℕ)) → IsFilter fs → AllPlain ts → Ends fs ts
ends [] [] v u = (λ s n. tt, tt)
ends [] (t ∷ ts) v u =
    let r = name_rest (t ∷ ts) in
    let w = name_rest-wild (t ∷ ts) u in
    (
      λ s n. says_no _ (loop_nil (some s) r w) (λ m. m),
      says_no _ (loop_nil (some b'+') r w) (λ m. m),
    )
ends (plus ∷ fs) [] v u = (
  λ s n.
      says_no _
        (differs_false (some s) b'/' (b'+' ∷ filter_rest fs) [] refl refl
          (λ x. absurd (omega arith)) (ground arith) (filter_rest-hash (plus ∷ fs) v))
        (λ m. m),
  says_no _
      (differs_false (some b'+') b'/' (b'+' ∷ filter_rest fs) [] refl refl
        (λ x. absurd (omega arith)) (ground arith) (filter_rest-hash (plus ∷ fs) v))
      (λ m. m),
)
ends (hash ∷ fs) [] v u =
    subst (λ gs. Ends (hash ∷ gs) []) (sym v)
      (
        λ s n. tt,
        says_yes _
            (loop_differs (some b'+') b'/' (b'#' ∷ []) [] refl refl (λ x. absurd (omega arith))) tt,
      )
ends (word w ∷ fs) [] v u =
    let k = no_hash_head w fs v.0 in
    (
      λ s n.
          says_no _
            (advance_slash s (w ++ filter_rest fs) k
              ∙ differs_false (some s) b'/' (w ++ filter_rest fs) [] refl refl
                  (λ x. absurd (omega arith)) (ground (arith, k))
                  (filter_rest-hash (word w ∷ fs) v))
            (λ m. m),
      says_no _
          (differs_false (some b'+') b'/' (w ++ filter_rest fs) [] refl refl
            (λ x. absurd (omega arith)) (ground (arith, k)) (filter_rest-hash (word w ∷ fs) v))
          (λ m. m),
    )
ends (f ∷ fs) (t ∷ ts) v u =
    let sub = level_bytes f ++ filter_rest fs in
    let topic = t ++ name_rest ts in
    let next = start f fs t ts v u.0 u.1 (ends fs ts (IsFilter-tail f fs v) u.1) in
    let step = λ (s : ℕ). loop_equal (some s) b'/' sub topic (λ x. absurd (omega arith)) refl in
    (
      λ s n. subst (Decides (Matches (f ∷ fs) (t ∷ ts))) (sym (step s)) next,
      subst (Decides (Matches (f ∷ fs) (t ∷ ts))) (sym (step b'+')) next,
    )

loop_front : (sub topic : List ℕ) → matches_loop none sub topic ≡ matches_loop (some b'/') sub topic
unfolding matches_loop
loop_front [] topic = refl
loop_front (c ∷ sub) topic = refl

-- Names that begin with `$` are matched by filters that do so only.
abbrev pub SameDollar : List ℕ → List ℕ → Type 0
SameDollar sub topic = (head_or_nul sub == b'$') ≡ (head_or_nul topic == b'$')

not_empty : (xs : List ℕ) → xs ≢ [] → is_empty xs ≡ false
not_empty [] h = absurd (h refl)
not_empty (x ∷ xs) h = refl

name_first :
    (t : List ℕ) (ts : List (List ℕ))
    → IsPlain t
    → name_bytes t ts ≢ []
    → head_or_nul (name_bytes t ts) ≢ 0
name_first [] [] q n = absurd (n refl)
name_first [] (t ∷ ts) q n = λ x. absurd (omega arith)
name_first (c ∷ t) ts q n = q.0.0

advance_first :
    (sub topic : List ℕ)
    → is_empty topic ≡ false
    → head_or_nul topic ≢ 0
    → advance b'/' sub topic ≡ matches_loop (some b'/') sub topic
advance_first sub topic e n = ground arith

dollar_first :
    (sub topic : List ℕ)
    → is_empty sub ≡ false
    → is_empty topic ≡ false
    → topic_matches_sub (some sub) (some topic) ≡ (
        if (head_or_nul sub == b'$' && not (head_or_nul topic == b'$'))
          || (head_or_nul topic == b'$' && not (head_or_nul sub == b'$'))
        then ok false
        else matches_loop none sub topic)
unfolding topic_matches_sub
dollar_first sub topic e n = rw (e, n) refl

dollar-Decides :
    (G : Type 0) (a b : Bool) (r : Result Bool)
    → Decides G r
    → Decides ((a ≡ b) × G) (if (a && not b) || (b && not a) then ok false else r)
dollar-Decides G true true r d = Decides-iff r (λ g. (refl, g)) (λ p. p.1) d
dollar-Decides G false false r d = Decides-iff r (λ g. (refl, g)) (λ p. p.1) d
dollar-Decides G true false r d = λ p. absurd (ground arith)
dollar-Decides G false true r d = λ p. absurd (ground arith)

-- From the start of both strings.
whole :
    (f : Level) (fs : List Level) (t : List ℕ) (ts : List (List ℕ))
    → IsFilter (f ∷ fs)
    → IsPlain t
    → AllPlain ts
    → name_bytes t ts ≢ []
    → Decides (Matches (f ∷ fs) (t ∷ ts)) (matches_loop none (filter_bytes f fs) (name_bytes t ts))
whole f fs t ts v q u n =
    subst (Decides (Matches (f ∷ fs) (t ∷ ts)))
      (advance_first (filter_bytes f fs) (name_bytes t ts) (not_empty (name_bytes t ts) n)
          (name_first t ts q n)
        ∙ sym (loop_front (filter_bytes f fs) (name_bytes t ts)))
      (start f fs t ts v q u (ends fs ts (IsFilter-tail f fs v) u))

pub levels_decide :
    (f : Level) (fs : List Level) (t : List ℕ) (ts : List (List ℕ))
    → IsFilter (f ∷ fs)
    → IsPlain t
    → AllPlain ts
    → filter_bytes f fs ≢ []
    → name_bytes t ts ≢ []
    → Decides
        (SameDollar (filter_bytes f fs) (name_bytes t ts) × Matches (f ∷ fs) (t ∷ ts))
        (topic_matches_sub (some (filter_bytes f fs)) (some (name_bytes t ts)))
levels_decide f fs t ts v q u m n =
    let sub = filter_bytes f fs in
    let topic = name_bytes t ts in
    subst (Decides (SameDollar sub topic × Matches (f ∷ fs) (t ∷ ts)))
      (sym (dollar_first sub topic (not_empty sub m) (not_empty topic n)))
      (dollar-Decides (Matches (f ∷ fs) (t ∷ ts)) (head_or_nul sub == b'$')
        (head_or_nul topic == b'$') (matches_loop none sub topic) (whole f fs t ts v q u n))
