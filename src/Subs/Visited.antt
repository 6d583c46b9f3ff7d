-- ===== src/Subs/Visited.antt =====
-- What `sub__search` gives to `subs__process` are nodes whose filter matches the topic.
use dimq.Prelude.{
  ◌∙◌, ℕ, ◌≡◌, ◌≢◌, ◌⊎◌, inl, inr, false, List, [], ◌∷◌, ◌++◌, map, Option, none, some, Bool-cases,
  arith, refl, sym, subst,
}
use dimq.Subs.{Hier, Topics, find, children_of, at}
use dimq.Subs.Search.{
  Code, Walk, going, plus_text, hash_text, no_children, branch, hash_branch, search,
}
use dimq.Subs.Visits.{visited, AllVisited, after-AllVisited, finish-AllVisited, branch-AllVisited}
use dimq.Topic.Levels.{word, IsPlain, AllPlain, Matches}
use dimq.Topic.Checked.{to_level}

abbrev pub IsThere : Hier → Topics → Type 0
IsThere h p = (b : Hier) × (at h p ≡ some b)

-- Nothing hangs below `#`.
abbrev pub IsTidy : Hier → Type 0
IsTidy h = (p q : Topics) (topic : List ℕ) → at h (p ++ (hash_text ∷ topic ∷ q)) ≡ none

-- A node other than the root, and its filter matches the levels of the topic.
abbrev pub IsMatch : Hier → Topics → Topics → Type 0
IsMatch h ts p = (p ≢ []) × IsThere h p × Matches (map to_level p) ts

pub plain_level : (t : List ℕ) → IsPlain t → to_level t ≡ word t
plain_level [] p = refl
plain_level (c ∷ []) p = ground arith
plain_level (c ∷ d ∷ w) p = refl

pub level_cases : (k : List ℕ) → (k ≡ plus_text) ⊎ ((k ≡ hash_text) ⊎ (to_level k ≡ word k))
level_cases [] = inr (inr refl)
level_cases (c ∷ []) = ground arith
level_cases (c ∷ d ∷ w) = inr (inr refl)

pub at-child :
    (h b : Hier) (topic : List ℕ) (q : Topics)
    → find topic (children_of h) ≡ some b
    → at h (topic ∷ q) ≡ at b q
unfolding at
at-child h b topic q e = rw (at, e) refl

child-IsMatch :
    (h b : Hier) (topic : List ℕ) (q us : Topics)
    → find topic (children_of h) ≡ some b
    → IsThere b q
    → Matches (to_level topic ∷ map to_level q) us
    → IsMatch h us (topic ∷ q)
child-IsMatch h b topic q us e (n, t) m = (λ x. cc, (n, at-child h b topic q e ∙ t), m)

module _ (process : Hier → Code) (h : Hier) where
  hash_branch-AllVisited :
      (ts : Topics) (o : Option Hier) (w : Walk)
      → find hash_text (children_of h) ≡ o
      → AllVisited (IsMatch h ts) (visited w)
      → AllVisited (IsMatch h ts) (visited (hash_branch process o w))
  unfolding hash_branch
  hash_branch-AllVisited ts none w e v = v
  hash_branch-AllVisited ts (some b) w e v = elim (Bool-cases (no_children (children_of b))) [
    | inl t ↦ rw t (
        after-AllVisited (IsMatch h ts) w (process b) ((hash_text ∷ []) ∷ []) v λ p i. elim i [
          | inl d ↦
              subst (IsMatch h ts) (sym d)
                (child-IsMatch h b hash_text [] ts e (b, unfold at in refl) tt)
          | inr z ↦ absurd z
        ])
    | inr t ↦ rw t v
  ]

  -- The walk after the literal branch, after `+`, and at the end.
  abbrev pub literal_walk : List ℕ → Topics → Walk
  literal_walk t ts =
      branch process (λ b. search process b ts) t ts (find t (children_of h)) (going false [])

  abbrev pub plus_walk : List ℕ → Topics → Walk
  plus_walk t ts =
      branch process (λ b. search process b ts) plus_text ts (find plus_text (children_of h))
        (literal_walk t ts)

  abbrev pub hash_walk : Walk → Walk
  hash_walk w = hash_branch process (find hash_text (children_of h)) w

pub search_sound :
    (process : Hier → Code) (h : Hier) (ts : Topics)
    → AllPlain ts
    → AllVisited (IsMatch h ts) (search process h ts).1
unfolding search at
search_sound process h [] plain =
    finish-AllVisited (IsMatch h []) (hash_walk process h (going false [])) (
      hash_branch-AllVisited process h [] (find hash_text (children_of h)) (going false []) refl
        (λ p i. absurd i))
search_sound process h (t ∷ ts) plain =
    let P = IsMatch h (t ∷ ts) in
    let from_branch : (b : Hier) (topic : List ℕ) (q : Topics)
        → find topic (children_of h) ≡ some b
        → Matches (to_level topic ∷ map to_level q) (t ∷ ts)
        → IsThere b q
        → P (topic ∷ q) =
      λ b topic q e m there. child-IsMatch h b topic q (t ∷ ts) e there m in
    let literal =
      branch-AllVisited process (λ b. search process b ts) t ts P (find t (children_of h))
        (going false []) (λ p i. absurd i)
        (λ b q e i.
          let (n, there, m) = search_sound process b ts plain.1 q i in
          from_branch b t q e (rw (plain_level t plain.0) (refl, m)) there)
        (λ b e z. from_branch b t [] e (rw (plain_level t plain.0, z) (refl, tt)) (b, refl)) in
    let plus =
      branch-AllVisited process (λ b. search process b ts) plus_text ts P
        (find plus_text (children_of h)) (literal_walk process h t ts) literal
        (λ b q e i.
          let (n, there, m) = search_sound process b ts plain.1 q i in
          from_branch b plus_text q e m there)
        (λ b e z. from_branch b plus_text [] e (rw z tt) (b, refl)) in
    finish-AllVisited P (hash_walk process h (plus_walk process h t ts)) (
      hash_branch-AllVisited process h (t ∷ ts) (find hash_text (children_of h))
        (plus_walk process h t ts) refl plus)
