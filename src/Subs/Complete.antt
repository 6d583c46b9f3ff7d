-- ===== src/Subs/Complete.antt =====
-- `sub__search` finds every node whose filter matches the topic.
use dimq.Topic.Levels.{word, AllPlain, Matches}
use dimq.Prelude.{
  ◌∙◌, ℕ, ◌≡◌, ◌≢◌, ◌↔◌, inl, inr, true, false, List, [], ◌∷◌, ◌++◌, map, Option, none, some,
  Bool-cases, Option-cases, arith, refl, sym, subst,
}
use dimq.Subs.{Hier, Hiers, nil, entry, Topics, find, children_of, at, same_text}
use dimq.Subs.Search.{
  Code, failed, Walk, going, plus_text, hash_text, no_children, branch, hash_branch, search,
}
use dimq.Subs.Visits.{
  In, Has, after-keep, after-add, finish-Has, branch-keep, branch-below, branch-last,
}
use dimq.Subs.Visited.{
  IsThere, IsTidy, level_cases, at-child, literal_walk, plus_walk, hash_walk, search_sound,
}
use dimq.Topic.Checked.{to_level}

pub same_text_refl : (s : List ℕ) → same_text s s ≡ true
same_text_refl [] = refl
same_text_refl (c ∷ s) = ground (arith, same_text_refl s)

at-nil : (h : Hier) → at h [] ≡ some h
unfolding at
at-nil h = refl

pub none-ne-some : {A : Type 0} {a : A} → ◌≡◌ {A = Option A} none (some a) → ⊥
none-ne-some e = cc

childless : (cs : Hiers) → ((topic : List ℕ) → find topic cs ≡ none) → no_children cs ≡ true
unfolding find
childless nil h = refl
childless (entry key b rest) h = absurd (none-ne-some (sym (rw (same_text_refl key) at (h key))))

IsThere-into :
    (h : Hier) (topic : List ℕ) (q : Topics)
    → IsThere h (topic ∷ q)
    → (b : Hier) × (find topic (children_of h) ≡ some b) × IsThere b q
unfolding at
IsThere-into h topic q (n, e) = elim (Option-cases (find topic (children_of h))) [
  | inl z ↦ absurd (none-ne-some (rw (at, z) at e))
  | inr (b, z) ↦ (b, z, (n, rw (at, z) at e))
]

child-IsTidy :
    (h b : Hier) (topic : List ℕ) → find topic (children_of h) ≡ some b → IsTidy h → IsTidy b
child-IsTidy h b topic e tidy p q k =
    sym (at-child h b topic (p ++ (hash_text ∷ k ∷ q)) e) ∙ tidy (topic ∷ p) q k

module _ (process : Hier → Code) where
  hash_keep : (p : Topics) (o : Option Hier) (w : Walk) → Has p w → Has p (hash_branch process o w)
  unfolding hash_branch
  hash_keep p none w h = h
  hash_keep p (some b) w h = elim (Bool-cases (no_children (children_of b))) [
    | inl t ↦ rw t (after-keep p w _ h)
    | inr t ↦ rw t h
  ]

  hash_add :
      (b : Hier) (w : Walk)
      → no_children (children_of b) ≡ true
      → Has (hash_text ∷ []) (hash_branch process (some b) w)
  unfolding hash_branch
  hash_add b w t =
      rw t (after-add (hash_text ∷ []) w (process b) ((hash_text ∷ []) ∷ []) (λ n. inl refl))

  Found : Hier → Topics → Type 0
  Found b ts =
      (q : Topics)
      → q ≢ []
      → IsThere b q
      → Matches (map to_level q) ts
      → (search process b ts).0 ≢ failed
      → In q (search process b ts).1

  branch-Has :
      (topic : List ℕ) (ts q : Topics) (b : Hier) (w : Walk)
      → Found b ts
      → IsThere b q
      → Matches (map to_level q) ts
      → Has (topic ∷ q) (branch process (λ b. search process b ts) topic ts (some b) w)
  unfolding Found
  branch-Has topic [] [] b w found there m =
      branch-last process (λ b. search process b []) topic [] b w refl
  branch-Has topic (t ∷ ts) [] b w found there m = absurd m
  branch-Has topic ts (k ∷ q) b w found there m =
      branch-below process (λ b. search process b ts) topic ts (k ∷ q) b w
        (found (k ∷ q) (λ e. cc) there m)

  -- A filter that ends in `#` here.
  hash_Has :
      (h : Hier) (q : Topics) (w : Walk)
      → IsTidy h
      → IsThere h (hash_text ∷ q)
      → Has (hash_text ∷ q) (hash_walk process h w)
  hash_Has h (k ∷ q) w tidy (n, e) = absurd (none-ne-some (sym (tidy [] q k) ∙ e))
  hash_Has h [] w tidy there =
      let (b, e, _) = IsThere-into h hash_text [] there in
      subst (λ o. Has (hash_text ∷ []) (hash_branch process o w)) (sym e)
        (hash_add b w (childless (children_of b) (λ k. bare b k e)))
    where
      bare :
          (b : Hier) (k : List ℕ)
          → find hash_text (children_of h) ≡ some b
          → find k (children_of b) ≡ none
      bare b k e = elim (Option-cases (find k (children_of b))) [
        | inl z ↦ z
        | inr (c, z) ↦ absurd (
            none-ne-some (
              sym (tidy [] [] k)
              ∙ at-child h b hash_text (k ∷ []) e
              ∙ at-child b c k [] z
              ∙ at-nil c))
      ]

the_word :
    (k t : List ℕ) (q ts : Topics)
    → to_level k ≡ word k
    → Matches (map to_level (k ∷ q)) (t ∷ ts)
    → (k ≡ t) × Matches (map to_level q) ts
the_word k t q ts z m = subst (λ l. Matches (l ∷ map to_level q) (t ∷ ts)) z m

module _ (process : Hier → Code) (h b : Hier) (t : List ℕ) (q ts : Topics)
    (found : Found process b ts) (there : IsThere b q) (m : Matches (map to_level q) ts) where
  plus_Has :
      find plus_text (children_of h) ≡ some b
      → Has (plus_text ∷ q) (hash_walk process h (plus_walk process h t ts))
  plus_Has e =
      hash_keep process (plus_text ∷ q) (find hash_text (children_of h)) (plus_walk process h t ts)
        (subst
          (λ o. Has (plus_text ∷ q) (
            branch process (λ c. search process c ts) plus_text ts o (literal_walk process h t ts)))
          (sym e) (branch-Has process plus_text ts q b (literal_walk process h t ts) found there m))

  word_Has :
      find t (children_of h) ≡ some b → Has (t ∷ q) (hash_walk process h (plus_walk process h t ts))
  word_Has e =
      hash_keep process (t ∷ q) (find hash_text (children_of h)) (plus_walk process h t ts) (
        branch-keep process (λ c. search process c ts) plus_text ts (t ∷ q)
          (find plus_text (children_of h)) (literal_walk process h t ts)
          (subst
            (λ o. Has (t ∷ q) (branch process (λ c. search process c ts) t ts o (going false [])))
            (sym e) (branch-Has process t ts q b (going false []) found there m)))

search_complete :
    (process : Hier → Code) (h : Hier) (ts : Topics) → AllPlain ts → IsTidy h → Found process h ts
unfolding Found search
search_complete process h [] plain tidy [] n there m = absurd (n refl)
search_complete process h [] plain tidy (k ∷ q) n there m = λ ok. elim (level_cases k) [
  | inl e ↦ absurd (rw e at m)
  | inr (inl e) ↦
      finish-Has (k ∷ q) (hash_walk process h (going false [])) ok
        (rw e (hash_Has process h q (going false []) tidy (rw e at there)))
  | inr (inr e) ↦ absurd (rw e at m)
]
search_complete process h (t ∷ ts) plain tidy [] n there m = absurd (n refl)
search_complete process h (t ∷ ts) plain tidy (k ∷ q) n there m = λ ok.
    let (b, e, below_b) = IsThere-into h k q there in
    let found = search_complete process b ts plain.1 (child-IsTidy h b k e tidy) in
    finish-Has (k ∷ q) (hash_walk process h (plus_walk process h t ts)) ok (elim (level_cases k) [
      | inl z ↦ rw z (plus_Has process h b t q ts found below_b (rw z at m) (rw z at e))
      | inr (inl z) ↦ rw z (hash_Has process h q (plus_walk process h t ts) tidy (rw z at there))
      | inr (inr z) ↦
          let (same, m') = the_word k t q ts z m in
          subst (λ u. Has (u ∷ q) (hash_walk process h (plus_walk process h t ts))) (sym same)
            (word_Has process h b t q ts found below_b m'
              (subst (λ u. find u (children_of h) ≡ some b) same e))
    ])

search_complete_lem :
    (process : Hier → Code) (h : Hier) (ts p : Topics)
    → AllPlain ts
    → IsTidy h
    → p ≢ []
    → IsThere h p
    → Matches (map to_level p) ts
    → (search process h ts).0 ≢ failed
    → In p (search process h ts).1
unfolding Found
search_complete_lem process h ts p plain tidy n there m =
    search_complete process h ts plain tidy p n there m

-- In a tree with nothing below `#`, and for a topic with no wildcards: unless `subs__process` fails
-- for some node, `sub__search` calls it for a node exactly if the node is there, is not the one where
-- the search began, and the filter that leads to it matches the levels of the topic.
pub search_iff :
    (process : Hier → Code) (h : Hier) (ts p : Topics)
    → AllPlain ts
    → IsTidy h
    → (search process h ts).0 ≢ failed
    → In p (search process h ts).1 ↔ ((p ≢ []) × IsThere h p × Matches (map to_level p) ts)
search_iff process h ts p plain tidy ok = (
  search_sound process h ts plain p,
  λ (n, there, m). search_complete_lem process h ts p plain tidy n there m ok,
)
