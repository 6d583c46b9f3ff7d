-- ===== src/Subs/Visits.antt =====
-- The walk of `sub__search`: what each step adds to the nodes that were visited, and what it keeps.
use dimq.Subs.{Hier, Topics}
use dimq.Subs.Search.{
  Code, success, no_subscribers, failed, Walk, going, stopped, after, finish, below, is_last,
  branch,
}
use dimq.Prelude.{
  ℕ, ◌≡◌, ◌≢◌, ◌⊎◌, inl, inr, true, false, List, [], ◌∷◌, ◌++◌, map, Option, none, some, Bool-cases,
  refl, ap, sym, subst, if◌then◌else◌,
}

abbrev pub In : Topics → List Topics → Type 0
In p [] = ⊥
In p (q ∷ qs) = (p ≡ q) ⊎ In p qs

pub In-left : (p : Topics) (ps qs : List Topics) → In p ps → In p (ps ++ qs)
In-left p [] qs h = absurd h
In-left p (q ∷ ps) qs (inl e) = inl e
In-left p (q ∷ ps) qs (inr h) = inr (In-left p ps qs h)

pub In-right : (p : Topics) (ps qs : List Topics) → In p qs → In p (ps ++ qs)
In-right p [] qs h = h
In-right p (q ∷ ps) qs h = inr (In-right p ps qs h)

In-append : (p : Topics) (ps qs : List Topics) → In p (ps ++ qs) → In p ps ⊎ In p qs
In-append p [] qs h = inr h
In-append p (q ∷ ps) qs (inl e) = inl (inl e)
In-append p (q ∷ ps) qs (inr h) = elim (In-append p ps qs h) [ inl a ↦ inl (inr a) | inr b ↦ inr b ]

pub In-below :
    (topic : List ℕ) (p : Topics) (ps : List Topics) → In p ps → In (topic ∷ p) (map (◌∷◌ topic) ps)
In-below topic p [] h = h
In-below topic p (q ∷ ps) (inl e) = inl (ap (◌∷◌ topic) e)
In-below topic p (q ∷ ps) (inr h) = inr (In-below topic p ps h)

pub below-In :
    (topic : List ℕ) (p : Topics) (ps : List Topics)
    → In p (map (◌∷◌ topic) ps)
    → (q : Topics) × (p ≡ topic ∷ q) × In q ps
below-In topic p [] h = absurd h
below-In topic p (q ∷ ps) (inl e) = (q, e, inl refl)
below-In topic p (q ∷ ps) (inr h) = let (r, e, k) = below-In topic p ps h in (r, e, inr k)

-- The node that a topic of the walk leads to.
abbrev pub visited : Walk → List Topics
visited (going have ps) = ps
visited (stopped ps) = ps

-- Every visited path has the property.
abbrev pub AllVisited : (Topics → Type 0) → List Topics → Type 0
AllVisited P ps = (p : Topics) → In p ps → P p

pub after-AllVisited :
    (P : Topics → Type 0) (w : Walk) (c : Code) (qs : List Topics)
    → AllVisited P (visited w)
    → AllVisited P qs
    → AllVisited P (visited (after w (c, qs)))
after-AllVisited P (stopped ps) c qs h k = h
after-AllVisited P (going have ps) success qs h k =
    λ p i. elim (In-append p ps qs i) [ inl a ↦ h p a | inr b ↦ k p b ]
after-AllVisited P (going have ps) no_subscribers qs h k =
    λ p i. elim (In-append p ps qs i) [ inl a ↦ h p a | inr b ↦ k p b ]
after-AllVisited P (going have ps) failed qs h k =
    λ p i. elim (In-append p ps qs i) [ inl a ↦ h p a | inr b ↦ k p b ]

pub finish-AllVisited :
    (P : Topics → Type 0) (w : Walk) → AllVisited P (visited w) → AllVisited P (finish w).1
finish-AllVisited P (stopped ps) h = h
finish-AllVisited P (going true ps) h = h
finish-AllVisited P (going false ps) h = h

-- The path was visited, unless the walk was broken off.
abbrev pub Has : Topics → Walk → Type 0
Has p (going have ps) = In p ps
Has p (stopped ps) = Unit

pub after-keep : (p : Topics) (w : Walk) (x : Code × List Topics) → Has p w → Has p (after w x)
after-keep p (stopped ps) x h = h
after-keep p (going have ps) (success, qs) h = In-left p ps qs h
after-keep p (going have ps) (no_subscribers, qs) h = In-left p ps qs h
after-keep p (going have ps) (failed, qs) h = tt

pub after-add :
    (p : Topics) (w : Walk) (c : Code) (qs : List Topics)
    → (c ≢ failed → In p qs)
    → Has p (after w (c, qs))
after-add p (stopped ps) c qs h = tt
after-add p (going have ps) success qs h = In-right p ps qs (h (λ e. cc))
after-add p (going have ps) no_subscribers qs h = In-right p ps qs (h (λ e. cc))
after-add p (going have ps) failed qs h = tt

pub finish-Has : (p : Topics) (w : Walk) → (finish w).0 ≢ failed → Has p w → In p (finish w).1
finish-Has p (stopped ps) n h = absurd (n refl)
finish-Has p (going true ps) n h = h
finish-Has p (going false ps) n h = h

module _ (process : Hier → Code) (search_in : Hier → Code × List Topics) (topic : List ℕ)
    (ts : Topics) where
  pub branch-AllVisited :
      (P : Topics → Type 0) (o : Option Hier) (w : Walk)
      → AllVisited P (visited w)
      → ((b : Hier) (q : Topics) → o ≡ some b → In q (search_in b).1 → P (topic ∷ q))
      → ((b : Hier) → o ≡ some b → ts ≡ [] → P (topic ∷ []))
      → AllVisited P (visited (branch process search_in topic ts o w))
  unfolding branch
  branch-AllVisited P none w h k l = h
  branch-AllVisited P (some b) w h k l = go ts refl
    where
      inner : AllVisited P (visited (after w (below topic (search_in b))))
      inner = after-AllVisited P w (search_in b).0 (map (◌∷◌ topic) (search_in b).1) h λ p i.
          let (q, e, j) = below-In topic p (search_in b).1 i in subst P (sym e) (k b q refl j)

      go :
          (us : Topics)
          → ts ≡ us
          → AllVisited P (
              visited (
                let w' = after w (below topic (search_in b)) in
                if is_last us then after w' (process b, (topic ∷ []) ∷ []) else w'))
      go [] e =
          after-AllVisited P (after w (below topic (search_in b))) (process b) ((topic ∷ []) ∷ [])
            inner λ p i. elim i [ inl d ↦ subst P (sym d) (l b refl e) | inr z ↦ absurd z ]
      go (u ∷ us) e = inner

  pub branch-keep :
      (p : Topics) (o : Option Hier) (w : Walk)
      → Has p w
      → Has p (branch process search_in topic ts o w)
  unfolding branch
  branch-keep p none w h = h
  branch-keep p (some b) w h = elim (Bool-cases (is_last ts)) [
    | inl t ↦ rw t (after-keep p _ _ (after-keep p w _ h))
    | inr t ↦ rw t (after-keep p w _ h)
  ]

  pub branch-below :
      (q : Topics) (b : Hier) (w : Walk)
      → ((search_in b).0 ≢ failed → In q (search_in b).1)
      → Has (topic ∷ q) (branch process search_in topic ts (some b) w)
  unfolding branch
  branch-below q b w h =
      let added =
        after-add (topic ∷ q) w (search_in b).0 (map (◌∷◌ topic) (search_in b).1)
          (λ n. In-below topic q (search_in b).1 (h n)) in
      elim (Bool-cases (is_last ts)) [
        | inl t ↦ rw t (after-keep (topic ∷ q) _ _ added)
        | inr t ↦ rw t added
      ]

  pub branch-last :
      (b : Hier) (w : Walk)
      → is_last ts ≡ true
      → Has (topic ∷ []) (branch process search_in topic ts (some b) w)
  unfolding branch
  branch-last b w t =
      rw t (after-add (topic ∷ []) _ (process b) ((topic ∷ []) ∷ []) (λ n. inl refl))
