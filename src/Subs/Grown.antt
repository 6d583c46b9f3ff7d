-- ===== src/Subs/Grown.antt =====
-- `sub__add_context` of src/subs.c: which nodes are there afterwards.
use dimq.Subs.Complete.{none-ne-some}
use dimq.Topic.Levels.{Level, IsFilter}
use dimq.Subs.Search.{hash_text}
use dimq.Prelude.{
  Option-cases, map, ◌∙◌, ℕ, ◌≡◌, ◌⊎◌, ◌↔◌, inl, inr, List, [], ◌∷◌, ◌++◌, some, Bool-cases, refl,
  sym, subst,
}
use dimq.Topic.Checked.{to_level}
use dimq.Subs.{Leaf, Shared, Hier, Hiers, node, Topics, find, same_text, at}
use dimq.Subs.Add.{add_at, bare}
use dimq.Subs.Added.{
  same_text-same, find-set_child, find-set_child_same, find-add_child, find-add_child_same, round,
}
use dimq.Subs.Visited.{IsThere, IsTidy, at-child}
use dimq.Topic.Decides.{IsFilter-tail}
use dimq.Packet.{Heap}
use dimq.Result.{Err}

-- A path to a node on the way to `p`, `p` itself included
abbrev pub IsOnTheWay : Topics → Topics → Type 0
IsOnTheWay [] p = Unit
IsOnTheWay (t ∷ q) [] = ⊥
IsOnTheWay (t ∷ q) (k ∷ p) = (k ≡ t) × IsOnTheWay q p

hash_is_last :
    (r q p : Topics) (topic : List ℕ)
    → IsFilter (map to_level p)
    → IsOnTheWay (r ++ (hash_text ∷ topic ∷ q)) p
    → ⊥
hash_is_last [] q [] topic filter way = way
hash_is_last [] q (k ∷ []) topic filter way = way.1
hash_is_last [] q (k ∷ l ∷ p) topic filter (e, way) =
    let bad : ◌≡◌ {A = List Level} (to_level l ∷ map to_level p) [] = rw e at filter in cc
hash_is_last (t ∷ r) q [] topic filter way = way
hash_is_last (t ∷ r) q (k ∷ p) topic filter (e, way) =
    hash_is_last r q p topic (IsFilter-tail (to_level k) (map to_level p) filter) way

module _ {X : Type 0} (failed : Err → X)
    (step : List Leaf → List Shared → Heap → X × List Leaf × List Shared × Heap) where
  IsThere-child :
      (a : List Leaf) (c : List Shared) (ch : Hiers) (k : List ℕ) (q : Topics) (b : Hier)
      → find k ch ≡ some b
      → IsThere (node a c ch) (k ∷ q) ↔ IsThere b q
  IsThere-child a c ch k q b e =
      let same = at-child (node a c ch) b k q e in
      (λ (n, there). (n, sym same ∙ there), λ (n, there). (n, same ∙ there))

  IsThere-other :
      (a : List Leaf) (c : List Shared) (ch ch' : Hiers) (t : List ℕ) (q : Topics)
      → find t ch' ≡ find t ch
      → IsThere (node a c ch') (t ∷ q)
      → IsThere (node a c ch) (t ∷ q)
  unfolding at
  IsThere-other a c ch ch' t q e (n, there) = (n, rw (at, e) at there)

  bare_there : (q : Topics) → IsThere bare q → q ≡ []
  unfolding at find
  bare_there [] there = refl
  bare_there (t ∷ q) (n, there) = cc

  IsThere-below :
      (a : List Leaf) (c : List Shared) (ch : Hiers) (k t : List ℕ) (q : Topics) (b : Hier)
      → k ≡ t
      → find k ch ≡ some b
      → IsThere (node a c ch) (t ∷ q)
      → IsThere b q
  IsThere-below a c ch k t q b same e there =
      (IsThere-child a c ch k q b e).0 (subst (λ t. IsThere (node a c ch) (t ∷ q)) (sym same) there)

  -- A node that is there afterwards was there before, or is on the way.
  pub add_at-IsThere :
      (p q : Topics) (h : Hier) (heap : Heap)
      → IsThere (add_at failed step p h heap).1 q
      → IsThere h q ⊎ IsOnTheWay q p
  unfolding add_at at
  add_at-IsThere p [] h heap there = inr tt
  add_at-IsThere [] (t ∷ q) (node a c ch) heap there = inl there
  add_at-IsThere (k ∷ p) (t ∷ q) (node a c ch) heap there =
      elim (round failed step k p a c ch heap) [
        | inl (e, g, early, same) ↦ inl (subst (λ y. IsThere y.1 (t ∷ q)) same there)
        | inr (inl (b, e, same)) ↦
            let now = subst (λ y. IsThere y.1 (t ∷ q)) same there in
            elim (Bool-cases (same_text k t)) [
              | inl s ↦
                  let k_is_t = same_text-same k t s in
                  elim (add_at-IsThere p q b heap
                    (IsThere-below a c _ k t q _ k_is_t (find-set_child_same k _ b ch e) now)) [
                      | inl old ↦ inl (
                          subst (λ t. IsThere (node a c ch) (t ∷ q)) k_is_t
                            ((IsThere-child a c ch k q b e).1 old))
                      | inr way ↦ inr (k_is_t, way)
                    ]
              | inr s ↦ inl (IsThere-other a c ch _ t q (find-set_child k t _ ch s) now)
            ]
        | inr (inr (g, e, same)) ↦
            let now = subst (λ y. IsThere y.1 (t ∷ q)) same there in
            elim (Bool-cases (same_text k t)) [
              | inl s ↦
                  let k_is_t = same_text-same k t s in
                  elim (add_at-IsThere p q bare g
                    (IsThere-below a c _ k t q _ k_is_t (find-add_child_same k _ ch e) now)) [
                      | inl old ↦
                          inr (k_is_t, subst (λ q. IsOnTheWay q p) (sym (bare_there q old)) tt)
                      | inr way ↦ inr (k_is_t, way)
                    ]
              | inr s ↦ inl (IsThere-other a c ch _ t q (find-add_child k t _ ch s) now)
            ]
      ]

  -- `#` is last in a filter, so nothing comes to hang below it.
  pub add_at-IsTidy :
      (p : Topics) (h : Hier) (heap : Heap)
      → IsFilter (map to_level p)
      → IsTidy h
      → IsTidy (add_at failed step p h heap).1
  add_at-IsTidy p h heap filter tidy r q topic =
      elim (Option-cases (at (add_at failed step p h heap).1 (r ++ (hash_text ∷ topic ∷ q)))) [
        | inl e ↦ e
        | inr (n, e) ↦ elim (add_at-IsThere p (r ++ (hash_text ∷ topic ∷ q)) h heap (n, e)) [
          | inl (m, old) ↦ absurd (none-ne-some (sym (tidy r q topic) ∙ old))
          | inr way ↦ absurd (hash_is_last r q p topic filter way)
        ]
      ]
