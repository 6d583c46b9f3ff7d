-- ===== src/Subs/Added.antt =====
-- `sub__add_context` of src/subs.c: what it does to the node of the filter, and to the others.
use dimq.Subs.Join.{create}
use dimq.Prelude.{
  ◌∙◌, ◌≢◌, ℕ, ◌≡◌, ◌⊎◌, inl, inr, true, false, ltb, length, List, [], ◌∷◌, Option, none, some,
  Bool-cases, Option-cases, arith, refl, ap, sym, subst,
}
use dimq.Subs.Add.{set_child, add_child, add_at, bare}
use dimq.Subs.{
  Leaf, Shared, Hier, Hiers, nil, entry, node, Topics, find, same_text, at, subs_of, shared_of,
}
use dimq.Subs.Complete.{same_text_refl}
use dimq.Packet.{Heap}
use dimq.Result.{Err, nomem, inval}

pub same_text-same : (s t : List ℕ) → same_text s t ≡ true → s ≡ t
same_text-same [] [] e = refl
same_text-same [] (d ∷ t) e = cc
same_text-same (c ∷ s) [] e = cc
same_text-same (c ∷ s) (d ∷ t) e =
    let both : (c ≡ d) × (same_text s t ≡ true) = ground arith in
    let rest = same_text-same s t both.1 in cc

pub find-set_child :
    (k t : List ℕ) (b : Hier) (hs : Hiers)
    → same_text k t ≡ false
    → find t (set_child k b hs) ≡ find t hs
unfolding find set_child
find-set_child k t b nil n = refl
find-set_child k t b (entry key h rest) n = elim (Bool-cases (same_text key k)) [
  | inl e ↦
      let apart : same_text key t ≡ false = rw (same_text-same key k e) n in rw (e, apart) refl
  | inr e ↦ rw (e, find-set_child k t b rest n) refl
]

pub find-set_child_same :
    (k : List ℕ) (b c : Hier) (hs : Hiers) → find k hs ≡ some c → find k (set_child k b hs) ≡ some b
unfolding find set_child
find-set_child_same k b c nil e = cc
find-set_child_same k b c (entry key h rest) e = elim (Bool-cases (same_text key k)) [
  | inl s ↦ rw s (rw s refl)
  | inr s ↦ rw s (rw s (find-set_child_same k b c rest (rw s at e)))
]

pub find-add_child :
    (k t : List ℕ) (b : Hier) (hs : Hiers)
    → same_text k t ≡ false
    → find t (add_child k b hs) ≡ find t hs
unfolding find add_child
find-add_child k t b nil n = rw n refl
find-add_child k t b (entry key h rest) n = rw (find-add_child k t b rest n) refl

pub find-add_child_same :
    (k : List ℕ) (b : Hier) (hs : Hiers) → find k hs ≡ none → find k (add_child k b hs) ≡ some b
unfolding find add_child
find-add_child_same k b nil e = rw (same_text_refl k) refl
find-add_child_same k b (entry key h rest) e = elim (Bool-cases (same_text key k)) [
  | inl s ↦ let bad : some h ≡ none = rw s at e in cc
  | inr s ↦ rw s (find-add_child_same k b rest (rw s at e))
]

-- The subscriptions at a path; where there is no node, none.
abbrev pub content : Option Hier → List Leaf × List Shared
content none = ([], [])
content (some h) = (subs_of h, shared_of h)

unfoldable pub content_at : Hier → Topics → List Leaf × List Shared
content_at h p = content (at h p)

pub content_bare : (q : Topics) → content_at bare q ≡ ([], [])
unfolding content_at at find
content_bare [] = refl
content_bare (t ∷ q) = refl

pub content_child :
    (a : List Leaf) (c : List Shared) (ch : Hiers) (k : List ℕ) (q : Topics) (b : Hier)
    → find k ch ≡ some b
    → content_at (node a c ch) (k ∷ q) ≡ content_at b q
unfolding content_at at
content_child a c ch k q b e = rw (at, e) refl

pub content_no_child :
    (a : List Leaf) (c : List Shared) (ch : Hiers) (k : List ℕ) (q : Topics)
    → find k ch ≡ none
    → content_at (node a c ch) (k ∷ q) ≡ ([], [])
unfolding content_at at
content_no_child a c ch k q e = rw (at, e) refl

pub content_other :
    (a : List Leaf) (c : List Shared) (ch ch' : Hiers) (t : List ℕ) (q : Topics)
    → find t ch' ≡ find t ch
    → content_at (node a c ch') (t ∷ q) ≡ content_at (node a c ch) (t ∷ q)
unfolding content_at at
content_other a c ch ch' t q e = rw (at, e) refl

module _ {X : Type 0} (failed : Err → X)
    (step : List Leaf → List Shared → Heap → X × List Leaf × List Shared × Heap) where
  -- What the loop itself can fail with
  abbrev pub IsEarly : Err → Type 0
  IsEarly e = (e ≡ inval) ⊎ (e ≡ nomem)

  -- One round of the loop: it fails, goes on in a child, or makes one and goes on there.
  pub round :
      (k : List ℕ) (p : Topics) (a : List Leaf) (c : List Shared) (ch : Hiers) (heap : Heap)
      → ((e : Err) × (g : Heap) × IsEarly e
          × (add_at failed step (k ∷ p) (node a c ch) heap ≡ (failed e, node a c ch, g)))
        ⊎ (((b : Hier) × (find k ch ≡ some b)
              × (let y = add_at failed step p b heap in
                  add_at failed step (k ∷ p) (node a c ch) heap
                  ≡ (y.0, node a c (set_child k y.1 ch), y.2)))
            ⊎ ((g : Heap) × (find k ch ≡ none)
                × (let y = add_at failed step p bare g in
                    add_at failed step (k ∷ p) (node a c ch) heap
                    ≡ (y.0, node a c (add_child k y.1 ch), y.2))))
  unfolding add_at
  round k p a c ch heap = elim (Bool-cases (ltb 65535 (length k))) [
    | inl t ↦ inl (inval, heap, inl refl, rw t refl)
    | inr t ↦ elim (Option-cases (find k ch)) [
      | inl e ↦ elim (Bool-cases (create heap).0) [
        | inl made ↦ inr (inr ((create heap).1, e, rw (t, e, made) refl))
        | inr made ↦ inl (nomem, (create heap).1, inr refl, rw (t, e, made) refl)
      ]
      | inr (b, e) ↦ inr (inl (b, e, rw (t, e) refl))
    ]
  ]

  pub add_at_elsewhere :
      (p q : Topics) (h : Hier) (heap : Heap)
      → p ≢ q
      → content_at (add_at failed step p h heap).1 q ≡ content_at h q
  unfolding add_at content_at at
  add_at_elsewhere [] [] h heap n = absurd (n refl)
  add_at_elsewhere [] (t ∷ q) (node a c ch) heap n = refl
  add_at_elsewhere (k ∷ p) [] (node a c ch) heap n = elim (round k p a c ch heap) [
    | inl (e, g, early, same) ↦ rw same refl
    | inr (inl (b, e, same)) ↦ rw same refl
    | inr (inr (g, e, same)) ↦ rw same refl
  ]
  add_at_elsewhere (k ∷ p) (t ∷ q) (node a c ch) heap n = elim (Bool-cases (same_text k t)) [
    | inl s ↦
        let k_is_t = same_text-same k t s in
        let apart : p ≢ q = λ z. n cc in
        subst
          (λ t.
            content_at (add_at failed step (k ∷ p) (node a c ch) heap).1 (t ∷ q)
            ≡ content_at (node a c ch) (t ∷ q))
          k_is_t
          (elim (round k p a c ch heap) [
            | inl (e, g, early, same) ↦ rw same refl
            | inr (inl (b, e, same)) ↦
                ap (λ y. content_at y.1 (k ∷ q)) same
                ∙ content_child a c _ k q _ (find-set_child_same k _ b ch e)
                ∙ add_at_elsewhere p q b heap apart
                ∙ sym (content_child a c ch k q b e)
            | inr (inr (g, e, same)) ↦
                ap (λ y. content_at y.1 (k ∷ q)) same
                ∙ content_child a c _ k q _ (find-add_child_same k _ ch e)
                ∙ add_at_elsewhere p q bare g apart
                ∙ content_bare q
                ∙ sym (content_no_child a c ch k q e)
          ])
    | inr s ↦ elim (round k p a c ch heap) [
      | inl (e, g, early, same) ↦ rw same refl
      | inr (inl (b, e, same)) ↦
          ap (λ y. content_at y.1 (t ∷ q)) same
          ∙ content_other a c ch _ t q (find-set_child k t _ ch s)
      | inr (inr (g, e, same)) ↦
          ap (λ y. content_at y.1 (t ∷ q)) same
          ∙ content_other a c ch _ t q (find-add_child k t _ ch s)
    ]
  ]

  -- Either the loop failed and the node keeps its subscriptions, or the step was made on them.
  abbrev pub Done : List Leaf × List Shared → X → List Leaf × List Shared → Type 0
  Done before x now =
      ((e : Err) × IsEarly e × (x ≡ failed e) × (now ≡ before))
      ⊎ ((g : Heap) × (let y = step before.0 before.1 g in
            (x ≡ y.0) × ◌≡◌ {A = List Leaf × List Shared} now (y.1, y.2)))

  pub add_at-Done :
      (p : Topics) (h : Hier) (heap : Heap)
      → Done
          (content_at h p)
          (add_at failed step p h heap).0
          (content_at (add_at failed step p h heap).1 p)
  unfolding add_at content_at at
  add_at-Done [] (node a c ch) heap = inr (heap, (refl, refl))
  add_at-Done (k ∷ p) (node a c ch) heap = elim (round k p a c ch heap) [
    | inl (e, g, early, same) ↦
        inl (e, early, ap (λ y. y.0) same, ap (λ y. content_at y.1 (k ∷ p)) same)
    | inr (inl (b, e, same)) ↦
        moved (content_child a c ch k p b e) (ap (λ y. y.0) same)
          (ap (λ y. content_at y.1 (k ∷ p)) same
            ∙ content_child a c _ k p _ (find-set_child_same k _ b ch e))
          (add_at-Done p b heap)
    | inr (inr (g, e, same)) ↦
        moved (content_no_child a c ch k p e ∙ sym (content_bare p)) (ap (λ y. y.0) same)
          (ap (λ y. content_at y.1 (k ∷ p)) same
            ∙ content_child a c _ k p _ (find-add_child_same k _ ch e))
          (add_at-Done p bare g)
  ]
    where
      moved :
          {before before' : List Leaf × List Shared} {x x' : X} {now now' : List Leaf × List Shared}
          → before ≡ before'
          → x ≡ x'
          → now ≡ now'
          → Done before' x' now'
          → Done before x now
      moved e d f (inl (code, early, failed_, kept)) =
          inl (code, early, d ∙ failed_, f ∙ kept ∙ sym e)
      moved {x = x} {now = now} e d f (inr (g, (made, is))) =
          subst (λ b. Done b x now) (sym e) (inr (g, (d ∙ made, f ∙ is)))
