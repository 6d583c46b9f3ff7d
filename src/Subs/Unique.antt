-- ===== src/Subs/Unique.antt =====
-- `sub__add_context` of src/subs.c: no table comes to have a key twice.
use dimq.Prelude.{
  ◌∙◌, ℕ, ◌≡◌, inl, inr, true, false, List, [], ◌∷◌, none, some, Bool-cases, Option-cases, refl, ap,
  sym, subst,
}
use dimq.Subs.{
  Leaf, Shared, Hier, Hiers, nil, entry, node, Topics, find, same_text, at, children_of,
}
use dimq.Subs.Join.{Context, Request, add_normal}
use dimq.Subs.Add.{set_child, add_child, add_at, bare, add_context}
use dimq.Subs.Added.{
  same_text-same, round, find-set_child, find-set_child_same, find-add_child, find-add_child_same,
}
use dimq.Subs.Complete.{same_text_refl}
use dimq.Subs.Subscribed.{add_context-named}
use dimq.Subs.Removed.{NoTwin, IsUnique, child-IsUnique}
use dimq.Packet.{Heap}
use dimq.Result.{Err, err}

some_same : (x y : Hier) → some x ≡ some y → x ≡ y
some_same x y z = cc

same_text_sym : (s t : List ℕ) → same_text s t ≡ false → same_text t s ≡ false
same_text_sym s t n = elim (Bool-cases (same_text t s)) [
  | inr e ↦ e
  | inl e ↦
      let same = same_text-same t s e in
      let bad : true ≡ false = sym (same_text_refl s) ∙ subst (λ u. same_text s u ≡ false) same n in
      absurd cc
]

set_child-NoTwin : (k : List ℕ) (b : Hier) (hs : Hiers) → NoTwin hs → NoTwin (set_child k b hs)
unfolding set_child
set_child-NoTwin k b nil n = tt
set_child-NoTwin k b (entry key h rest) n = elim (Bool-cases (same_text key k)) [
  | inl e ↦ rw e n
  | inr e ↦
      rw e
        (find-set_child k key b rest (same_text_sym key k e) ∙ n.0, set_child-NoTwin k b rest n.1)
]

add_child-NoTwin :
    (k : List ℕ) (b : Hier) (hs : Hiers) → find k hs ≡ none → NoTwin hs → NoTwin (add_child k b hs)
unfolding add_child find
add_child-NoTwin k b nil e n = (refl, tt)
add_child-NoTwin k b (entry key h rest) e n = elim (Bool-cases (same_text key k)) [
  | inl s ↦ let bad : some h ≡ none = rw s at e in absurd cc
  | inr s ↦ (
    find-add_child k key b rest (same_text_sym key k s) ∙ n.0,
    add_child-NoTwin k b rest (rw s at e) n.1,
  )
]

pub bare-IsUnique : IsUnique bare
unfolding at find
bare-IsUnique [] b e = subst (λ h. NoTwin (children_of h)) (some_same bare b e) tt
bare-IsUnique (k ∷ p) b e = let bad : none ≡ some b = e in absurd cc

-- A tree is unique if its first table is, and every child is.
tree-IsUnique :
    (a : List Leaf) (s : List Shared) (ch : Hiers)
    → NoTwin ch
    → ((t : List ℕ) (b : Hier) → find t ch ≡ some b → IsUnique b)
    → IsUnique (node a s ch)
unfolding at
tree-IsUnique a s ch n u [] b e =
    subst (λ h. NoTwin (children_of h)) (some_same (node a s ch) b e) n
tree-IsUnique a s ch n u (t ∷ q) b e = elim (Option-cases (find t ch)) [
  | inl z ↦ let bad : none ≡ some b = rw (at, z) at e in absurd cc
  | inr (c, z) ↦ u t c z q b (rw (at, z) at e)
]

-- One entry is new, the others are as before.
keyed :
    (a : List Leaf) (s : List Shared) (k : List ℕ) (b' : Hier) (ch ch' : Hiers)
    → IsUnique (node a s ch)
    → IsUnique b'
    → find k ch' ≡ some b'
    → ((t : List ℕ) → same_text k t ≡ false → find t ch' ≡ find t ch)
    → (t : List ℕ) (b : Hier) → find t ch' ≡ some b
    → IsUnique b
keyed a s k b' ch ch' old new e others t b z = elim (Bool-cases (same_text k t)) [
  | inl d ↦
      let both : some b' ≡ some b = sym e ∙ ap (λ u. find u ch') (same_text-same k t d) ∙ z in
      subst IsUnique (some_same b' b both) new
  | inr d ↦ child-IsUnique (node a s ch) b t old (sym (others t d) ∙ z)
]

module _ {X : Type 0} (failed : Err → X)
    (step : List Leaf → List Shared → Heap → X × List Leaf × List Shared × Heap) where
  pub add_at-IsUnique :
      (p : Topics) (h : Hier) (heap : Heap) → IsUnique h → IsUnique (add_at failed step p h heap).1
  unfolding add_at at
  add_at-IsUnique [] (node a s ch) heap u =
      tree-IsUnique (step a s heap).1 (step a s heap).2 ch (u [] (node a s ch) refl)
        (λ t b e. child-IsUnique (node a s ch) b t u e)
  add_at-IsUnique (k ∷ p) (node a s ch) heap u = elim (round failed step k p a s ch heap) [
    | inl (e, g, early, same) ↦ subst (λ y. IsUnique y.1) (sym same) u
    | inr (inl (b, e, same)) ↦
        let b' = (add_at failed step p b heap).1 in
        subst (λ y. IsUnique y.1) (sym same)
          (tree-IsUnique a s (set_child k b' ch)
            (set_child-NoTwin k b' ch (u [] (node a s ch) refl))
            (keyed a s k b' ch (set_child k b' ch) u
              (add_at-IsUnique p b heap (child-IsUnique (node a s ch) b k u e))
              (find-set_child_same k b' b ch e) (λ t n. find-set_child k t b' ch n)))
    | inr (inr (g, e, same)) ↦
        let b' = (add_at failed step p bare g).1 in
        subst (λ y. IsUnique y.1) (sym same)
          (tree-IsUnique a s (add_child k b' ch)
            (add_child-NoTwin k b' ch e (u [] (node a s ch) refl))
            (keyed a s k b' ch (add_child k b' ch) u (add_at-IsUnique p bare g bare-IsUnique)
              (find-add_child_same k b' ch e) (λ t n. find-add_child k t b' ch n)))
  ]

pub add_context-IsUnique :
    (c : Context) (sub id : List ℕ) (r : Request) (p : Topics) (h : Hier) (heap : Heap)
    → c.client.id ≡ some id
    → IsUnique h
    → IsUnique (add_context c sub r none p h heap).1
add_context-IsUnique c sub id r p h heap named u =
    rw (add_context-named c sub id r p h heap named)
      (add_at-IsUnique (λ e. (err e, c)) (add_normal c id sub r p) p h heap u)
