-- ===== src/Subs/Leaves.antt =====
-- The subscriptions of one node, src/subs.c: what an update or an addition does to each client's.
use dimq.Subs.Join.{Request, is_client, update_leaf, drop_last}
use dimq.Subs.{Leaf, same_text}
use dimq.Subs.Added.{same_text-same}
use dimq.Prelude.{
  ℕ, ◌≡◌, ◌≢◌, ◌⊎◌, ◌∙◌, inl, inr, true, false, List, [], ◌∷◌, ◌++◌, Option, none, some, Bool-cases,
  Option-cases, refl, ap, sym, subst, if◌then◌else◌,
}

-- The subscription of the client with an id.
unfoldable pub leaf_of : List ℕ → List Leaf → Option Leaf
leaf_of id [] = none
leaf_of id (leaf ∷ leaves) =
    let more = leaf_of id leaves in if is_client id leaf then some leaf else more

-- The subscription asks for what the request says.
abbrev pub IsAsked : Request → Option Leaf → Type 0
IsAsked r l =
    (leaf : Leaf) × (l ≡ some leaf) × (leaf.qos ≡ r.qos) × (leaf.identifier ≡ r.identifier)

pub apart_client :
    (id id' : List ℕ) (leaf : Leaf)
    → id' ≢ id
    → is_client id leaf ≡ true
    → is_client id' leaf ≡ false
apart_client id id' leaf n e = elim (Option-cases leaf.client.id) [
  | inl z ↦ rw z refl
  | inr (i, z) ↦
      let same = same_text-same i id (rw z at e) in
      elim (Bool-cases (same_text i id')) [
        | inl s ↦ absurd (n (sym (same_text-same i id' s) ∙ same))
        | inr s ↦ rw (z, s) refl
      ]
]

module _ (id : List ℕ) (r : Request) where
  abbrev updated : Leaf → Leaf
  updated leaf = record leaf { qos = r.qos; identifier = r.identifier }

  -- The first leaf is the client's, or the update goes on behind it.
  update_cases :
      (leaf : Leaf) (leaves ls : List Leaf)
      → update_leaf id r (leaf ∷ leaves) ≡ some ls
      → ((is_client id leaf ≡ true) × (updated leaf ∷ leaves ≡ ls))
        ⊎ ((is_client id leaf ≡ false)
            × (more : List Leaf) × (update_leaf id r leaves ≡ some more)
            × (leaf ∷ more ≡ ls))
  unfolding update_leaf
  update_cases leaf leaves ls e = elim (Bool-cases (is_client id leaf)) [
    | inl t ↦ let same : some (updated leaf ∷ leaves) ≡ some ls = rw t at e in inl (t, cc)
    | inr t ↦ elim (Option-cases (update_leaf id r leaves)) [
      | inl z ↦ let bad : ◌≡◌ {A = Option (List Leaf)} none (some ls) = rw (t, z) at e in absurd cc
      | inr (more, z) ↦
          let same : some (leaf ∷ more) ≡ some ls = rw (t, z) at e in inr (t, more, z, cc)
    ]
  ]

  pub update_leaf-IsAsked :
      (leaves ls : List Leaf) → update_leaf id r leaves ≡ some ls → IsAsked r (leaf_of id ls)
  unfolding leaf_of
  update_leaf-IsAsked [] ls e =
      let bad : ◌≡◌ {A = Option (List Leaf)} none (some ls) = unfold update_leaf in e in cc
  update_leaf-IsAsked (leaf ∷ leaves) ls e = elim (update_cases leaf leaves ls e) [
    | inl (t, same) ↦
        subst (λ ls. IsAsked r (leaf_of id ls)) same (rw t (updated leaf, refl, refl, refl))
    | inr (t, more, z, same) ↦
        subst (λ ls. IsAsked r (leaf_of id ls)) same (rw t (update_leaf-IsAsked leaves more z))
  ]

  pub update_leaf-none :
      (leaves : List Leaf) → update_leaf id r leaves ≡ none → leaf_of id leaves ≡ none
  unfolding update_leaf leaf_of
  update_leaf-none [] e = refl
  update_leaf-none (leaf ∷ leaves) e = elim (Bool-cases (is_client id leaf)) [
    | inl t ↦ let bad : some (updated leaf ∷ leaves) ≡ none = rw t at e in cc
    | inr t ↦ elim (Option-cases (update_leaf id r leaves)) [
      | inl z ↦ rw t (update_leaf-none leaves z)
      | inr (more, z) ↦ let bad : some (leaf ∷ more) ≡ none = rw (t, z) at e in cc
    ]
  ]

  pub update_leaf-other :
      (id' : List ℕ) (leaves ls : List Leaf)
      → id' ≢ id
      → update_leaf id r leaves ≡ some ls
      → leaf_of id' ls ≡ leaf_of id' leaves
  unfolding leaf_of
  update_leaf-other id' [] ls n e =
      let bad : ◌≡◌ {A = Option (List Leaf)} none (some ls) = unfold update_leaf in e in cc
  update_leaf-other id' (leaf ∷ leaves) ls n e = elim (update_cases leaf leaves ls e) [
    | inl (t, same) ↦
        let other = apart_client id id' leaf n t in
        subst (λ ls. leaf_of id' ls ≡ leaf_of id' (leaf ∷ leaves)) same (rw other refl)
    | inr (t, more, z, same) ↦
        subst (λ ls. leaf_of id' ls ≡ leaf_of id' (leaf ∷ leaves)) same
          (rw (update_leaf-other id' leaves more n z) refl)
  ]

pub leaf_of-append :
    (id : List ℕ) (leaf : Leaf) (leaves : List Leaf)
    → leaf_of id leaves ≡ none
    → is_client id leaf ≡ true
    → leaf_of id (leaves ++ leaf ∷ []) ≡ some leaf
unfolding leaf_of
leaf_of-append id leaf [] e t = rw t refl
leaf_of-append id leaf (l ∷ leaves) e t = elim (Bool-cases (is_client id l)) [
  | inl s ↦ let bad : some l ≡ none = rw s at e in cc
  | inr s ↦ rw s (leaf_of-append id leaf leaves (rw s at e) t)
]

pub leaf_of-append_other :
    (id : List ℕ) (leaf : Leaf) (leaves : List Leaf)
    → is_client id leaf ≡ false
    → leaf_of id (leaves ++ leaf ∷ []) ≡ leaf_of id leaves
unfolding leaf_of
leaf_of-append_other id leaf [] t = rw t refl
leaf_of-append_other id leaf (l ∷ leaves) t = rw (leaf_of-append_other id leaf leaves t) refl

pub drop_last-append : (leaf : Leaf) (leaves : List Leaf) → drop_last (leaves ++ leaf ∷ []) ≡ leaves
drop_last-append leaf [] = refl
drop_last-append leaf (l ∷ []) = refl
drop_last-append leaf (l ∷ m ∷ leaves) = ap (◌∷◌ l) (drop_last-append leaf (m ∷ leaves))
