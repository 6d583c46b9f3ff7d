-- ===== src/Subs/Removed.antt =====
-- `sub__remove_recurse` of src/subs.c: the subscription is gone, and the others stay.
use dimq.Prelude.{
  ◌==◌, ◌∙◌, ℕ, ◌≡◌, ◌≢◌, ◌⊎◌, inl, inr, true, false, List, [], ◌∷◌, none, some, Bool-cases,
  Option-cases, refl, ap, sym, subst, if◌then◌else◌,
}
use dimq.Subs.{
  Leaf, Shared, Hier, Hiers, nil, entry, node, Topics, find, same_text, at, children_of,
}
use dimq.Subs.Join.{Context}
use dimq.Subs.Add.{set_child, bare}
use dimq.Subs.Added.{
  same_text-same, content_at, content_child, content_no_child, content_other, content_bare,
  find-set_child, find-set_child_same,
}
use dimq.Subs.Visited.{at-child}
use dimq.Subs.Remove.{delete_leaf, remove_normal, delete_child, is_bare, remove_recurse}
use dimq.Result.{success}

-- No two entries of a table have the same key.
abbrev pub NoTwin : Hiers → Type 0
NoTwin nil = Unit
NoTwin (entry key h rest) = (find key rest ≡ none) × NoTwin rest

abbrev pub IsUnique : Hier → Type 0
IsUnique h = (p : Topics) (b : Hier) → at h p ≡ some b → NoTwin (children_of b)

pub child-IsUnique :
    (h b : Hier) (k : List ℕ) → IsUnique h → find k (children_of h) ≡ some b → IsUnique b
child-IsUnique h b k u e p c there = u (k ∷ p) c (at-child h b k p e ∙ there)

find-delete_child :
    (k t : List ℕ) (hs : Hiers) → same_text k t ≡ false → find t (delete_child k hs) ≡ find t hs
unfolding find delete_child
find-delete_child k t nil n = refl
find-delete_child k t (entry key h rest) n = elim (Bool-cases (same_text key k)) [
  | inl e ↦
      let apart : same_text key t ≡ false = rw (same_text-same key k e) n in rw (e, apart) refl
  | inr e ↦ rw (e, find-delete_child k t rest n) refl
]

find-delete_child_same : (k : List ℕ) (hs : Hiers) → NoTwin hs → find k (delete_child k hs) ≡ none
unfolding find delete_child
find-delete_child_same k nil n = refl
find-delete_child_same k (entry key h rest) n = elim (Bool-cases (same_text key k)) [
  | inl e ↦ rw e (subst (λ t. find t rest ≡ none) (same_text-same key k e) n.0)
  | inr e ↦ rw e (rw e (find-delete_child_same k rest n.1))
]

is_bare_lem : (h : Hier) → is_bare h ≡ true → h ≡ bare
is_bare_lem (node [] [] nil) e = refl
is_bare_lem (node [] [] (entry key h rest)) e = cc
is_bare_lem (node [] (s ∷ shared) children) e = cc
is_bare_lem (node (leaf ∷ subs) shared children) e = cc

module _ (c : Context) (path : Topics) (reason : ℕ) where
  -- One call: there is no branch, or the call goes on in it.
  round_cases :
      (k : List ℕ) (p : Topics) (a : List Leaf) (s : List Shared) (ch : Hiers)
      → ((find k ch ≡ none)
          × (remove_recurse c path reason (k ∷ p) (node a s ch)
              ≡ (record { code = success; reason = reason; context = c }, node a s ch)))
        ⊎ ((b : Hier) × (find k ch ≡ some b)
            × (let y = remove_recurse c path reason p b in
                remove_recurse c path reason (k ∷ p) (node a s ch) ≡ (
                  record y.0 { code = success },
                  node a s (if is_bare y.1 then delete_child k ch else set_child k y.1 ch),
                )))
  unfolding remove_recurse
  round_cases k p a s ch = elim (Option-cases (find k ch)) [
    | inl e ↦ inl (e, rw (remove_recurse, e) refl)
    | inr (b, e) ↦ inr (b, e, rw (remove_recurse, e) refl)
  ]

  -- What the table has for a key afterwards.
  table_other :
      (k t : List ℕ) (b' : Hier) (ch : Hiers)
      → same_text k t ≡ false
      → find t (if is_bare b' then delete_child k ch else set_child k b' ch) ≡ find t ch
  table_other k t b' ch n = elim (Bool-cases (is_bare b')) [
    | inl e ↦ rw e (find-delete_child k t ch n)
    | inr e ↦ rw e (find-set_child k t b' ch n)
  ]

  content_table :
      (a : List Leaf) (s : List Shared) (k : List ℕ) (b b' : Hier) (ch : Hiers) (q : Topics)
      → NoTwin ch
      → find k ch ≡ some b
      → content_at (node a s (if is_bare b' then delete_child k ch else set_child k b' ch)) (k ∷ q)
        ≡ content_at b' q
  content_table a s k b b' ch q u e = elim (Bool-cases (is_bare b')) [
    | inl t ↦ rw t (
        content_no_child a s (delete_child k ch) k q (find-delete_child_same k ch u)
        ∙ sym (content_bare q)
        ∙ ap (λ h. content_at h q) (sym (is_bare_lem b' t)))
    | inr t ↦ rw t (content_child a s (set_child k b' ch) k q b' (find-set_child_same k b' b ch e))
  ]

  remove_elsewhere :
      (p q : Topics) (h : Hier)
      → IsUnique h
      → p ≢ q
      → content_at (remove_recurse c path reason p h).1 q ≡ content_at h q
  unfolding remove_recurse content_at at
  remove_elsewhere [] [] h u n = absurd (n refl)
  remove_elsewhere [] (t ∷ q) (node a s ch) u n = refl
  remove_elsewhere (k ∷ p) [] (node a s ch) u n = elim (round_cases k p a s ch) [
    | inl (e, same) ↦ rw same refl
    | inr (b, e, same) ↦ rw same refl
  ]
  remove_elsewhere (k ∷ p) (t ∷ q) (node a s ch) u n = elim (round_cases k p a s ch) [
    | inl (e, same) ↦ rw same refl
    | inr (b, e, same) ↦
        let y = remove_recurse c path reason p b in
        ap (λ z. content_at z.1 (t ∷ q)) same ∙ elim (Bool-cases (same_text k t)) [
          | inr d ↦ content_other a s ch _ t q (table_other k t y.1 ch d)
          | inl d ↦
              let k_is_t = same_text-same k t d in
              let apart : p ≢ q = λ z. n cc in
              subst
                (λ t.
                  content_at
                    (node a s (if is_bare y.1 then delete_child k ch else set_child k y.1 ch))
                    (t ∷ q)
                  ≡ content_at (node a s ch) (t ∷ q))
                k_is_t
                (content_table a s k b y.1 ch q (u [] (node a s ch) refl) e
                  ∙ remove_elsewhere p q b (child-IsUnique (node a s ch) b k u e) apart
                  ∙ sym (content_child a s ch k q b e))
        ]
  ]

  remove_here :
      (p : Topics) (h : Hier)
      → IsUnique h
      → content_at (remove_recurse c path reason p h).1 p
        ≡ ((remove_normal c path reason (content_at h p).0).1, (content_at h p).1)
  unfolding remove_recurse content_at at remove_normal delete_leaf
  remove_here [] (node a s ch) u = refl
  remove_here (k ∷ p) (node a s ch) u = elim (round_cases k p a s ch) [
    | inl (e, same) ↦
        ap (λ z. content_at z.1 (k ∷ p)) same
        ∙ content_no_child a s ch k p e
        ∙ ap (λ y. ((remove_normal c path reason y.0).1, y.1)) (sym (content_no_child a s ch k p e))
    | inr (b, e, same) ↦
        ap (λ z. content_at z.1 (k ∷ p)) same
        ∙ content_table a s k b (remove_recurse c path reason p b).1 ch p (u [] (node a s ch) refl)
            e
        ∙ remove_here p b (child-IsUnique (node a s ch) b k u e)
        ∙ ap (λ y. ((remove_normal c path reason y.0).1, y.1)) (sym (content_child a s ch k p b e))
  ]

-- The leaves of a client, and those of the others
unfoldable pub leaves_of : ℕ → List Leaf → List Leaf
leaves_of address [] = []
leaves_of address (leaf ∷ leaves) =
    let more = leaves_of address leaves in
    if leaf.client.address == address then leaf ∷ more else more

unfoldable pub leaves_of_others : ℕ → List Leaf → List Leaf
leaves_of_others address [] = []
leaves_of_others address (leaf ∷ leaves) =
    let more = leaves_of_others address leaves in
    if leaf.client.address == address then more else leaf ∷ more

-- All but the first
abbrev pub rest_of : List Leaf → List Leaf
rest_of [] = []
rest_of (leaf ∷ leaves) = leaves

delete_leaf-cases :
    (address : ℕ) (leaves : List Leaf)
    → ((delete_leaf address leaves ≡ none) × (leaves_of address leaves ≡ []))
      ⊎ ((ls : List Leaf) × (delete_leaf address leaves ≡ some ls)
          × (leaves_of_others address ls ≡ leaves_of_others address leaves)
          × (leaves_of address ls ≡ rest_of (leaves_of address leaves)))
unfolding delete_leaf leaves_of leaves_of_others
delete_leaf-cases address [] = inl (refl, refl)
delete_leaf-cases address (leaf ∷ leaves) = elim (Bool-cases (leaf.client.address == address)) [
  | inl t ↦ inr (leaves, rw t refl, rw t refl, rw t refl)
  | inr t ↦ elim (delete_leaf-cases address leaves) [
    | inl (e, n) ↦ inl (rw (t, e) refl, rw (t, n) refl)
    | inr (ls, e, others, own) ↦
        inr (leaf ∷ ls, rw (t, e) refl, rw (t, others) refl, rw (t, own) refl)
  ]
]

remove_normal-leaves :
    (c : Context) (path : Topics) (reason : ℕ) (leaves : List Leaf)
    → let ls = (remove_normal c path reason leaves).1 in
      (leaves_of_others c.client.address ls ≡ leaves_of_others c.client.address leaves)
      × (leaves_of c.client.address ls ≡ rest_of (leaves_of c.client.address leaves))
unfolding remove_normal
remove_normal-leaves c path reason leaves = elim (delete_leaf-cases c.client.address leaves) [
  | inl (e, n) ↦ rw (remove_normal, e) (refl, rw n refl)
  | inr (ls, e, others, own) ↦ rw (remove_normal, e) (others, own)
]

-- In a tree whose tables have no key twice, `sub__remove_recurse` without a share name leaves every
-- other node as it was, and in the node of the filter the shared subscriptions and the subscriptions of
-- the other clients, unchanged and in their order; of the client's own subscriptions there it takes
-- exactly the first, if there is one.
pub remove_recurse_removes :
    (c : Context) (path p : Topics) (reason : ℕ) (h : Hier)
    → IsUnique h
    → let h' = (remove_recurse c path reason p h).1 in
      let address = c.client.address in
      ((q : Topics) → p ≢ q → content_at h' q ≡ content_at h q)
      × ((content_at h' p).1 ≡ (content_at h p).1)
      × (leaves_of_others address (content_at h' p).0 ≡ leaves_of_others address (content_at h p).0)
      × (leaves_of address (content_at h' p).0 ≡ rest_of (leaves_of address (content_at h p).0))
remove_recurse_removes c path p reason h u =
    let here = remove_here c path reason p h u in
    let (others, own) = remove_normal-leaves c path reason (content_at h p).0 in
    (
      (λ q n. remove_elsewhere c path reason p q h u n),
      ap (λ y. y.1) here,
      ap (λ y. leaves_of_others c.client.address y.0) here ∙ others,
      ap (λ y. leaves_of c.client.address y.0) here ∙ own,
    )
