-- ===== src/Subs/Remove.antt =====
-- `sub__remove_recurse` and `sub__remove_normal` of src/subs.c: a plain subscription is taken out of the
-- tree, and nodes that are left empty with it.
use dimq.Subs.{Leaf, Hier, Hiers, nil, entry, node, Topics, find, same_text}
use dimq.Subs.Join.{Context, ClientSub}
use dimq.Subs.Add.{set_child}
use dimq.Result.{Status, success, err, no_subscribers}
use dimq.Prelude.{
  ℕ, ◌==◌, Bool, true, false, ◌&&◌, List, [], ◌∷◌, Option, none, some, if◌then◌else◌,
}

-- `while(leaf)`: the first leaf of the client, compared by its address, is deleted.
unfoldable pub delete_leaf : ℕ → List Leaf → Option (List Leaf)
delete_leaf address [] = none
delete_leaf address (leaf ∷ leaves) =
    let more : Option (List Leaf) = elim (delete_leaf address leaves) [
      | none ↦ none
      | some ls ↦ some (leaf ∷ ls)
    ] in
    if leaf.client.address == address then some leaves else more

abbrev pub same_path : Topics → Topics → Bool
same_path [] [] = true
same_path [] (u ∷ q) = false
same_path (t ∷ p) [] = false
same_path (t ∷ p) (u ∷ q) = same_text t u && same_path p q

-- The first subscription in `context->subs` with this node becomes NULL.
unfoldable pub clear_slot : Topics → List (Option ClientSub) → List (Option ClientSub)
clear_slot path [] = []
clear_slot path (none ∷ subs) = none ∷ clear_slot path subs
clear_slot path (some s ∷ subs) =
    let rest = clear_slot path subs in if same_path s.hier path then none ∷ subs else some s ∷ rest

-- What is left of a call: the code, `*reason`, and the client.
pub record Left : Type 0 where
  pub code : Status
  pub reason : ℕ
  pub context : Context

-- `sub__remove_normal`
unfoldable pub remove_normal : Context → Topics → ℕ → List Leaf → Left × List Leaf
remove_normal c path reason leaves = elim (delete_leaf c.client.address leaves) [
  | none ↦ (record { code = err no_subscribers; reason = reason; context = c }, leaves)
  | some ls ↦ (
    record { code = success; reason = 0; context = record c { subs = clear_slot path c.subs } },
    ls,
  )
]

-- `HASH_DELETE`
unfoldable pub delete_child : List ℕ → Hiers → Hiers
delete_child topic nil = nil
delete_child topic (entry key h rest) =
    let more = delete_child topic rest in if same_text key topic then rest else entry key h more

-- `!branch->children && !branch->subs && !branch->shared`
abbrev pub is_bare : Hier → Bool
is_bare (node [] [] nil) = true
is_bare (node [] [] (entry key h rest)) = false
is_bare (node [] (s ∷ shared) children) = false
is_bare (node (leaf ∷ subs) shared children) = false

-- `sub__remove_recurse` without a share name; `path` is that of the node which the first call was for.
unfoldable pub remove_recurse : Context → Topics → ℕ → Topics → Hier → Left × Hier
remove_recurse c path reason [] (node subs shared children) =
    let (l, subs') = remove_normal c path reason subs in (l, node subs' shared children)
remove_recurse c path reason (topic ∷ topics) (node subs shared children) =
    elim (find topic children) [
      | none ↦ (record { code = success; reason = reason; context = c }, node subs shared children)
      | some b ↦
          let (l, b') = remove_recurse c path reason topics b in
          (
            record l { code = success },
            node subs shared
                (if is_bare b' then delete_child topic children else set_child topic b' children),
          )
    ]
