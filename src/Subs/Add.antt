-- ===== src/Subs/Add.antt =====
-- `sub__add_context` of src/subs.c: the way to the node of a filter, made where it is missing, and the
-- addition to it.
use dimq.Subs.Join.{add_shared, add_normal, Request, create, Context}
use dimq.Subs.{Leaf, Shared, Hier, Hiers, nil, entry, node, Topics, find, same_text}
use dimq.Packet.{Heap}
use dimq.Prelude.{ℕ, ltb, length, List, [], ◌∷◌, Option, none, some, if◌then◌else◌}
use dimq.Result.{Err, Status, err, success, nomem, inval}

unfoldable pub set_child : List ℕ → Hier → Hiers → Hiers
set_child topic b nil = nil
set_child topic b (entry key h rest) =
    let more = set_child topic b rest in
    if same_text key topic then entry key b rest else entry key h more

-- `HASH_ADD_KEYPTR`
unfoldable pub add_child : List ℕ → Hier → Hiers → Hiers
add_child topic b nil = entry topic b nil
add_child topic b (entry key h rest) = entry key h (add_child topic b rest)

abbrev pub bare : Hier
bare = node [] [] nil

-- `while(topics && topics[topic_index] != NULL)`, and then the step on the node that was reached.
unfoldable pub add_at :
    {X : Type 0}
    → (Err → X)
    → (List Leaf → List Shared → Heap → X × List Leaf × List Shared × Heap)
    → Topics
    → Hier
    → Heap
    → X × Hier × Heap
add_at failed step [] (node subs shared children) heap =
    let (x, subs', shared', heap') = step subs shared heap in
    (x, node subs' shared' children, heap')
add_at failed step (topic ∷ path) (node subs shared children) heap =
    let same = node subs shared children in
    if ltb 65535 (length topic) then (failed inval, same, heap) else elim (find topic children) [
      | some b ↦
          let (x, b', heap') = add_at failed step path b heap in
          (x, node subs shared (set_child topic b' children), heap')
      | none ↦
          let (made, heap1) = create heap in
          let (x, b', heap') = add_at failed step path bare heap1 in
          if made
          then (x, node subs shared (add_child topic b' children), heap')
          else (failed nomem, same, heap1)
    ]

-- `sub__add_context`, for a `context` that is not NULL.
unfoldable pub add_context :
    Context
    → List ℕ
    → Request
    → Option (List ℕ)
    → Topics
    → Hier
    → Heap
    → (Status × Context) × Hier × Heap
add_context c sub r sharename path h heap = elim c.client.id [
  | none ↦ add_at (λ e. (err e, c)) (λ subs shared g. ((success, c), subs, shared, g)) path h heap
  | some id ↦ elim sharename [
    | none ↦ add_at (λ e. (err e, c)) (add_normal c id sub r path) path h heap
    | some name ↦ add_at (λ e. (err e, c)) (add_shared c id sub r path name) path h heap
  ]
]
