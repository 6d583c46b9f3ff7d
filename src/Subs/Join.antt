-- ===== src/Subs/Join.antt =====
-- `sub__add_leaf`, `sub__add_normal` and `sub__add_shared` of src/subs.c: a subscription is added to the
-- lists of one node, and to the list that the client keeps of its own (`context->subs`).
use dimq.Subs.{Client, Leaf, Shared, Topics, same_text}
use dimq.Packet.{Heap}
use dimq.Word.{has_bit}
use dimq.Prelude.{ℕ, suc, Bool, true, false, List, [], ◌∷◌, ◌++◌, Option, none, some, if◌then◌else◌}
use dimq.Result.{Status, ok, err, fault, success, nomem, sub_exists}

-- `enum dimq__protocol`
pub data Protocol : Type 0 where
  no_protocol mqtt31 mqtt311 mqtts mqtt5 : Protocol

-- `struct dimq__client_sub`
pub record ClientSub : Type 0 where
  pub topic_filter : List ℕ
  pub hier : Topics
  pub shared : Option (List ℕ)

-- `struct dimq`, as far as it is read or written here. `none` in `subs` is a slot that is NULL.
pub record Context : Type 0 where
  pub client : Client
  pub protocol : Protocol
  pub subs : List (Option ClientSub)

-- What the subscription asks for.
pub record Request : Type 0 where
  pub qos : ℕ
  pub identifier : ℕ
  pub options : ℕ

abbrev pub rest_of : Heap → Heap
rest_of heap i = heap (suc i)

-- `leaf->context && leaf->context->id && !strcmp(leaf->context->id, context->id)`
abbrev pub is_client : List ℕ → Leaf → Bool
is_client id leaf = elim leaf.client.id [ none ↦ false | some i ↦ same_text i id ]

-- `while(leaf)`: the first leaf of the client is updated; `none` if there is no such leaf.
unfoldable pub update_leaf : List ℕ → Request → List Leaf → Option (List Leaf)
update_leaf id r [] = none
update_leaf id r (leaf ∷ leaves) =
    let more : Option (List Leaf) = elim (update_leaf id r leaves) [
      | none ↦ none
      | some ls ↦ some (leaf ∷ ls)
    ] in
    if is_client id leaf
    then some (record leaf { qos = r.qos; identifier = r.identifier } ∷ leaves)
    else more

abbrev pub new_leaf : Client → Request → Leaf
new_leaf c r = record {
  client = c;
  identifier = r.identifier;
  qos = r.qos;
  no_local = has_bit r.options 2;
  retain_as_published = has_bit r.options 3;
}

-- `sub__add_leaf`
unfoldable pub add_leaf : Client → List ℕ → Request → List Leaf → Heap → Status × List Leaf × Heap
add_leaf c id r leaves heap = elim (update_leaf id r leaves) [
  | some ls ↦ (err sub_exists, ls, heap)
  | none ↦
      if heap 0
      then (success, leaves ++ new_leaf c r ∷ [], rest_of heap)
      else (err nomem, leaves, rest_of heap)
]

-- The first free slot of `context->subs`.
unfoldable pub fill_slot : ClientSub → List (Option ClientSub) → Option (List (Option ClientSub))
fill_slot csub [] = none
fill_slot csub (none ∷ subs) = some (some csub ∷ subs)
fill_slot csub (some s ∷ subs) = elim (fill_slot csub subs) [
  | none ↦ none
  | some rest ↦ some (some s ∷ rest)
]

-- `DL_DELETE` of the leaf that was appended.
abbrev pub drop_last : {A : Type 0} → List A → List A
drop_last [] = []
drop_last (x ∷ []) = []
drop_last (x ∷ y ∷ xs) = x ∷ drop_last (y ∷ xs)

-- What the caller is told of a subscription that exists.
abbrev pub told : Protocol → Status → Status
told no_protocol code = success
told mqtt311 code = success
told mqtts code = success
told mqtt31 code = code
told mqtt5 code = code

-- A step on the lists of one node.
abbrev pub Step : Type 0
Step = List Leaf → List Shared → Heap → (Status × Context) × List Leaf × List Shared × Heap

-- `context->subs` takes the new subscription; the flag is false where `dimq__realloc` fails.
abbrev pub keep_sub : Context → ClientSub → Heap → Bool × Context × Heap
keep_sub c csub heap = elim (fill_slot csub c.subs) [
  | some subs ↦ (true, record c { subs = subs }, heap)
  | none ↦
      if heap 0
      then (true, record c { subs = c.subs ++ some csub ∷ [] }, rest_of heap)
      else (false, c, rest_of heap)
]

-- `sub__add_normal`, from the answer of `sub__add_leaf` on. A new subscription:
unfoldable pub keep_normal :
    Context
    → List ℕ
    → Topics
    → List Leaf
    → List Shared
    → Heap
    → (Status × Context) × List Leaf × List Shared × Heap
keep_normal c sub path ls shared heap =
    if heap 0
    then (let (kept, c', h2) =
          keep_sub c (record { topic_filter = sub; hier = path; shared = none }) (rest_of heap) in
        if kept
        then ((told c.protocol success, c'), ls, shared, h2)
        else ((err nomem, c'), drop_last ls, shared, h2))
    else ((err nomem, c), ls, shared, rest_of heap)

abbrev pub is_existing : Status → Bool
is_existing (err sub_exists) = true
is_existing code = false

-- `if(rc > 0) return rc;`, and what comes behind.
abbrev pub add_result :
    Context
    → List ℕ
    → Topics
    → List Shared
    → Status × List Leaf × Heap
    → (Status × Context) × List Leaf × List Shared × Heap
add_result c sub path shared (ok _, ls, heap) = keep_normal c sub path ls shared heap
add_result c sub path shared (err e, ls, heap) =
    ((if is_existing (err e) then told c.protocol (err e) else err e, c), ls, shared, heap)
add_result c sub path shared (fault, ls, heap) = ((fault, c), ls, shared, heap)

-- `sub__add_normal`
unfoldable pub add_normal : Context → List ℕ → List ℕ → Request → Topics → Step
add_normal c id sub r path leaves shared heap =
    add_result c sub path shared (add_leaf c.client id r leaves heap)

-- Two calls of the allocator for an entry of the tree: the node and its topic.
abbrev pub create : Heap → Bool × Heap
create heap = if heap 0 then (heap 1, rest_of (rest_of heap)) else (false, rest_of heap)

-- `HASH_FIND(hh, subhier->shared, sharename, slen, shared)`: its members
unfoldable pub find_shared : List ℕ → List Shared → Option (List Leaf)
find_shared name [] = none
find_shared name ((n, ls) ∷ shared) =
    let more = find_shared name shared in if same_text n name then some ls else more

-- The members of a group after a change; a group without members is deleted.
unfoldable pub set_shared : List ℕ → List Leaf → List Shared → List Shared
set_shared name ls [] = []
set_shared name ls ((n, old) ∷ shared) =
    let more = set_shared name ls shared in
    if same_text n name
    then (elim ls [ [] ↦ shared | leaf ∷ leaves ↦ (n, leaf ∷ leaves) ∷ shared ])
    else (n, old) ∷ more

-- From the answer of `sub__add_leaf` on, with the group hung in. Where `dimq__realloc` fails,
-- `sub__remove_shared_leaf` has freed the leaf and it is freed again: a `fault`.
unfoldable pub keep_shared :
    Context
    → List ℕ
    → Topics
    → List ℕ
    → List Leaf
    → List Shared
    → Status × List Leaf × Heap
    → (Status × Context) × List Leaf × List Shared × Heap
keep_shared c sub path name leaves shared (ok _, ls, heap) =
    if heap 0
    then (let (kept, c', h2) =
          keep_sub c (record { topic_filter = sub; hier = path; shared = some name })
            (rest_of heap) in
        if kept
        then ((told c.protocol success, c'), leaves, set_shared name ls shared, h2)
        else ((fault, c'), leaves, set_shared name (drop_last ls) shared, h2))
    else ((err nomem, c), leaves, set_shared name ls shared, rest_of heap)
keep_shared c sub path name leaves shared (err e, ls, heap) = (
  (if is_existing (err e) then told c.protocol (err e) else err e, c),
  leaves,
  set_shared name ls shared,
  heap,
)
keep_shared c sub path name leaves shared (fault, ls, heap) = ((fault, c), leaves, shared, heap)

-- `sub__add_shared`: a new group takes two calls of the allocator.
unfoldable pub add_shared : Context → List ℕ → List ℕ → Request → Topics → List ℕ → Step
add_shared c id sub r path name leaves shared heap = elim (find_shared name shared) [
  | some ls ↦ keep_shared c sub path name leaves shared (add_leaf c.client id r ls heap)
  | none ↦
      let (made, heap1) = create heap in
      let added = shared ++ (name, []) ∷ [] in
      if made
      then keep_shared c sub path name leaves added (add_leaf c.client id r [] heap1)
      else ((err nomem, c), leaves, shared, heap1)
]
