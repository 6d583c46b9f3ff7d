-- ===== src/Subs/Broker.antt =====
-- `sub__add` and the search of `sub__messages_queue`, src/subs.c: from the text of a filter or a topic
-- to the node in the tree. The root is a table of entries, one for each first level.
use dimq.Subs.Join.{Context, Request, create}
use dimq.Prelude.{◌+◌, ℕ, ltb, length, List, [], ◌∷◌, Option, none, some, if◌then◌else◌}
use dimq.Subs.{Hier, Hiers, Topics, find}
use dimq.Subs.Add.{bare, add_child, set_child, add_context}
use dimq.Subs.Search.{Code, success, failed, search, below}
use dimq.Subs.Tokens.{topic_tokenise}
use dimq.Packet.{Heap}
use dimq.Result

-- From `topiclen = strlen(topics[0])` on
unfoldable pub add_topics :
    Context
    → List ℕ
    → Request
    → Topics
    → Option (List ℕ)
    → Hiers
    → Heap
    → (Result.Status × Context) × Hiers
add_topics c sub r [] sharename root heap = ((Result.fault, c), root)
add_topics c sub r (t ∷ ts) sharename root heap =
    if ltb 65535 (length t) then ((Result.err Result.inval, c), root) else elim (find t root) [
      | some h ↦
          let (x, h', heap') = add_context c sub r sharename (t ∷ ts) h heap in
          (x, set_child t h' root)
      | none ↦
          let (made, heap1) = create heap in
          let (x, h', heap') = add_context c sub r sharename (t ∷ ts) bare heap1 in
          if made then (x, add_child t h' root) else ((Result.err Result.nomem, c), root)
    ]

-- `sub__add`: the tokens take two calls of the allocator.
unfoldable pub sub_add :
    Context → List ℕ → Request → Hiers → Heap → (Result.Status × Context) × Hiers
sub_add c sub r root heap = elim (topic_tokenise sub heap) [
  | Result.ok tokens ↦ add_topics c sub r tokens.0 tokens.1 root (λ i. heap (i + 2))
  | Result.err e ↦ ((Result.err e, c), root)
  | Result.fault ↦ ((Result.fault, c), root)
]

-- `HASH_FIND(hh, db.subs, split_topics[0], …)` and the search below the entry
abbrev pub route_topics : (Hier → Code) → Topics → Hiers → Result.Result (Code × List Topics)
route_topics process [] root = Result.fault
route_topics process (t ∷ ts) root = elim (find t root) [
  | none ↦ Result.ok (success, [])
  | some h ↦ Result.ok (below t (search process h (t ∷ ts)))
]

-- What `sub__messages_queue` does with the tree: the nodes that are given to `subs__process`, each with
-- the entry of the root in front. A text that is not tokenised makes it return 1.
unfoldable pub messages_queue :
    (Hier → Code) → List ℕ → Hiers → Heap → Result.Result (Code × List Topics)
messages_queue process topic root heap = elim (topic_tokenise topic heap) [
  | Result.ok tokens ↦ route_topics process tokens.0 root
  | Result.err e ↦ Result.ok (failed, [])
  | Result.fault ↦ Result.fault
]
