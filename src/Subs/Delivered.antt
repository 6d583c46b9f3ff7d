-- ===== src/Subs/Delivered.antt =====
-- `sub__add_context` and then `sub__search`, src/subs.c: a subscription is found for the topics that
-- its filter matches.
use dimq.Subs.Join.{Context, Request, add_normal}
use dimq.Prelude.{inr, inl, Option-cases, ℕ, ◌≡◌, ◌≢◌, ◌↔◌, List, [], map, some, none}
use dimq.Subs.{Hier, Topics, at}
use dimq.Subs.Add.{add_context}
use dimq.Subs.Added.{content_at}
use dimq.Subs.Grown.{add_at-IsTidy}
use dimq.Subs.Leaves.{leaf_of, IsAsked}
use dimq.Subs.Subscribed.{IsAccepted, add_context-named, add_context_subscribes}
use dimq.Subs.Search.{Code, failed, search}
use dimq.Subs.Visits.{In}
use dimq.Subs.Visited.{IsThere, IsTidy}
use dimq.Subs.Complete.{search_iff}
use dimq.Topic.Levels.{AllPlain, IsFilter, Matches}
use dimq.Topic.Checked.{to_level}
use dimq.Packet.{Heap}
use dimq.Result.{err}

content-IsThere :
    (id : List ℕ) (r : Request) (h : Hier) (p : Topics)
    → IsAsked r (leaf_of id (content_at h p).0)
    → IsThere h p
unfolding content_at leaf_of
content-IsThere id r h p (leaf, e, asked, named) = elim (Option-cases (at h p)) [
  | inl z ↦ let bad : none ≡ some leaf = rw (content_at, z) at e in absurd cc
  | inr there ↦ there
]

pub add_context-IsTidy :
    (c : Context) (sub id : List ℕ) (r : Request) (p : Topics) (h : Hier) (heap : Heap)
    → c.client.id ≡ some id
    → IsFilter (map to_level p)
    → IsTidy h
    → IsTidy (add_context c sub r none p h heap).1
add_context-IsTidy c sub id r p h heap named filter tidy =
    rw (add_context-named c sub id r p h heap named)
      (add_at-IsTidy (λ e. (err e, c)) (add_normal c id sub r p) p h heap filter tidy)

-- In a tree with nothing below `#`, for a client with an id and a filter that is not shared, with at
-- least one level and nothing behind `#`: once `sub__add_context` told the client that it is subscribed, `sub__search` for
-- a topic without wildcards calls `subs__process` for the node of the filter exactly if the filter
-- matches the topic, unless `subs__process` fails for some node.
pub add_context-search :
    (c : Context) (sub id : List ℕ) (r : Request) (p ts : Topics) (h : Hier) (heap : Heap)
    (process : Hier → Code)
    → c.client.id ≡ some id
    → IsAccepted (add_context c sub r none p h heap).0.0
    → IsTidy h
    → IsFilter (map to_level p)
    → p ≢ []
    → AllPlain ts
    → (search process (add_context c sub r none p h heap).1 ts).0 ≢ failed
    → In p (search process (add_context c sub r none p h heap).1 ts).1 ↔ Matches (map to_level p) ts
add_context-search c sub id r p ts h heap process named accepted tidy filter n plain ok =
    let h' = (add_context c sub r none p h heap).1 in
    let found =
      search_iff process h' ts p plain (add_context-IsTidy c sub id r p h heap named filter tidy)
        ok in
    let there =
      content-IsThere id r h' p (add_context_subscribes c sub id r p h heap named accepted) in
    (λ i. (found.0 i).2, λ m. found.1 (n, there, m))
