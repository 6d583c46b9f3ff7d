-- ===== src/Alias.antt =====
-- lib/alias_dimq.c: the topic aliases of a connection. `dimq->aliases` with its count is a list; a topic
-- that is NULL, after an allocation failed, is `none`.
use dimq.Packet.{Heap}
use dimq.Result.{Result, Status, ok, err, fault, success, nomem, inval}
use dimq.Prelude.{
  ℕ, suc, ◌==◌, Bool, true, false, List, [], ◌∷◌, ◌++◌, Option, none, some, if◌then◌else◌,
}
pub mod Kept
mod Tests

-- `struct dimq__alias`
pub record Alias : Type 0 where
  pub alias : ℕ
  pub topic : Option (List ℕ)

-- The first loop of `alias__add`: the entry with the alias takes the new topic, or loses its own.
unfoldable pub replace : ℕ → Option (List ℕ) → List Alias → Option (List Alias)
replace alias topic [] = none
replace alias topic (a ∷ aliases) =
    let more : Option (List Alias) = elim (replace alias topic aliases) [
      | none ↦ none
      | some now ↦ some (a ∷ now)
    ] in
    if a.alias == alias then some (record a { topic = topic } ∷ aliases) else more

-- `alias__add`; a new entry takes two calls of the allocator.
unfoldable pub alias_add : List ℕ → ℕ → List Alias → Heap → Status × List Alias × Heap
alias_add topic alias aliases heap =
    elim (replace alias (if heap 0 then some topic else none) aliases) [
      | some now ↦ (if heap 0 then success else err nomem, now, λ i. heap (suc i))
      | none ↦
          if heap 0
          then (if heap 1
              then (
                success,
                aliases ++ record { alias = alias; topic = some topic } ∷ [],
                λ i. heap (suc (suc i)),
              )
              else (err nomem, aliases, λ i. heap (suc (suc i))))
          else (err nomem, aliases, λ i. heap (suc i))
    ]

-- `alias__find`: `strdup` of NULL is a `fault`.
unfoldable pub alias_find : ℕ → List Alias → Heap → Result (List ℕ)
alias_find alias [] heap = err inval
alias_find alias (a ∷ aliases) heap =
    let rest = alias_find alias aliases heap in
    if a.alias == alias
    then (elim a.topic [ none ↦ fault | some topic ↦ if heap 0 then ok topic else err nomem ])
    else rest

-- `alias__free_all`
abbrev pub alias_free_all : List Alias → List Alias
alias_free_all aliases = []
