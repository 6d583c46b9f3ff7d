-- ===== src/Subs.antt =====
-- src/subs.c: the tree of subscriptions of the broker (`struct dimq__subhier` and what hangs on it,
-- src/dimq_broker_internal.h). A hash table of uthash is the list of its entries in the order of
-- insertion, which is the order that uthash documents. A pointer to a node is its path from the root.
pub mod Search
pub mod Visits
pub mod Visited
pub mod Complete
pub mod Join
pub mod Add
pub mod Added
pub mod Grown
pub mod Leaves
pub mod Subscribed
pub mod Delivered
pub mod Tokens
pub mod Tokenised
pub mod Broker
pub mod Routed
pub mod Published
pub mod EndToEnd
pub mod Remove
pub mod Removed
pub mod Unique
mod Tests
use dimq.Prelude.{
  ℕ, zero, suc, ◌==◌, ◌≡◌, Bool, true, false, ◌&&◌, List, [], ◌∷◌, ◌++◌, Option, none, some,
  if◌then◌else◌,
}

-- `struct dimq`, as far as a subscription is concerned: its address and its `id`.
pub record Client : Type 0 where
  pub address : ℕ
  pub id : Option (List ℕ)

-- `struct dimq__subleaf`
pub record Leaf : Type 0 where
  pub client : Client
  pub identifier : ℕ
  pub qos : ℕ
  pub no_local : Bool
  pub retain_as_published : Bool

-- `struct dimq__subshared`: the name of the group and its members
abbrev pub Shared : Type 0
Shared = List ℕ × List Leaf

mutual
  -- `struct dimq__subhier`: subscriptions, shared subscriptions, children
  pub data Hier : Type 0 where
    node : List Leaf → List Shared → Hiers → Hier

  pub data Hiers : Type 0 where
    nil : Hiers
    entry : List ℕ → Hier → Hiers → Hiers

abbrev pub Topics : Type 0
Topics = List (List ℕ)

-- Equal keys, or `!strcmp`.
abbrev pub same_text : List ℕ → List ℕ → Bool
same_text [] [] = true
same_text [] (d ∷ t) = false
same_text (c ∷ s) [] = false
same_text (c ∷ s) (d ∷ t) = c == d && same_text s t

-- `HASH_FIND(hh, children, topic, …)`
unfoldable pub find : List ℕ → Hiers → Option Hier
find topic nil = none
find topic (entry key h rest) =
    let more = find topic rest in if same_text key topic then some h else more

abbrev pub children_of : Hier → Hiers
children_of (node subs shared children) = children

abbrev pub subs_of : Hier → List Leaf
subs_of (node subs shared children) = subs

abbrev pub shared_of : Hier → List Shared
shared_of (node subs shared children) = shared

-- The node that a path leads to.
unfoldable pub at : Hier → Topics → Option Hier
at h [] = some h
at h (topic ∷ path) = elim (find topic (children_of h)) [ none ↦ none | some b ↦ at b path ]
