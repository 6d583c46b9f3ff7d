-- ===== src/Subs/EndToEnd.antt =====
-- `sub__add` and then `sub__messages_queue`, src/subs.c, against `dimq_topic_matches_sub2` of
-- lib/util_topic.c.
use dimq.Subs.Join.{Context, Request}
use dimq.Topic.Checked.{
  name_levels, filter_levels, to_level, sub_topic_check-IsFilter, pub_topic_check-AllPlain,
  topic_matches_sub-Decides,
}
use dimq.Topic.Decides.{SameDollar}
use dimq.Subs.Add.{add_context}
use dimq.Subs.{Hier, Hiers, Topics}
use dimq.Subs.Search.{Code, failed}
use dimq.Subs.Visits.{In}
use dimq.Subs.Subscribed.{IsAccepted}
use dimq.Subs.Delivered.{add_context-search}
use dimq.Subs.Tokenised.{tree_levels}
use dimq.Subs.Broker.{sub_add, messages_queue}
use dimq.Subs.Routed.{first_level, tree-Matches}
use dimq.Subs.Published.{
  IsUnshared, AllTidy, more_levels, tree_levels_first, sub_add-IsStored, queue_routed, routed,
  tree-IsFilter, tree-AllPlain, Decides-true,
}
use dimq.Topic.{sub_topic_check, pub_topic_check}
use dimq.Topic.Agree.{NoNul}
use dimq.Topic.Levels.{Matches}
use dimq.Topic.Match.{topic_matches_sub}
use dimq.Packet.{Heap}
use dimq.Result.{ok, success}
use dimq.Prelude.{ℕ, ◌≡◌, ◌≢◌, ◌↔◌, Bool, true, List, [], ◌∷◌, map, some, none, refl, sym, subst}

-- For a filter that `dimq_sub_topic_check` accepts and a topic that `dimq_pub_topic_check` accepts, both
-- of one byte at least, with no NUL in them and not of a shared subscription, and a tree with nothing
-- below `#`: once `sub__add` told a client with an id that it is subscribed, `sub__messages_queue`
-- gives the message to the node of the filter exactly if `dimq_topic_matches_sub2` finds that the filter
-- matches the topic, unless it fails.
pub add-messages_queue :
    (broker : Bool) (c : Context) (sub topic id : List ℕ) (r : Request) (root : Hiers)
    (heap heap' : Heap) (process : Hier → Code) (code : Code) (visited : List Topics)
    → NoNul sub
    → NoNul topic
    → sub ≢ []
    → topic ≢ []
    → sub_topic_check broker (some sub) ≡ success
    → pub_topic_check broker (some topic) ≡ success
    → IsUnshared sub
    → IsUnshared topic
    → c.client.id ≡ some id
    → AllTidy root
    → IsAccepted (sub_add c sub r root heap).0.0
    → messages_queue process topic (sub_add c sub r root heap).1 heap' ≡ ok (code, visited)
    → code ≢ failed
    → In (first_level sub ∷ tree_levels sub) visited
      ↔ (topic_matches_sub (some sub) (some topic) ≡ ok true)
add-messages_queue broker c [] topic id r root heap heap' process code visited n m ns nt es et us ut
      named tidy accepted went fine =
    absurd (ns refl)
add-messages_queue broker c (x ∷ s) [] id r root heap heap' process code visited n m ns nt es et us
      ut named tidy accepted went fine =
    absurd (nt refl)
add-messages_queue broker c (x ∷ s) (y ∷ t) id r root heap heap' process code visited n m ns nt es
      et us ut named tidy accepted went fine =
    let root' = (sub_add c (x ∷ s) r root heap).1 in
    let path = first_level (x ∷ s) ∷ more_levels (x ∷ s) in
    let name = first_level (y ∷ t) ∷ more_levels (y ∷ t) in
    let (h, g, stored, told, clean) = sub_add-IsStored c x s r root heap us tidy accepted in
    let filter = tree-IsFilter x s (sub_topic_check-IsFilter broker (x ∷ s) n es) in
    let plain = tree-AllPlain y t (pub_topic_check-AllPlain broker (y ∷ t) m et) in
    let h' = (add_context c (x ∷ s) r none path h g).1 in
    let at_node =
      routed process (first_level (x ∷ s)) (more_levels (y ∷ t)) root' h' stored
        (first_level (y ∷ t)) path code visited (Matches (map to_level path) name)
        (queue_routed process y t root' heap' code visited ut went fine) fine
        (add_context-search c (x ∷ s) id r path name h g process named told clean filter (λ e. cc)
          plain) in
    let levels_match = tree-Matches x y s t in
    let decided =
      Decides-true (topic_matches_sub (some (x ∷ s)) (some (y ∷ t)))
        (topic_matches_sub-Decides broker (x ∷ s) (y ∷ t) n m ns nt es et) in
    let same : ((first_level (x ∷ s) ≡ first_level (y ∷ t)) × Matches (map to_level path) name)
        ↔ (SameDollar (x ∷ s) (y ∷ t) × Matches (filter_levels (x ∷ s)) (name_levels (y ∷ t))) =
      subst
        (λ l.
          ((first_level (x ∷ s) ≡ first_level (y ∷ t)) × Matches (map to_level l) name)
          ↔ (SameDollar (x ∷ s) (y ∷ t) × Matches (filter_levels (x ∷ s)) (name_levels (y ∷ t))))
        (tree_levels_first x s)
        (subst
          (λ l.
            ((first_level (x ∷ s) ≡ first_level (y ∷ t))
              × Matches (map to_level (tree_levels (x ∷ s))) l)
            ↔ (SameDollar (x ∷ s) (y ∷ t) × Matches (filter_levels (x ∷ s)) (name_levels (y ∷ t))))
          (tree_levels_first y t) levels_match) in
    subst
      (λ l.
        In (first_level (x ∷ s) ∷ l) visited
        ↔ (topic_matches_sub (some (x ∷ s)) (some (y ∷ t)) ≡ ok true))
      (sym (tree_levels_first x s))
      (λ i. decided.1 (same.0 (at_node.0 i)), λ e. at_node.1 (same.1 (decided.0 e)))
