-- ===== src/Subs/Tests.antt =====
-- Witnesses for src/subs.c: a client with the id `c` asks for `a/+` and `#` in an empty tree.
use dimq.Prelude.{arith, none, ℕ, ◌≡◌, ◌≢◌, ◌↔◌, inl, true, List, [], ◌∷◌, map, some, refl}
use dimq.Subs.Join.{
  Context, Request, mqtt5, add_normal, add_leaf, keep_normal, update_leaf, fill_slot,
}
use dimq.Subs.{Hier, Topics, find, Hiers, nil}
use dimq.Subs.Add.{bare, add_context, add_at, add_child}
use dimq.Subs.Added.{content_at}
use dimq.Subs.Leaves.{leaf_of, IsAsked}
use dimq.Subs.Subscribed.{IsAccepted, add_context_keeps, add_context_subscribes}
use dimq.Subs.Delivered.{add_context-search, add_context-IsTidy}
use dimq.Subs.Search.{Code, success, failed, search, branch, hash_branch, plus_text}
use dimq.Subs.Visits.{In}
use dimq.Subs.Visited.{IsThere}
use dimq.Subs.Complete.{search_iff}
use dimq.Topic.Levels.{IsPlain, Matches}
use dimq.Topic.Checked.{to_level}
use dimq.Subs.Published.{bare-IsTidy, AllTidy, IsUnshared}
use dimq.Subs.EndToEnd.{add-messages_queue}
use dimq.Subs.Broker.{sub_add, add_topics, messages_queue}
use dimq.Subs.Tokens.{topic_tokenise, fill, strtok_hier, count_rounds, share}
use dimq.Subs.Tokenised.{unshared, tree_levels, topic_tokenise_levels}
use dimq.Subs.Routed.{first_level}
use dimq.Topic.{sub_topic_check, pub_topic_check, sub_scan, pub_scan}
use dimq.Topic.Match.{topic_matches_sub}
use dimq.Result
use dimq.Subs.Remove.{remove_recurse}
use dimq.Subs.Removed.{leaves_of, leaves_of_others, rest_of, remove_recurse_removes}
use dimq.Subs.Unique.{bare-IsUnique, add_context-IsUnique}
use dimq.Packet.{Heap}

abbrev client_id : List ℕ
client_id = b'c' ∷ []

abbrev asked : Request
asked = record { qos = 2; identifier = 7; options = 0 }

abbrev context : Context
context = record {
  client = record { address = 1; id = some client_id };
  protocol = mqtt5;
  subs = [];
}

abbrev filter : Topics
filter = (b'a' ∷ []) ∷ plus_text ∷ []

abbrev filter_text : List ℕ
filter_text = b'a' ∷ b'/' ∷ b'+' ∷ []

abbrev topic : Topics
topic = (b'a' ∷ []) ∷ (b'b' ∷ []) ∷ []

abbrev plenty : Heap
plenty i = true

abbrev answer : Hier → Code
answer b = success

a-IsPlain : IsPlain (b'a' ∷ [])
a-IsPlain = (((λ e. cc), (λ e. cc), (λ e. cc), (λ e. cc)), tt)

b-IsPlain : IsPlain (b'b' ∷ [])
b-IsPlain = (((λ e. cc), (λ e. cc), (λ e. cc), (λ e. cc)), tt)

accepts : IsAccepted (add_context context filter_text asked none filter bare plenty).0.0
unfolding add_context add_at add_normal add_leaf keep_normal update_leaf fill_slot find
accepts = inl refl

answered :
    (search answer (add_context context filter_text asked none filter bare plenty).1 topic).0
    ≢ failed
unfolding add_context add_at add_normal add_leaf keep_normal update_leaf fill_slot find add_child
    search branch hash_branch
answered e = cc

add_context_keeps_example :
    let h' = (add_context context filter_text asked none filter bare plenty).1 in
    ((q : Topics) → filter ≢ q → content_at h' q ≡ content_at bare q)
    × ((content_at h' filter).1 ≡ (content_at bare filter).1)
    × ((id' : List ℕ)
        → id' ≢ client_id
        → leaf_of id' (content_at h' filter).0 ≡ leaf_of id' (content_at bare filter).0)
add_context_keeps_example =
    add_context_keeps context filter_text client_id asked filter bare plenty refl

add_context_subscribes_example : IsAsked asked (
    leaf_of client_id
      (content_at (add_context context filter_text asked none filter bare plenty).1 filter).0)
add_context_subscribes_example =
    add_context_subscribes context filter_text client_id asked filter bare plenty refl accepts

add_context-search_example :
    In filter
      (search answer (add_context context filter_text asked none filter bare plenty).1 topic).1
    ↔ Matches (map to_level filter) topic
add_context-search_example =
    add_context-search context filter_text client_id asked filter topic bare plenty answer refl
      accepts bare-IsTidy (a-IsPlain, tt) (λ e. cc) (a-IsPlain, (b-IsPlain, tt)) answered

search_iff_example :
    let h = (add_context context filter_text asked none filter bare plenty).1 in
    In filter (search answer h topic).1
    ↔ ((filter ≢ []) × IsThere h filter × Matches (map to_level filter) topic)
search_iff_example =
    search_iff answer (add_context context filter_text asked none filter bare plenty).1 topic filter
      (a-IsPlain, (b-IsPlain, tt))
      (add_context-IsTidy context filter_text client_id asked filter bare plenty refl
        (a-IsPlain, tt) bare-IsTidy)
      answered

abbrev topic_text : List ℕ
topic_text = b'a' ∷ b'/' ∷ b'b' ∷ []

abbrev subscribed : Hiers
subscribed = (sub_add context filter_text asked nil plenty).1

abbrev the_node : Topics
the_node = [] ∷ [] ∷ filter

filter_allowed : sub_topic_check true (some filter_text) ≡ Result.ok tt
unfolding sub_topic_check sub_scan
filter_allowed = refl

topic_allowed : pub_topic_check true (some topic_text) ≡ Result.ok tt
unfolding pub_topic_check pub_scan
topic_allowed = refl

nil-AllTidy : AllTidy nil
unfolding find
nil-AllTidy t h e = cc

not_shared : IsUnshared filter_text × IsUnshared topic_text
not_shared = (refl, refl)

added : IsAccepted (sub_add context filter_text asked nil plenty).0.0
unfolding sub_add topic_tokenise fill strtok_hier count_rounds share add_topics add_context add_at
    add_normal add_leaf keep_normal update_leaf fill_slot find
added = inl refl

gone_to : messages_queue answer topic_text subscribed plenty ≡ Result.ok (success, the_node ∷ [])
unfolding messages_queue sub_add topic_tokenise fill strtok_hier count_rounds share add_topics
    add_context add_at add_normal add_leaf keep_normal update_leaf fill_slot find add_child search
    branch hash_branch
gone_to = refl

add-messages_queue_example :
    In (first_level filter_text ∷ tree_levels filter_text) (the_node ∷ [])
    ↔ (topic_matches_sub (some filter_text) (some topic_text) ≡ Result.ok true)
add-messages_queue_example =
    add-messages_queue true context filter_text topic_text client_id asked nil plenty plenty answer
      success (the_node ∷ []) (ground arith) (ground arith) (λ e. cc) (λ e. cc) filter_allowed
      topic_allowed not_shared.0 not_shared.1 refl nil-AllTidy added gone_to (λ e. cc)

topic_tokenise_levels_example :
    topic_tokenise filter_text plenty ≡ unshared (tree_levels filter_text)
topic_tokenise_levels_example = topic_tokenise_levels b'a' (b'/' ∷ b'+' ∷ []) plenty refl refl

remove_recurse_removes_example :
    let h = (add_context context filter_text asked none filter bare plenty).1 in
    let h' = (remove_recurse context filter 17 filter h).1 in
    ((q : Topics) → filter ≢ q → content_at h' q ≡ content_at h q)
    × ((content_at h' filter).1 ≡ (content_at h filter).1)
    × (leaves_of_others 1 (content_at h' filter).0 ≡ leaves_of_others 1 (content_at h filter).0)
    × (leaves_of 1 (content_at h' filter).0 ≡ rest_of (leaves_of 1 (content_at h filter).0))
remove_recurse_removes_example =
    remove_recurse_removes context filter filter 17
      (add_context context filter_text asked none filter bare plenty).1
      (add_context-IsUnique context filter_text client_id asked filter bare plenty refl
        bare-IsUnique)
