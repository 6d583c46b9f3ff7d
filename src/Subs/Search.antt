-- ===== src/Subs/Search.antt =====
-- `sub__search` of src/subs.c: which nodes are given to `subs__process`, in which order. The answer of
-- `subs__process` for a node is a parameter. Paths are relative to the node that is searched.
use dimq.Subs.{Hier, Hiers, nil, entry, Topics, find, children_of}
use dimq.Prelude.{ℕ, Bool, true, false, List, [], ◌∷◌, ◌++◌, map, Option, none, some, if◌then◌else◌}

-- dimq_ERR_SUCCESS, dimq_ERR_NO_SUBSCRIBERS, and 1
pub data Code : Type 0 where
  success no_subscribers failed : Code

-- In the course of the function: `have_subscribers` and the nodes processed; or a `return rc`.
pub data Walk : Type 0 where
  going : Bool → List Topics → Walk
  stopped : List Topics → Walk

-- `if(rc == dimq_ERR_SUCCESS){ … }else if(rc != dimq_ERR_NO_SUBSCRIBERS){ return rc; }`
abbrev pub after : Walk → Code × List Topics → Walk
after (stopped ps) x = stopped ps
after (going have ps) (success, qs) = going true (ps ++ qs)
after (going have ps) (no_subscribers, qs) = going have (ps ++ qs)
after (going have ps) (failed, qs) = stopped (ps ++ qs)

abbrev pub finish : Walk → Code × List Topics
finish (stopped ps) = (failed, ps)
finish (going true ps) = (success, ps)
finish (going false ps) = (no_subscribers, ps)

abbrev pub below : List ℕ → Code × List Topics → Code × List Topics
below topic (c, ps) = (c, map (◌∷◌ topic) ps)

abbrev pub plus_text : List ℕ
plus_text = b'+' ∷ []

abbrev pub hash_text : List ℕ
hash_text = b'#' ∷ []

-- `split_topics[1] == NULL`
abbrev pub is_last : Topics → Bool
is_last [] = true
is_last (t ∷ ts) = false

abbrev pub no_children : Hiers → Bool
no_children nil = true
no_children (entry key h rest) = false

-- One branch: the search below it, and at the end of the topic the branch itself.
unfoldable pub branch :
    (Hier → Code) → (Hier → Code × List Topics) → List ℕ → Topics → Option Hier → Walk → Walk
branch process search_in topic ts none w = w
branch process search_in topic ts (some b) w =
    let w' = after w (below topic (search_in b)) in
    if is_last ts then after w' (process b, (topic ∷ []) ∷ []) else w'

-- The branch `#`, if nothing is below it.
unfoldable pub hash_branch : (Hier → Code) → Option Hier → Walk → Walk
hash_branch process none w = w
hash_branch process (some b) w =
    if no_children (children_of b) then after w (process b, (hash_text ∷ []) ∷ []) else w

unfoldable pub search : (Hier → Code) → Hier → Topics → Code × List Topics
search process h [] = finish (hash_branch process (find hash_text (children_of h)) (going false []))
search process h (t ∷ ts) = finish (
    hash_branch process (find hash_text (children_of h)) (
      branch process (λ b. search process b ts) plus_text ts (find plus_text (children_of h))
        (branch process (λ b. search process b ts) t ts (find t (children_of h)) (going false []))))
