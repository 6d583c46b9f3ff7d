-- ===== src/Subs/Published.antt =====
-- `sub__add` and then `sub__messages_queue`, src/subs.c: a message is given to a subscription exactly
-- if `dimq_topic_matches_sub2` of lib/util_topic.c says that the filter matches the topic.
use dimq.Subs.Join.{Context, Request, create}
use dimq.Subs.Subscribed.{not_exists, IsAccepted, refused}
use dimq.Prelude.{
  ◌∙◌, ℕ, ◌+◌, ◌≡◌, ◌≢◌, ◌⊎◌, ◌↔◌, ◌==◌, inl, inr, Bool, true, false, ltb, length, List, [], ◌∷◌,
  map, none, some, Bool-cases, Option-cases, refl, ap, sym, subst, if◌then◌else◌,
}
use dimq.Subs.{Hier, Hiers, Topics, find, same_text, at}
use dimq.Subs.Add.{bare, add_child, set_child, add_context}
use dimq.Subs.Added.{find-set_child_same, find-add_child_same}
use dimq.Subs.Search.{Code, failed, success, search, below}
use dimq.Subs.Visits.{In, In-below, below-In}
use dimq.Subs.Visited.{IsTidy}
use dimq.Subs.Tokens.{topic_tokenise, share_text}
use dimq.Subs.Tokenised.{levels, tree_levels, unshared, topic_tokenise_levels}
use dimq.Subs.Broker.{sub_add, add_topics, messages_queue, route_topics}
use dimq.Subs.Routed.{first_level}
use dimq.Topic.Levels.{AllPlain, IsFilter}
use dimq.Topic.Decides.{Decides}
use dimq.Topic.Checked.{split, to_level, filter_levels, name_levels}
use dimq.Packet.{Heap}
use dimq.Result

-- No text of a shared subscription.
abbrev pub IsUnshared : List ℕ → Type 0
IsUnshared s = same_text (first_level s) share_text ≡ false

abbrev pub AllTidy : Hiers → Type 0
AllTidy root = (t : List ℕ) (h : Hier) → find t root ≡ some h → IsTidy h

pub bare-IsTidy : IsTidy bare
unfolding at find
bare-IsTidy [] q t = refl
bare-IsTidy (k ∷ p) q t = refl

-- The levels in the tree behind the first
abbrev pub more_levels : List ℕ → Topics
more_levels [] = []
more_levels (c ∷ s) = if c == b'$' then (split (c ∷ s)).1 else levels (c ∷ s)

pub tree_levels_first :
    (c : ℕ) (s : List ℕ) → tree_levels (c ∷ s) ≡ first_level (c ∷ s) ∷ more_levels (c ∷ s)
tree_levels_first c s = elim (Bool-cases (c == b'$')) [ inl e ↦ rw e refl | inr e ↦ rw e refl ]

unshared_same :
    (t : List ℕ) (ts : Topics)
    → same_text t share_text ≡ false
    → unshared (t ∷ ts) ≡ Result.ok (t ∷ ts, none)
unshared_same t [] e = rw e refl
unshared_same t (n ∷ ts) e = rw e refl

-- The tokens of a text, or no memory
tokens_of :
    (c : ℕ) (s : List ℕ) (heap : Heap)
    → IsUnshared (c ∷ s)
    → (topic_tokenise (c ∷ s) heap ≡ Result.err Result.nomem)
      ⊎ (topic_tokenise (c ∷ s) heap ≡ Result.ok (first_level (c ∷ s) ∷ more_levels (c ∷ s), none))
unfolding topic_tokenise
tokens_of c s heap u = elim (Bool-cases (heap 0)) [
  | inr a ↦ inl (rw (topic_tokenise, a) refl)
  | inl a ↦ elim (Bool-cases (heap 1)) [
    | inr b ↦ inl (rw (topic_tokenise, a, b) refl)
    | inl b ↦ inr (
        topic_tokenise_levels c s heap a b
        ∙ ap unshared (tree_levels_first c s)
        ∙ unshared_same (first_level (c ∷ s)) (more_levels (c ∷ s)) u)
  ]
]

-- What `sub__add` stores, where it succeeds.
abbrev pub IsStored : Context → List ℕ → Request → List ℕ → Topics → Hiers → Type 0
IsStored c sub r t ts root =
    (h : Hier) × (g : Heap) × (find t root ≡ some (add_context c sub r none (t ∷ ts) h g).1)
    × IsAccepted (add_context c sub r none (t ∷ ts) h g).0.0
    × IsTidy h

module _ (c : Context) (sub : List ℕ) (r : Request) (t : List ℕ) (ts : Topics) (root : Hiers)
    (heap : Heap) where
  -- It fails, goes on in an entry of the root, or makes one.
  add_topics_cases :
      ((e : Result.Err) × ((e ≡ Result.inval) ⊎ (e ≡ Result.nomem))
        × (add_topics c sub r (t ∷ ts) none root heap ≡ ((Result.err e, c), root)))
      ⊎ (((h : Hier) × (find t root ≡ some h)
            × (let x = add_context c sub r none (t ∷ ts) h heap in
                add_topics c sub r (t ∷ ts) none root heap ≡ (x.0, set_child t x.1 root)))
          ⊎ ((g : Heap) × (find t root ≡ none)
              × (let x = add_context c sub r none (t ∷ ts) bare g in
                  add_topics c sub r (t ∷ ts) none root heap ≡ (x.0, add_child t x.1 root))))
  unfolding add_topics
  add_topics_cases = elim (Bool-cases (ltb 65535 (length t))) [
    | inl l ↦ inl (Result.inval, inl refl, rw l refl)
    | inr l ↦ elim (Option-cases (find t root)) [
      | inr (h, e) ↦ inr (inl (h, e, rw (l, e) refl))
      | inl e ↦ elim (Bool-cases (create heap).0) [
        | inl made ↦ inr (inr ((create heap).1, e, rw (l, e, made) refl))
        | inr made ↦ inl (Result.nomem, inr refl, rw (l, e, made) refl)
      ]
    ]
  ]

  add_topics-IsStored :
      AllTidy root
      → IsAccepted (add_topics c sub r (t ∷ ts) none root heap).0.0
      → IsStored c sub r t ts (add_topics c sub r (t ∷ ts) none root heap).1
  add_topics-IsStored tidy accepted = elim add_topics_cases [
    | inl (e, early, same) ↦
        absurd (refused e (not_exists early) (subst (λ y. IsAccepted y.0.0) same accepted))
    | inr (inl (h, e, same)) ↦
        let x = add_context c sub r none (t ∷ ts) h heap in
        (
          h,
          heap,
          ap (λ y. find t y.1) same ∙ find-set_child_same t x.1 h root e,
          subst (λ y. IsAccepted y.0.0) same accepted,
          tidy t h e,
        )
    | inr (inr (g, e, same)) ↦
        let x = add_context c sub r none (t ∷ ts) bare g in
        (
          bare,
          g,
          ap (λ y. find t y.1) same ∙ find-add_child_same t x.1 root e,
          subst (λ y. IsAccepted y.0.0) same accepted,
          bare-IsTidy,
        )
  ]

ok_same : {A : Type 0} (x y : A) → ◌≡◌ {A = Result.Result A} (Result.ok x) (Result.ok y) → x ≡ y
ok_same x y e = cc

module _ (process : Hier → Code) (t : List ℕ) (us : Topics) (root : Hiers) (h : Hier)
    (e : find t root ≡ some h) where
  -- The search below the entry of the root
  routed_here :
      (out : Code × List Topics)
      → route_topics process (t ∷ us) root ≡ Result.ok out
      → below t (search process h (t ∷ us)) ≡ out
  routed_here out went =
      ok_same (below t (search process h (t ∷ us))) out (rw (route_topics, e) at went)

  -- Another entry has other nodes.
  routed_elsewhere :
      (u : List ℕ) (ts : Topics) (out : Code × List Topics)
      → route_topics process (u ∷ us) root ≡ Result.ok out
      → In (t ∷ ts) out.1
      → t ≡ u
  routed_elsewhere u ts out went i = elim (Option-cases (find u root)) [
    | inl z ↦ absurd (
        subst (λ y. In (t ∷ ts) y.1)
          (sym (ok_same (success, []) out (rw (route_topics, z) at went))) i)
    | inr (h', z) ↦
        let same =
          ok_same (below u (search process h' (u ∷ us))) out (rw (route_topics, z) at went) in
        let (q, eq, j) =
          below-In u (t ∷ ts) (search process h' (u ∷ us)).1
            (subst (λ y. In (t ∷ ts) y.1) (sym same) i) in
        cc
  ]

  pub routed :
      (u : List ℕ) (ts : Topics) (code : Code) (visited : List Topics) (G : Type 0)
      → route_topics process (u ∷ us) root ≡ Result.ok (code, visited)
      → code ≢ failed
      → ((search process h (u ∷ us)).0 ≢ failed → In ts (search process h (u ∷ us)).1 ↔ G)
      → In (t ∷ ts) visited ↔ ((t ≡ u) × G)
  routed u ts code visited G went fine found = (forth, back)
    where
      at_home : t ≡ u → below t (search process h (t ∷ us)) ≡ (code, visited)
      at_home same =
          routed_here (code, visited)
            (subst (λ v. route_topics process (v ∷ us) root ≡ Result.ok (code, visited)) (sym same)
              went)

      searched : t ≡ u → In ts (search process h (t ∷ us)).1 ↔ G
      searched same =
          subst
            (λ v. (search process h (v ∷ us)).0 ≢ failed → In ts (search process h (v ∷ us)).1 ↔ G)
            (sym same) found λ z. fine (sym (ap (λ y. y.0) (at_home same)) ∙ z)

      forth : In (t ∷ ts) visited → (t ≡ u) × G
      forth i =
          let same = routed_elsewhere u ts (code, visited) went i in
          let (q, eq, j) =
            below-In t (t ∷ ts) (search process h (t ∷ us)).1
              (subst (λ y. In (t ∷ ts) y.1) (sym (at_home same)) i) in
          let tails : q ≡ ts = cc in
          (same, (searched same).0 (subst (λ q. In q (search process h (t ∷ us)).1) tails j))

      back : (t ≡ u) × G → In (t ∷ ts) visited
      back (same, g) =
          subst (λ y. In (t ∷ ts) y.1) (at_home same)
            (In-below t ts (search process h (t ∷ us)).1 ((searched same).1 g))

pub Decides-true : {G : Type 0} (r : Result.Result Bool) → Decides G r → (r ≡ Result.ok true) ↔ G
Decides-true (Result.ok true) d = (λ e. d, λ g. refl)
Decides-true (Result.ok false) d = (λ e. absurd cc, λ g. absurd (d g))
Decides-true (Result.err e) d = absurd d
Decides-true Result.fault d = absurd d

pub tree-IsFilter :
    (c : ℕ) (s : List ℕ)
    → IsFilter (filter_levels (c ∷ s))
    → IsFilter (map to_level (first_level (c ∷ s) ∷ more_levels (c ∷ s)))
tree-IsFilter c s f = elim (Bool-cases (c == b'$')) [ inl e ↦ rw e f | inr e ↦ rw e (tt, f) ]

pub tree-AllPlain :
    (c : ℕ) (s : List ℕ)
    → AllPlain (name_levels (c ∷ s))
    → AllPlain (first_level (c ∷ s) ∷ more_levels (c ∷ s))
tree-AllPlain c s f = elim (Bool-cases (c == b'$')) [ inl e ↦ rw e f | inr e ↦ rw e (tt, f) ]

pub sub_add-IsStored :
    (c : Context) (x : ℕ) (s : List ℕ) (r : Request) (root : Hiers) (heap : Heap)
    → IsUnshared (x ∷ s)
    → AllTidy root
    → IsAccepted (sub_add c (x ∷ s) r root heap).0.0
    → IsStored c
        (x ∷ s)
        r
        (first_level (x ∷ s))
        (more_levels (x ∷ s))
        (sub_add c (x ∷ s) r root heap).1
unfolding sub_add
sub_add-IsStored c x s r root heap u tidy accepted = elim (tokens_of x s heap u) [
  | inl e ↦ absurd (refused Result.nomem (λ z. cc) (rw (sub_add, e) at accepted))
  | inr e ↦
      rw (sub_add, e)
        (add_topics-IsStored c (x ∷ s) r (first_level (x ∷ s)) (more_levels (x ∷ s)) root
          (λ i. heap (i + 2)) tidy (rw (sub_add, e) at accepted))
]

pub queue_routed :
    (process : Hier → Code) (x : ℕ) (s : List ℕ) (root : Hiers) (heap : Heap) (code : Code)
    (visited : List Topics)
    → IsUnshared (x ∷ s)
    → messages_queue process (x ∷ s) root heap ≡ Result.ok (code, visited)
    → code ≢ failed
    → route_topics process (first_level (x ∷ s) ∷ more_levels (x ∷ s)) root
      ≡ Result.ok (code, visited)
unfolding messages_queue
queue_routed process x s root heap code visited u went fine = elim (tokens_of x s heap u) [
  | inl e ↦ absurd (
      fine (
        sym
          (ap (λ y. y.0) (ok_same (failed, []) (code, visited) (rw (messages_queue, e) at went)))))
  | inr e ↦ rw (messages_queue, e) at went
]
