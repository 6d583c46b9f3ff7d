-- ===== src/Subs/Subscribed.antt =====
-- `sub__add_context` of src/subs.c: the subscription is there, and the others stay.
use dimq.Subs.Join.{
  mqtts, no_protocol, add_result, Context, Request, Protocol, mqtt31, mqtt311, mqtt5, is_client,
  update_leaf, new_leaf, add_leaf, rest_of, keep_sub, keep_normal, add_normal, told,
}
use dimq.Subs.Add.{add_at, add_context}
use dimq.Subs.Leaves.{
  drop_last-append, leaf_of-append, update_leaf-none, apart_client, update_leaf-IsAsked,
  leaf_of-append_other, update_leaf-other, leaf_of, IsAsked,
}
use dimq.Subs.{Leaf, Shared, Hier, Topics}
use dimq.Subs.Added.{content_at, add_at_elsewhere, add_at-Done}
use dimq.Subs.Complete.{same_text_refl}
use dimq.Packet.{Heap}
use dimq.Result.{Err, Status, err, success, nomem, inval, sub_exists}
use dimq.Prelude.{
  ℕ, ◌≡◌, ◌≢◌, ◌⊎◌, ◌∙◌, inl, inr, true, false, List, [], ◌∷◌, ◌++◌, none, some, Bool-cases,
  Option-cases, refl, ap, sym, subst,
}

-- The caller is told that the client is subscribed.
abbrev pub IsAccepted : Status → Type 0
IsAccepted code = (code ≡ success) ⊎ (code ≡ err sub_exists)

told-success : (p : Protocol) → told p success ≡ success
told-success no_protocol = refl
told-success mqtts = refl
told-success mqtt31 = refl
told-success mqtt311 = refl
told-success mqtt5 = refl

pub refused : (code : Err) → code ≢ sub_exists → IsAccepted (err code) → ⊥
refused code n (inl e) = let bad : err code ≡ success = e in cc
refused code n (inr e) = n cc

pub not_exists : {e : Err} → (e ≡ inval) ⊎ (e ≡ nomem) → e ≢ sub_exists
not_exists (inl z) = λ y. cc
not_exists (inr z) = λ y. cc

-- What `sub__add_normal` leaves of a list of subscriptions.
abbrev Kept : List ℕ → Request → List Leaf → Status → List Leaf → Type 0
Kept id r leaves code now =
    ((id' : List ℕ) → id' ≢ id → leaf_of id' now ≡ leaf_of id' leaves)
    × (IsAccepted code → IsAsked r (leaf_of id now))

module _ (c : Context) (id sub : List ℕ) (r : Request) (path : Topics)
    (named : c.client.id ≡ some id) where
  new_leaf-is_client : is_client id (new_leaf c.client r) ≡ true
  new_leaf-is_client = rw (named, same_text_refl id) refl

  keep_normal-Kept :
      (leaves : List Leaf) (shared : List Shared) (heap : Heap)
      → leaf_of id leaves ≡ none
      → let y = keep_normal c sub path (leaves ++ new_leaf c.client r ∷ []) shared heap in
        (y.2 ≡ shared) × Kept id r leaves y.0.0 y.1
  unfolding keep_normal
  keep_normal-Kept leaves shared heap fresh = elim (Bool-cases (heap 0)) [
    | inl t ↦
        elim (Bool-cases
          (keep_sub c (record { topic_filter = sub; hier = path; shared = none })
            (rest_of heap)).0) [
              | inl k ↦
                  rw (t, k)
                    (
                      refl,
                      (
                        others,
                        λ ok. (
                          new_leaf c.client r,
                          leaf_of-append id (new_leaf c.client r) leaves fresh new_leaf-is_client,
                          refl,
                          refl,
                        ),
                      ),
                    )
              | inr k ↦
                  rw (t, k)
                    (
                      refl,
                      (
                        (λ id' n. ap (leaf_of id') (drop_last-append (new_leaf c.client r) leaves)),
                        λ ok. absurd (refused nomem (λ e. cc) ok),
                      ),
                    )
            ]
    | inr t ↦ rw t (refl, (others, λ ok. absurd (refused nomem (λ e. cc) ok)))
  ]
    where
      others :
          (id' : List ℕ)
          → id' ≢ id
          → leaf_of id' (leaves ++ new_leaf c.client r ∷ []) ≡ leaf_of id' leaves
      others id' n =
          leaf_of-append_other id' (new_leaf c.client r) leaves
            (apart_client id id' (new_leaf c.client r) n new_leaf-is_client)

  -- The answer of `sub__add_leaf`
  add_leaf-exists :
      (leaves ls : List Leaf) (heap : Heap)
      → update_leaf id r leaves ≡ some ls
      → add_leaf c.client id r leaves heap ≡ (err sub_exists, ls, heap)
  unfolding add_leaf
  add_leaf-exists leaves ls heap e = rw (add_leaf, e) refl

  add_leaf-fresh :
      (leaves : List Leaf) (heap : Heap)
      → update_leaf id r leaves ≡ none
      → heap 0 ≡ true
      → add_leaf c.client id r leaves heap
        ≡ (success, leaves ++ new_leaf c.client r ∷ [], rest_of heap)
  unfolding add_leaf
  add_leaf-fresh leaves heap e t = rw (add_leaf, e, t) refl

  add_leaf-refused :
      (leaves : List Leaf) (heap : Heap)
      → update_leaf id r leaves ≡ none
      → heap 0 ≡ false
      → add_leaf c.client id r leaves heap ≡ (err nomem, leaves, rest_of heap)
  unfolding add_leaf
  add_leaf-refused leaves heap e t = rw (add_leaf, e, t) refl

  add_normal-Kept :
      (leaves : List Leaf) (shared : List Shared) (heap : Heap)
      → let y = add_normal c id sub r path leaves shared heap in
        (y.2 ≡ shared) × Kept id r leaves y.0.0 y.1
  unfolding add_normal
  add_normal-Kept leaves shared heap = elim (Option-cases (update_leaf id r leaves)) [
    | inr (ls, e) ↦ subst Fine (sym (add_leaf-exists leaves ls heap e)) (
      refl,
      (
        (λ id' n. update_leaf-other id r id' leaves ls n e),
        λ ok. update_leaf-IsAsked id r leaves ls e,
      ),
    )
    | inl e ↦ elim (Bool-cases (heap 0)) [
      | inl t ↦
          subst Fine (sym (add_leaf-fresh leaves heap e t))
            (keep_normal-Kept leaves shared (rest_of heap) (update_leaf-none id r leaves e))
      | inr t ↦
          subst Fine (sym (add_leaf-refused leaves heap e t))
            (refl, ((λ id' n. refl), λ ok. absurd (refused nomem (λ e. cc) ok)))
    ]
  ]
    where
      Fine : Status × List Leaf × Heap → Type 0
      Fine a = let y = add_result c sub path shared a in (y.2 ≡ shared) × Kept id r leaves y.0.0 y.1

-- Where it is added: the step of a client with an id.
pub add_context-named :
    (c : Context) (sub id : List ℕ) (r : Request) (p : Topics) (h : Hier) (heap : Heap)
    → c.client.id ≡ some id
    → add_context c sub r none p h heap
      ≡ add_at (λ e. (err e, c)) (add_normal c id sub r p) p h heap
unfolding add_context
add_context-named c sub id r p h heap named = rw named refl

-- Whether it succeeds or not, `sub__add_context` for a client with an id and a filter that is not
-- shared leaves every other node as it was, and in the node of the filter the shared subscriptions and
-- what every client with another id has there.
pub add_context_keeps :
    (c : Context) (sub id : List ℕ) (r : Request) (p : Topics) (h : Hier) (heap : Heap)
    → c.client.id ≡ some id
    → let h' = (add_context c sub r none p h heap).1 in
      ((q : Topics) → p ≢ q → content_at h' q ≡ content_at h q)
      × ((content_at h' p).1 ≡ (content_at h p).1)
      × ((id' : List ℕ)
          → id' ≢ id
          → leaf_of id' (content_at h' p).0 ≡ leaf_of id' (content_at h p).0)
add_context_keeps c sub id r p h heap named =
    let step = add_normal c id sub r p in
    let failed : Err → Status × Context = λ e. (err e, c) in
    let kept = add_normal-Kept c id sub r p named (content_at h p).0 (content_at h p).1 in
    rw (add_context-named c sub id r p h heap named) (
      (λ q n. add_at_elsewhere failed step p q h heap n),
      elim (add_at-Done failed step p h heap) [
        | inl (e, early, x, same) ↦ ap (λ y. y.1) same
        | inr (g, (x, same)) ↦ ap (λ y. y.1) same ∙ (kept g).0
      ],
      λ id' n. elim (add_at-Done failed step p h heap) [
        | inl (e, early, x, same) ↦ ap (λ y. leaf_of id' y.0) same
        | inr (g, (x, same)) ↦ ap (λ y. leaf_of id' y.0) same ∙ (kept g).1.0 id' n
      ],
    )

-- Where `sub__add_context` tells a client with an id that it is subscribed to a filter that is not
-- shared, the node of the filter is there and holds a subscription of that client with the QoS and the identifier that it asked for.
pub add_context_subscribes :
    (c : Context) (sub id : List ℕ) (r : Request) (p : Topics) (h : Hier) (heap : Heap)
    → c.client.id ≡ some id
    → IsAccepted (add_context c sub r none p h heap).0.0
    → IsAsked r (leaf_of id (content_at (add_context c sub r none p h heap).1 p).0)
add_context_subscribes c sub id r p h heap named accepted =
    let step = add_normal c id sub r p in
    let failed : Err → Status × Context = λ e. (err e, c) in
    let same = add_context-named c sub id r p h heap named in
    let told_so = subst (λ y. IsAccepted y.0.0) same accepted in
    subst (λ y. IsAsked r (leaf_of id (content_at y.1 p).0)) (sym same)
      (elim (add_at-Done failed step p h heap) [
        | inl (e, early, x, _) ↦
            absurd (refused e (not_exists early) (subst (λ y. IsAccepted y.0) x told_so))
        | inr (g, (x, now)) ↦
            subst (λ y. IsAsked r (leaf_of id y.0)) (sym now)
              ((add_normal-Kept c id sub r p named (content_at h p).0 (content_at h p).1 g).1.1
                (subst (λ y. IsAccepted y.0) x told_so))
      ])
