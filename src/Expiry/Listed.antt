-- ===== src/Expiry/Listed.antt =====
-- src/session_expiry.c: what a check does to the list that the program made.
use dimq.Prelude.{
  subst, ==_iff, ap, ◌∙◌, ◌==◌, sym, List, [], ◌∷◌, ℕ, ◌≡◌, ◌≤◌, ◌<◌, refl, arith, true, false, ltb,
  leb, inl, inr, Bool-cases, Option, none, some, if◌then◌else◌, ◌&&◌,
}
use dimq.Result.{Result, ok}
use dimq.Expiry.{
  SessionContext, Item, Sessions, delete_item, time_of, is_item, set_context, put_item, allocated,
  session_expiry_add, session_expiry_remove, take_item, clear_interval, is_there, is_freed,
  with_expired, expire, session_expiry_check, expiry_time,
}
use dimq.Expiry.Sorted.{
  EndFrom, IsUnlisted, IsTidy, AreSame, insert_item-IsTidy, delete_item-IsTidy, same-IsTidy,
  set_context-AreSame, owned-IsUnlisted, earlier-EndFrom,
}

-- What the program does with the list: a context is added only while it has no item. The interval of a
-- context is set at any time.
pub data Listed : Sessions → Type 0 where
  starts : (s : Sessions) → s.expiry_list ≡ [] → Listed s
  adds :
      (calloc : Option ℕ) (persistent_client_expiration now c : ℕ) (s s' : Sessions)
      → Listed s
      → (s.contexts c).expiry_list_item ≡ none
      → session_expiry_add calloc persistent_client_expiration now c s ≡ ok s'
      → Listed s'
  removes : (c : ℕ) (s : Sessions) → Listed s → Listed (session_expiry_remove c s)
  sets :
      (c interval : ℕ) (s : Sessions)
      → Listed s
      → Listed (record s {
        contexts =
            set_context s.contexts c (record (s.contexts c) { session_expiry_interval = interval });
      })
  checks :
      (now : ℕ) (s s' : Sessions) (expired : List ℕ)
      → Listed s
      → session_expiry_check now s ≡ some (s', expired)
      → Listed s'

-- The contexts of the items whose time is before `now`, and the other items, in the order of the list
abbrev pub due : (ℕ → SessionContext) → ℕ → List Item → List ℕ
due cs now [] = []
due cs now (x ∷ xs) = if ltb (time_of cs x) now then x.context ∷ due cs now xs else due cs now xs

abbrev pub not_due : (ℕ → SessionContext) → ℕ → List Item → List Item
not_due cs now [] = []
not_due cs now (x ∷ xs) =
    if ltb (time_of cs x) now then not_due cs now xs else x ∷ not_due cs now xs

late-due :
    (cs : ℕ → SessionContext) (now : ℕ) (xs : List Item)
    → EndFrom cs now xs
    → (due cs now xs ≡ []) × (not_due cs now xs ≡ xs)
late-due cs now [] e = (refl, refl)
late-due cs now (x ∷ xs) (le, es) =
    let (none_due, all_left) = late-due cs now xs es in
    let late : ltb (time_of cs x) now ≡ false = ground (arith, le) in
    rw late (none_due, ap (λ ys. x ∷ ys) all_left)

same-due :
    (cs cs' : ℕ → SessionContext) (now : ℕ) (xs : List Item)
    → AreSame cs cs' xs
    → (due cs' now xs ≡ due cs now xs) × (not_due cs' now xs ≡ not_due cs now xs)
same-due cs cs' now [] same = (refl, refl)
same-due cs cs' now (x ∷ xs) (time, own, same) =
    let (a, b) = same-due cs cs' now xs same in rw (time, a, b) (refl, refl)

is_item-same : (i : Item) → is_item i.context i.number i ≡ true
is_item-same i = ground arith

is_there-next : (i x : Item) (xs : List Item) → is_there x (i ∷ (x ∷ xs)) ≡ true
unfolding is_there
is_there-next i x xs = elim (Bool-cases (is_item x.context x.number i)) [
  | inl t ↦ rw t refl
  | inr t ↦ rw (t, is_item-same x) refl
]

-- The item behind the first one is of another context, and is not freed with it.
next_kept :
    (i : Item) (is : List Item)
    → IsUnlisted i.context is
    → is_freed (some i.number) i.context is (i ∷ is) ≡ false
unfolding is_freed
next_kept i [] u = refl
next_kept i (x ∷ xs) (n, u) =
    let other : is_item i.context i.number x ≡ false = ground (arith, n) in
    rw (is_there-next i x xs, other) refl

-- The first item is removed: the rest is as it was.
abbrev dropped : Item → List Item → Sessions → Sessions
dropped i is s = clear_interval i.context (record s {
  contexts =
      set_context s.contexts i.context (record (s.contexts i.context) { expiry_list_item = none });
  expiry_list = is;
})

remove_first :
    (i : Item) (is : List Item) (s : Sessions)
    → s.expiry_list ≡ i ∷ is
    → (s.contexts i.context).expiry_list_item ≡ some i.number
    → clear_interval i.context (session_expiry_remove i.context s) ≡ dropped i is s
unfolding session_expiry_remove delete_item
remove_first i is s e own =
    let deleted : delete_item i.context i.number s.expiry_list ≡ is = rw (e, is_item-same i) refl in
    ap (λ o. clear_interval i.context (take_item o i.context s)) own
    ∙ ap (λ xs. dropped i xs s) deleted

-- To be the same is kept from one write to the next.
AreSame-trans :
    (cs cs' cs'' : ℕ → SessionContext) (xs : List Item)
    → AreSame cs cs' xs
    → AreSame cs' cs'' xs
    → AreSame cs cs'' xs
AreSame-trans cs cs' cs'' [] p q = tt
AreSame-trans cs cs' cs'' (x ∷ xs) (t, o, p) (u, r, q) =
    (u ∙ t, r ∙ o, AreSame-trans cs cs' cs'' xs p q)

dropped-AreSame :
    (i : Item) (is : List Item) (s : Sessions)
    → IsUnlisted i.context is
    → AreSame s.contexts (dropped i is s).contexts is
dropped-AreSame i is s u =
    let cs =
      set_context s.contexts i.context
        (record (s.contexts i.context) { expiry_list_item = none }) in
    AreSame-trans s.contexts cs (dropped i is s).contexts is
      (set_context-AreSame s.contexts i.context
        (record (s.contexts i.context) { expiry_list_item = none }) is u)
      (set_context-AreSame cs i.context (record (cs i.context) { session_expiry_interval = 0 }) is
        u)

expire-IsChecked :
    (now : ℕ) (l : List Item) (s : Sessions)
    → s.expiry_list ≡ l
    → IsTidy s.contexts l
    → (s' : Sessions) × (expire now l s ≡ some (s', due s.contexts now l))
      × (s'.expiry_list ≡ not_due s.contexts now l)
      × (s'.last_check ≡ s.last_check)
      × IsTidy s'.contexts s'.expiry_list
unfolding expire is_there
expire-IsChecked now [] s e tidy = (s, refl, e, refl, subst (λ l. IsTidy s.contexts l) (sym e) tidy)
expire-IsChecked now (i ∷ is) s e tidy =
    let there : is_there i s.expiry_list ≡ true = rw (e, is_item-same i) refl in
    elim (Bool-cases (ltb (time_of s.contexts i) now)) [
      | inr late ↦
          let le : now ≤ time_of s.contexts i = ground (arith, late) in
          let (none_due, all_left) =
            late-due s.contexts now is
              (earlier-EndFrom s.contexts now (time_of s.contexts i) is le tidy.sorted.0) in
          (
            s,
            rw (there, late, none_due) refl,
            rw (late, all_left) e,
            refl,
            subst (λ l. IsTidy s.contexts l) (sym e) tidy,
          )
      | inl now_due ↦
          let s1 = dropped i is s in
          let removed = remove_first i is s e tidy.owned.0 in
          let same = dropped-AreSame i is s tidy.apart.0 in
          let rest : IsTidy s.contexts is = record {
            sorted = tidy.sorted.1;
            owned = tidy.owned.1;
            apart = tidy.apart.1;
          } in
          let (dues, lefts) = same-due s.contexts s1.contexts now is same in
          let (s', run, left, last, tidy') =
            expire-IsChecked now is s1 refl (same-IsTidy s.contexts s1.contexts is same rest) in
          let kept : is_freed (s.contexts i.context).expiry_list_item i.context is s.expiry_list
              ≡ false =
            rw (tidy.owned.0, e) (next_kept i is tidy.apart.0) in
          (
            s',
            rw (there, now_due, kept)
                (ap (λ z. with_expired i.context (expire now is z)) removed
                  ∙ ap (with_expired i.context) run
                  ∙ ap (λ ds. some (s', i.context ∷ ds)) dues),
            rw now_due (left ∙ lefts),
            last,
            tidy',
          )
    ]

put_item-IsTidy :
    (c time number : ℕ) (s : Sessions)
    → (s.contexts c).expiry_list_item ≡ none
    → IsTidy s.contexts s.expiry_list
    → IsTidy (put_item c time number s).contexts (put_item c time number s).expiry_list
put_item-IsTidy c time number s free tidy =
    let v : SessionContext = record (s.contexts c) {
      session_expiry_time = time;
      expiry_list_item = some number;
    } in
    let cs = set_context s.contexts c v in
    let u = owned-IsUnlisted s.contexts c s.expiry_list tidy.owned free in
    let here : (c == c) ≡ true = ground arith in
    insert_item-IsTidy cs (record { context = c; number = number }) s.expiry_list
      (ap (λ b. (if b then v else s.contexts c).expiry_list_item) here) u
      (same-IsTidy s.contexts cs s.expiry_list (set_context-AreSame s.contexts c v s.expiry_list u)
        tidy)

allocated-IsTidy :
    (calloc : Option ℕ) (c time : ℕ) (s s' : Sessions)
    → (s.contexts c).expiry_list_item ≡ none
    → IsTidy s.contexts s.expiry_list
    → allocated calloc c time s ≡ ok s'
    → IsTidy s'.contexts s'.expiry_list
allocated-IsTidy none c time s s' free tidy e = cc
allocated-IsTidy (some number) c time s s' free tidy e =
    let same : put_item c time number s ≡ s' = cc in
    subst (λ z. IsTidy z.contexts z.expiry_list) same (put_item-IsTidy c time number s free tidy)

add-IsTidy :
    (calloc : Option ℕ) (persistent_client_expiration now c : ℕ) (s s' : Sessions)
    → (s.contexts c).expiry_list_item ≡ none
    → IsTidy s.contexts s.expiry_list
    → session_expiry_add calloc persistent_client_expiration now c s ≡ ok s'
    → IsTidy s'.contexts s'.expiry_list
unfolding session_expiry_add
add-IsTidy calloc p now c s s' free tidy e =
    let interval = (s.contexts c).session_expiry_interval in
    elim (Bool-cases (p == 0 && interval == 4294967295)) [
      | inl never ↦
          let kept : ◌≡◌ {A = Result Sessions} (ok s) (ok s') = rw never at e in
          let same : s ≡ s' = cc in subst (λ z. IsTidy z.contexts z.expiry_list) same tidy
      | inr ends ↦
          allocated-IsTidy calloc c (expiry_time p now interval) s s' free tidy (rw ends at e)
    ]

take-IsTidy :
    (c : ℕ) (s : Sessions) (item : Option ℕ)
    → (s.contexts c).expiry_list_item ≡ item
    → IsTidy s.contexts s.expiry_list
    → IsTidy (take_item item c s).contexts (take_item item c s).expiry_list
take-IsTidy c s none e tidy = tidy
take-IsTidy c s (some number) e tidy =
    let (left, gone) = delete_item-IsTidy s.contexts c number s.expiry_list e tidy in
    let v : SessionContext = record (s.contexts c) { expiry_list_item = none } in
    same-IsTidy s.contexts (set_context s.contexts c v) (delete_item c number s.expiry_list)
      (set_context-AreSame s.contexts c v (delete_item c number s.expiry_list) gone) left

set_interval-AreSame :
    (cs : ℕ → SessionContext) (c interval : ℕ) (xs : List Item)
    → AreSame cs (set_context cs c (record (cs c) { session_expiry_interval = interval })) xs
set_interval-AreSame cs c interval [] = tt
set_interval-AreSame cs c interval (x ∷ xs) = elim (Bool-cases (x.context == c)) [
  | inl t ↦
      let same : c ≡ x.context = sym ((==_iff x.context c).0 t) in
      (
        rw (time_of, t) (ap (λ y. (cs y).session_expiry_time) same),
        rw t (ap (λ y. (cs y).expiry_list_item) same),
        set_interval-AreSame cs c interval xs,
      )
  | inr t ↦ (rw (time_of, t) refl, rw t refl, set_interval-AreSame cs c interval xs)
]

check-IsTidy :
    (now : ℕ) (s s' : Sessions) (expired : List ℕ)
    → IsTidy s.contexts s.expiry_list
    → session_expiry_check now s ≡ some (s', expired)
    → IsTidy s'.contexts s'.expiry_list
unfolding session_expiry_check
check-IsTidy now s s' expired tidy e = elim (Bool-cases (leb now s.last_check)) [
  | inl again ↦
      let kept : ◌≡◌ {A = Option (Sessions × List ℕ)} (some (s, [])) (some (s', expired)) =
        rw again at e in
      let same : s ≡ s' = ap state kept in subst (λ z. IsTidy z.contexts z.expiry_list) same tidy
  | inr new ↦
      let (z, run, left, last, done) =
        expire-IsChecked now s.expiry_list (record s { last_check = now }) refl tidy in
      let kept : expire now s.expiry_list (record s { last_check = now }) ≡ some (s', expired) =
        rw new at e in
      let same : z ≡ s' = ap state (sym run ∙ kept) in
      subst (λ z. IsTidy z.contexts z.expiry_list) same done
]
  where
    state : Option (Sessions × List ℕ) → Sessions
    state none = s
    state (some (z, ds)) = z

Listed-IsTidy : {s : Sessions} → Listed s → IsTidy s.contexts s.expiry_list
unfolding session_expiry_remove
Listed-IsTidy (starts s e) =
    subst (λ l. IsTidy s.contexts l) (sym e) (record { sorted = tt; owned = tt; apart = tt })
Listed-IsTidy (adds calloc p now c s s' l free e) =
    add-IsTidy calloc p now c s s' free (Listed-IsTidy l) e
Listed-IsTidy (removes c s l) =
    take-IsTidy c s (s.contexts c).expiry_list_item refl (Listed-IsTidy l)
Listed-IsTidy (sets c interval s l) =
    same-IsTidy s.contexts
      (set_context s.contexts c (record (s.contexts c) { session_expiry_interval = interval }))
      s.expiry_list (set_interval-AreSame s.contexts c interval s.expiry_list) (Listed-IsTidy l)
Listed-IsTidy (checks now s s' expired l e) = check-IsTidy now s s' expired (Listed-IsTidy l) e

-- After any adds, removes, checks and settings of intervals, each add of a context that has no item at
-- that time, from an empty list on: a check later than the last one reads no item that was freed, and it
-- expires exactly the contexts of the items whose time is before `now`, in the order of the list,
-- leaves all other items, and keeps `now` as its time.
pub session_expiry_check-Listed :
    (s : Sessions) (now : ℕ)
    → Listed s
    → s.last_check < now
    → (s' : Sessions) × (session_expiry_check now s ≡ some (s', due s.contexts now s.expiry_list))
      × (s'.expiry_list ≡ not_due s.contexts now s.expiry_list)
      × (s'.last_check ≡ now)
unfolding session_expiry_check
session_expiry_check-Listed s now l after =
    let new : leb now s.last_check ≡ false = ground (arith, after) in
    let (s', run, left, last, done) =
      expire-IsChecked now s.expiry_list (record s { last_check = now }) refl (Listed-IsTidy l) in
    (s', rw new run, left, last)
