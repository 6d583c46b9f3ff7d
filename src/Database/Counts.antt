-- ===== src/Database/Counts.antt =====
-- Counting references in the store of messages, src/database.c: what an entry that is taken out or
-- changed does to the counts.
use dimq.Prelude.{
  List, [], ◌∷◌, ℕ, ◌≡◌, refl, some, arith, inl, inr, ◌∙◌, sym, subst, ap, ◌==◌, ◌≢◌, if◌then◌else◌,
  Bool-cases, ◌<◌,
}
use dimq.Database.{Stored}
use dimq.Database.Store.{find_stored, put_stored, drop_stored}

-- The count of the references to an entry, 0 where there is none.
unfoldable pub refs : ℕ → List Stored → ℕ
refs x [] = 0
refs x (s ∷ st) = let more = refs x st in if s.db_id == x then s.ref_count else more

abbrev pub IsAbsent : ℕ → List Stored → Type 0
IsAbsent x [] = Unit {0}
IsAbsent x (s ∷ st) = (s.db_id ≢ x) × IsAbsent x st

-- No two entries have the same id.
abbrev pub AreDistinct : List Stored → Type 0
AreDistinct [] = Unit {0}
AreDistinct (s ∷ st) = IsAbsent s.db_id st × AreDistinct st

refs-IsAbsent : (x : ℕ) (st : List Stored) → IsAbsent x st → refs x st ≡ 0
unfolding refs
refs-IsAbsent x [] a = refl
refs-IsAbsent x (s ∷ st) a = let ih = refs-IsAbsent x st a.1 in ground (arith, ih, a.0)

drop-IsAbsent : (x id : ℕ) (st : List Stored) → IsAbsent x st → IsAbsent x (drop_stored id st)
unfolding drop_stored
drop-IsAbsent x id [] a = tt
drop-IsAbsent x id (s ∷ st) a = elim (Bool-cases (s.db_id == id)) [
  | inl t ↦ rw t a.1
  | inr t ↦ rw t (a.0, drop-IsAbsent x id st a.1)
]

put-IsAbsent :
    (x id : ℕ) (s' : Stored) (st : List Stored)
    → s'.db_id ≡ id
    → IsAbsent x st
    → IsAbsent x (put_stored id s' st)
unfolding put_stored
put-IsAbsent x id s' [] same a = tt
put-IsAbsent x id s' (s ∷ st) same a = elim (Bool-cases (s.db_id == id)) [
  | inl t ↦ rw t (ground (arith, same, a.0, t), a.1)
  | inr t ↦ rw t (a.0, put-IsAbsent x id s' st same a.1)
]

pub drop-AreDistinct :
    (id : ℕ) (st : List Stored) → AreDistinct st → AreDistinct (drop_stored id st)
unfolding drop_stored
drop-AreDistinct id [] d = tt
drop-AreDistinct id (s ∷ st) d = elim (Bool-cases (s.db_id == id)) [
  | inl t ↦ rw t d.1
  | inr t ↦ rw t (drop-IsAbsent s.db_id id st d.0, drop-AreDistinct id st d.1)
]

pub put-AreDistinct :
    (id : ℕ) (s' : Stored) (st : List Stored)
    → s'.db_id ≡ id
    → AreDistinct st
    → AreDistinct (put_stored id s' st)
unfolding put_stored
put-AreDistinct id s' [] same d = tt
put-AreDistinct id s' (s ∷ st) same d = elim (Bool-cases (s.db_id == id)) [
  | inl t ↦
      let eq : s.db_id ≡ s'.db_id = ground (arith, t, same) in
      rw t (subst (λ i. IsAbsent i st) eq d.0, d.1)
  | inr t ↦ rw t (put-IsAbsent s.db_id id s' st same d.0, put-AreDistinct id s' st same d.1)
]

pub refs-drop :
    (x id : ℕ) (st : List Stored)
    → AreDistinct st
    → refs x (drop_stored id st) ≡ (if id == x then 0 else refs x st)
unfolding drop_stored refs
refs-drop x id [] d = ground arith
refs-drop x id (s ∷ st) d =
    let ih = refs-drop x id st d.1 in
    let none_left = refs-IsAbsent s.db_id st d.0 in
    elim (Bool-cases (s.db_id == id)) [
      | inl t ↦
          let same : s.db_id ≡ id = ground (arith, t) in
          rw t (elim (Bool-cases (id == x)) [
            | inl u ↦
                let eq : s.db_id ≡ x = ground (arith, same, u) in
                rw u (sym (ap (λ i. refs i st) eq) ∙ none_left)
            | inr u ↦ ground (arith, same, u)
          ])
      | inr t ↦ ground (arith, t, ih)
    ]

pub find_stored-same :
    (id : ℕ) (st : List Stored) (s : Stored) → find_stored id st ≡ some s → s.db_id ≡ id
unfolding find_stored
find_stored-same id [] s e = cc
find_stored-same id (s' ∷ st) s e = elim (Bool-cases (s'.db_id == id)) [
  | inl t ↦ let same : s' ≡ s = cc in ground (arith, t, ap (λ r. r.db_id) same)
  | inr t ↦ find_stored-same id st s (rw t at e)
]

pub refs-find :
    (id : ℕ) (st : List Stored) (s : Stored) → find_stored id st ≡ some s → refs id st ≡ s.ref_count
unfolding find_stored refs
refs-find id [] s e = cc
refs-find id (s' ∷ st) s e = elim (Bool-cases (s'.db_id == id)) [
  | inl t ↦ let same : s' ≡ s = cc in rw t (ap (λ r. r.ref_count) same)
  | inr t ↦ rw t (refs-find id st s (rw t at e))
]

pub refs-put :
    (x id : ℕ) (s' s : Stored) (st : List Stored)
    → s'.db_id ≡ id
    → find_stored id st ≡ some s
    → refs x (put_stored id s' st) ≡ (if id == x then s'.ref_count else refs x st)
unfolding find_stored put_stored refs
refs-put x id s' s [] same e = cc
refs-put x id s' s (r ∷ st) same e = elim (Bool-cases (r.db_id == id)) [
  | inl t ↦ rw t (ground (arith, same, t))
  | inr t ↦ let ih = refs-put x id s' s st same (rw t at e) in rw t (ground (arith, same, t, ih))
]

pub find_stored-refs :
    (id : ℕ) (st : List Stored) → 0 < refs id st → (s : Stored) × (find_stored id st ≡ some s)
unfolding find_stored refs
find_stored-refs id [] lt = absurd (omega (arith, lt))
find_stored-refs id (s ∷ st) lt = elim (Bool-cases (s.db_id == id)) [
  | inl t ↦ (s, rw t refl)
  | inr t ↦ let ih = find_stored-refs id st (rw t at lt) in (ih.0, rw t ih.1)
]
