-- ===== src/Alias/Kept.antt =====
-- `alias__find` after `alias__add`, lib/alias_dimq.c.
use dimq.Prelude.{
  ℕ, ◌≡◌, ◌==◌, ◌⊎◌, inl, inr, false, List, [], ◌∷◌, ◌++◌, Option, none, some, Bool-cases,
  Option-cases, ==_iff, refl, subst, arith, if◌then◌else◌,
}
use dimq.Alias.{Alias, replace, alias_add, alias_find}
use dimq.Packet.{Heap}
use dimq.Result.{Result, ok, err, success, nomem}

-- What the map says of an alias
abbrev pub answer : List ℕ → Heap → Result (List ℕ)
answer topic heap = if heap 0 then ok topic else err nomem

-- The first entry takes the topic, or the loop goes on behind it.
replace_cases :
    (alias : ℕ) (topic : Option (List ℕ)) (a : Alias) (aliases now : List Alias)
    → replace alias topic (a ∷ aliases) ≡ some now
    → ((a.alias ≡ alias) × (record a { topic = topic } ∷ aliases ≡ now))
      ⊎ (((a.alias == alias) ≡ false)
          × (more : List Alias) × (replace alias topic aliases ≡ some more)
          × (a ∷ more ≡ now))
unfolding replace
replace_cases alias topic a aliases now e = elim (Bool-cases (a.alias == alias)) [
  | inl t ↦
      let same : some (record a { topic = topic } ∷ aliases) ≡ some now = rw t at e in
      inl ((==_iff a.alias alias).0 t, cc)
  | inr t ↦ elim (Option-cases (replace alias topic aliases)) [
    | inl z ↦ let bad : ◌≡◌ {A = Option (List Alias)} none (some now) = rw (t, z) at e in absurd cc
    | inr (more, z) ↦ let same : some (a ∷ more) ≡ some now = rw (t, z) at e in inr (t, more, z, cc)
  ]
]

replace-none :
    (alias : ℕ) (topic : Option (List ℕ)) (a : Alias) (aliases : List Alias)
    → replace alias topic (a ∷ aliases) ≡ none
    → ((a.alias == alias) ≡ false) × (replace alias topic aliases ≡ none)
unfolding replace
replace-none alias topic a aliases e = elim (Bool-cases (a.alias == alias)) [
  | inl t ↦ let bad : some (record a { topic = topic } ∷ aliases) ≡ none = rw t at e in absurd cc
  | inr t ↦ elim (Option-cases (replace alias topic aliases)) [
    | inl z ↦ (t, z)
    | inr (more, z) ↦ let bad : some (a ∷ more) ≡ none = rw (t, z) at e in absurd cc
  ]
]

==_sym : (a b : ℕ) → (a == b) ≡ (b == a)
==_sym a b = ground arith

module _ (alias : ℕ) (topic : List ℕ) (other : ℕ) (heap : Heap) where
  abbrev expected : List Alias → Result (List ℕ)
  expected aliases = if other == alias then answer topic heap else alias_find other aliases heap

  -- One entry more in front, of another alias than the one that is added.
  expected_behind :
      (a : Alias) (aliases now : List Alias)
      → (a.alias == alias) ≡ false
      → alias_find other now heap ≡ expected aliases
      → alias_find other (a ∷ now) heap ≡ expected (a ∷ aliases)
  unfolding alias_find
  expected_behind a aliases now t ih = elim (Bool-cases (a.alias == other)) [
    | inl s ↦
        let differs : (other == alias) ≡ false = rw ((==_iff a.alias other).0 s) at t in
        rw (s, differs) refl
    | inr s ↦ rw s ih
  ]

  replaced :
      (a : Alias) (aliases : List Alias)
      → a.alias ≡ alias
      → alias_find other (record a { topic = some topic } ∷ aliases) heap ≡ expected (a ∷ aliases)
  unfolding alias_find
  replaced a aliases same =
      rw (same, ==_sym other alias)
        (elim (Bool-cases (alias == other)) [ inl t ↦ rw t refl | inr t ↦ rw t refl ])

  single : alias_find other (record { alias = alias; topic = some topic } ∷ []) heap ≡ expected []
  unfolding alias_find
  single =
      rw (==_sym other alias)
        (elim (Bool-cases (alias == other)) [ inl t ↦ rw t refl | inr t ↦ rw t refl ])

  find_replace :
      (aliases now : List Alias)
      → replace alias (some topic) aliases ≡ some now
      → alias_find other now heap ≡ expected aliases
  find_replace [] now e =
      let bad : ◌≡◌ {A = Option (List Alias)} none (some now) = unfold replace in e in absurd cc
  find_replace (a ∷ aliases) now e = elim (replace_cases alias (some topic) a aliases now e) [
    | inl (same, is) ↦
        subst (λ l. alias_find other l heap ≡ expected (a ∷ aliases)) is (replaced a aliases same)
    | inr (t, more, z, is) ↦
        subst (λ l. alias_find other l heap ≡ expected (a ∷ aliases)) is
          (expected_behind a aliases more t (find_replace aliases more z))
  ]

  find_append :
      (aliases : List Alias)
      → replace alias (some topic) aliases ≡ none
      → alias_find other (aliases ++ record { alias = alias; topic = some topic } ∷ []) heap
        ≡ expected aliases
  find_append [] e = single
  find_append (a ∷ aliases) e =
      let (t, z) = replace-none alias (some topic) a aliases e in
      expected_behind a aliases (aliases ++ record { alias = alias; topic = some topic } ∷ []) t
        (find_append aliases z)

-- After `alias__add` succeeded, `alias__find` gives a copy of the topic for that alias, where the
-- allocator has room for one, and for every other alias what it gave before.
pub alias_find-alias_add :
    (topic : List ℕ) (alias other : ℕ) (aliases : List Alias) (heap later : Heap)
    → (alias_add topic alias aliases heap).0 ≡ success
    → alias_find other (alias_add topic alias aliases heap).1 later
      ≡ (if other == alias then answer topic later else alias_find other aliases later)
unfolding alias_add
alias_find-alias_add topic alias other aliases heap later e = elim (Bool-cases (heap 0)) [
  | inl t ↦ elim (Option-cases (replace alias (some topic) aliases)) [
    | inr (now, z) ↦ rw (alias_add, t, z) (find_replace alias topic other later aliases now z)
    | inl z ↦ elim (Bool-cases (heap 1)) [
      | inl u ↦ rw (alias_add, t, z, t, u) (find_append alias topic other later aliases z)
      | inr u ↦ let bad : err nomem ≡ success = rw (alias_add, t, z, t, u) at e in absurd cc
    ]
  ]
  | inr t ↦ elim (Option-cases (replace alias none aliases)) [
    | inr (now, z) ↦ let bad : err nomem ≡ success = rw (alias_add, t, z, t) at e in absurd cc
    | inl z ↦ let bad : err nomem ≡ success = rw (alias_add, t, z, t) at e in absurd cc
  ]
]
