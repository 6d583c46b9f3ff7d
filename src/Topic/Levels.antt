-- ===== src/Topic/Levels.antt =====
-- Filters and topic names as levels (section 4.7 of the MQTT v5 standard), and which filter matches
-- which name.
use dimq.Prelude.{ℕ, ◌≡◌, ◌≢◌, List, [], ◌∷◌, ◌++◌}

pub data Level : Type 0 where
  plus hash : Level
  word : List ℕ → Level

-- Neither a separator nor a wildcard nor NUL.
abbrev pub IsPlain : List ℕ → Type 0
IsPlain [] = Unit
IsPlain (c ∷ w) = ((c ≢ 0) × (c ≢ b'/') × (c ≢ b'+') × (c ≢ b'#')) × IsPlain w

abbrev pub AllPlain : List (List ℕ) → Type 0
AllPlain [] = Unit
AllPlain (t ∷ ts) = IsPlain t × AllPlain ts

-- `#` stands last only.
abbrev pub IsFilter : List Level → Type 0
IsFilter [] = Unit
IsFilter (plus ∷ fs) = IsFilter fs
IsFilter (hash ∷ fs) = fs ≡ []
IsFilter (word w ∷ fs) = IsPlain w × IsFilter fs

abbrev pub level_bytes : Level → List ℕ
level_bytes plus = b'+' ∷ []
level_bytes hash = b'#' ∷ []
level_bytes (word w) = w

-- Every further level comes behind a separator.
abbrev pub filter_rest : List Level → List ℕ
filter_rest [] = []
filter_rest (f ∷ fs) = b'/' ∷ (level_bytes f ++ filter_rest fs)

abbrev pub filter_bytes : Level → List Level → List ℕ
filter_bytes f fs = level_bytes f ++ filter_rest fs

abbrev pub name_rest : List (List ℕ) → List ℕ
name_rest [] = []
name_rest (t ∷ ts) = b'/' ∷ (t ++ name_rest ts)

abbrev pub name_bytes : List ℕ → List (List ℕ) → List ℕ
name_bytes t ts = t ++ name_rest ts

-- `+` stands for one level, and `#` for all that follow, none included.
abbrev pub Matches : List Level → List (List ℕ) → Type 0
Matches [] [] = Unit
Matches [] (t ∷ ts) = ⊥
Matches (hash ∷ fs) ts = Unit
Matches (plus ∷ fs) [] = ⊥
Matches (plus ∷ fs) (t ∷ ts) = Matches fs ts
Matches (word w ∷ fs) [] = ⊥
Matches (word w ∷ fs) (t ∷ ts) = (w ≡ t) × Matches fs ts
