-- ===== src/Subs/Routed.antt =====
-- From texts to nodes, src/subs.c and src/topic_tok.c: which first levels and levels match.
use dimq.Prelude.{
  ◌∙◌, ℕ, ◌≡◌, ◌≢◌, ◌↔◌, ◌==◌, inl, inr, true, List, [], ◌∷◌, map, Bool-cases, arith, refl, sym,
  if◌then◌else◌,
}
use dimq.Subs.Tokenised.{tree_levels}
use dimq.Topic.Levels.{word, Matches}
use dimq.Topic.Decides.{SameDollar}
use dimq.Topic.Checked.{split, to_level, filter_levels, name_levels}

abbrev pub first_level : List ℕ → List ℕ
first_level [] = []
first_level (c ∷ s) = if c == b'$' then (split (c ∷ s)).0 else []

split_dollar : (c : ℕ) (s : List ℕ) → (c == b'$') ≡ true → (split (c ∷ s)).0 ≡ c ∷ (split s).0
unfolding split
split_dollar c s e = ground arith

not_bare : (c : ℕ) (s : List ℕ) → (c == b'$') ≡ true → (split (c ∷ s)).0 ≢ []
not_bare c s e none_there =
    let bad : ◌≡◌ {A = List ℕ} (c ∷ (split s).0) [] = sym (split_dollar c s e) ∙ none_there in cc

dollar_word : (c : ℕ) (w : List ℕ) → (c == b'$') ≡ true → to_level (c ∷ w) ≡ word (c ∷ w)
dollar_word c [] e = ground arith
dollar_word c (d ∷ w) e = refl

first_word :
    (c : ℕ) (s : List ℕ) → (c == b'$') ≡ true → to_level (split (c ∷ s)).0 ≡ word (split (c ∷ s)).0
first_word c s e = rw (split_dollar c s e) (dollar_word c (split s).0 e)

-- The levels in the tree match exactly if those of the texts do and both or none begin with `$`; and
-- the first ones are then the same.
pub tree-Matches :
    (c d : ℕ) (s t : List ℕ)
    → ((first_level (c ∷ s) ≡ first_level (d ∷ t))
        × Matches (map to_level (tree_levels (c ∷ s))) (tree_levels (d ∷ t)))
      ↔ (SameDollar (c ∷ s) (d ∷ t) × Matches (filter_levels (c ∷ s)) (name_levels (d ∷ t)))
tree-Matches c d s t = elim (Bool-cases (c == b'$')) [
  | inl e ↦ elim (Bool-cases (d == b'$')) [
    | inl f ↦ rw (e, f) (λ (same, m). (refl, m), λ (same, m). ((rw (first_word c s e) at m).0, m))
    | inr f ↦ rw (e, f) (λ (same, m). absurd (not_bare c s e same), λ (same, m). absurd cc)
  ]
  | inr e ↦ elim (Bool-cases (d == b'$')) [
    | inl f ↦ rw (e, f) (λ (same, m). absurd (not_bare d t f (sym same)), λ (same, m). absurd cc)
    | inr f ↦ rw (e, f) (λ (same, m). (refl, m.1), λ (same, m). (refl, (refl, m)))
  ]
]
