-- ===== src/Subs/Tokenised.antt =====
-- `sub__topic_tokenise` of src/topic_tok.c gives the levels of its text, and stays in its array.
use dimq.Prelude.{
  ==_iff, ◌&&◌, ◌∙◌, inr, inl, ℕ, zero, suc, ◌+◌, ◌-◌, ◌≤◌, ◌≡◌, ◌==◌, true, false, ltb, length,
  take, List, [], ◌∷◌, ◌++◌, Option, none, some, Bool-cases, append_assoc, append-nil, arith, refl,
  ap, sym, if◌then◌else◌,
}
use dimq.Subs.{Topics, same_text}
use dimq.Subs.Tokens.{
  strtok_hier, count_rounds, count, fill, share_text, shift_down, share, topic_tokenise,
}
use dimq.Topic.Checked.{split}
use dimq.Packet.{Heap}
use dimq.Result.{Result, ok, err, fault, protocol}

-- The levels of a text, all of them
abbrev pub levels : List ℕ → Topics
levels s = (split s).0 ∷ (split s).1

-- The levels of what is left
abbrev left : Option (List ℕ) → Topics
left none = []
left (some s) = levels s

abbrev grow : ℕ → Topics → Topics
grow c [] = []
grow c (l ∷ ls) = (c ∷ l) ∷ ls

levels-strtok_hier : (s : List ℕ) → levels s ≡ (strtok_hier s).0 ∷ left (strtok_hier s).1
unfolding strtok_hier split
levels-strtok_hier [] = refl
levels-strtok_hier (c ∷ s) = elim (Bool-cases (c == b'/')) [
  | inl t ↦ rw t refl
  | inr t ↦ rw t (ap (grow c) (levels-strtok_hier s))
]

-- How long the text is that is left: the rounds that the loop still needs.
abbrev need : Option (List ℕ) → ℕ
need none = 0
need (some s) = length s + 1

need-strtok_hier : (s : List ℕ) → need (strtok_hier s).1 ≤ length s
unfolding strtok_hier
need-strtok_hier [] = omega arith
need-strtok_hier (c ∷ s) = elim (Bool-cases (c == b'/')) [
  | inl t ↦ rw t (omega arith)
  | inr t ↦ rw t (let rest = need-strtok_hier s in omega arith)
]

length-append : (ts : Topics) (t : List ℕ) → length (ts ++ t ∷ []) ≡ length ts + 1
length-append [] t = omega arith
length-append (u ∷ ts) t = let more = length-append ts t in omega (arith, more)

fill_one :
    (rounds size : ℕ) (s : List ℕ) (topics : Topics)
    → ltb (length topics) size ≡ true
    → fill (suc rounds) size (some s) topics
      ≡ fill rounds size (strtok_hier s).1 (topics ++ (strtok_hier s).0 ∷ [])
unfolding fill
fill_one rounds size s topics room = rw (fill, room) refl

fill_levels :
    (rounds size : ℕ) (save : Option (List ℕ)) (topics : Topics)
    → need save ≤ rounds
    → length topics + length (left save) ≤ size
    → fill rounds size save topics ≡ ok (topics ++ left save)
unfolding fill
fill_levels zero size none topics n fits = ap ok (sym (append-nil topics))
fill_levels (suc rounds) size none topics n fits = ap ok (sym (append-nil topics))
fill_levels zero size (some s) topics n fits = absurd (omega arith)
fill_levels (suc rounds) size (some s) topics n fits =
    let here = levels-strtok_hier s in
    let token = (strtok_hier s).0 in
    let save = (strtok_hier s).1 in
    let one = ap (λ ls. length ls) here in
    let longer = length-append topics token in
    let room : ltb (length topics) size ≡ true = ground arith in
    let less = need-strtok_hier s in
    let next = fill_levels rounds size save (topics ++ token ∷ []) (omega arith) (omega arith) in
    fill_one rounds size s topics room
    ∙ next
    ∙ ap ok (append_assoc topics (token ∷ []) (left save) ∙ ap (λ ls. topics ++ ls) (sym here))

count_levels : (s : List ℕ) → length (split s).1 ≡ count_rounds s
unfolding split count_rounds
count_levels [] = refl
count_levels (c ∷ s) = elim (Bool-cases (c == b'/')) [
  | inl t ↦ rw t (ap suc (count_levels s))
  | inr t ↦ rw t (count_levels s)
]

shift_down-take :
    (k : ℕ) (x : List ℕ) (ts : Topics)
    → length ts ≡ k
    → (rest : Topics) × (shift_down k (x ∷ ts) ≡ ok rest) × (take k rest ≡ ts)
unfolding shift_down
shift_down-take zero x [] e = (x ∷ [], refl, refl)
shift_down-take zero x (t ∷ ts) e = absurd (omega arith)
shift_down-take (suc k) x [] e = absurd (omega arith)
shift_down-take (suc k) x (t ∷ ts) e =
    let (rest, moved, same) = shift_down-take k t ts (omega arith) in
    (t ∷ rest, rw moved refl, ap (◌∷◌ t) same)

-- What a shared subscription is: `$share`, the name of the group, the levels of the filter.
abbrev pub unshared : Topics → Result (Topics × Option (List ℕ))
unshared [] = fault
unshared (t ∷ []) = if same_text t share_text then err protocol else ok (t ∷ [], none)
unshared (t ∷ name ∷ topics) =
    if same_text t share_text then ok ([] ∷ topics, some name) else ok (t ∷ name ∷ topics, none)

abbrev first : Topics → List ℕ
first [] = []
first (t ∷ ts) = t

share-unshared :
    (n : ℕ) (ts : Topics)
    → (same_text (first ts) share_text ≡ true → n ≡ length ts)
    → share n ts ≡ unshared ts
unfolding share
share-unshared n [] e = refl
share-unshared n (t ∷ []) e = elim (Bool-cases (same_text t share_text)) [
  | inl s ↦ let size = e s in let small : ltb n 2 ≡ true = ground arith in rw (s, small) refl
  | inr s ↦ rw s refl
]
share-unshared n (t ∷ name ∷ ts) e = elim (Bool-cases (same_text t share_text)) [
  | inl s ↦
      let size = e s in
      let big : ltb n 2 ≡ false = ground arith in
      let (rest, moved, same) = shift_down-take (n - 2) name ts (omega arith) in
      rw (s, big, moved, same) refl
  | inr s ↦ rw s refl
]

-- The levels of a filter or a name in the tree: one more, empty, in front, unless it begins with `$`.
abbrev pub tree_levels : List ℕ → Topics
tree_levels [] = []
tree_levels (c ∷ str) = if c == b'$' then levels (c ∷ str) else [] ∷ levels (c ∷ str)

dollar_first : (c : ℕ) (str : List ℕ) → same_text (split (c ∷ str)).0 share_text ≡ true → c ≡ b'$'
unfolding split
dollar_first c str e = elim (Bool-cases (c == b'/')) [
  | inl t ↦ let bad : false ≡ true = rw t at e in absurd cc
  | inr t ↦
      let same : (c == b'$' && same_text (split str).0 (b's' ∷ b'h' ∷ b'a' ∷ b'r' ∷ b'e' ∷ []))
          ≡ true =
        rw t at e in
      ground arith
]

-- The array is one entry larger than what is written.
fits : (c : ℕ) (str : List ℕ) (n : ℕ) → n ≤ 1 → n + length (levels (c ∷ str)) ≤ count (c ∷ str) + 3
unfolding split
fits c str n small = let rounds = count_levels str in ground arith

few :
    (c : ℕ) (str : List ℕ) (ts : Topics)
    → length ts ≤ 1 + length (levels (c ∷ str))
    → ltb (length ts) (count (c ∷ str) + 3) ≡ true
unfolding split
few c str ts small = let rounds = count_levels str in ground arith

counted_lem : (c : ℕ) (str : List ℕ) → c ≡ b'$' → count (c ∷ str) ≡ length (levels (c ∷ str))
unfolding split
counted_lem c str e = let rounds = count_levels str in rw e (omega arith)

-- If the allocator gives both pieces of memory, `sub__topic_tokenise` of a text that is not empty
-- writes inside of its array and leaves room for the NULL at its end; it gives the levels of the text,
-- behind an empty one unless the text begins with `$`; of a shared subscription the name of the group and
-- the levels behind it, and dimq_ERR_PROTOCOL for `$share` alone.
pub topic_tokenise_levels :
    (c : ℕ) (str : List ℕ) (heap : Heap)
    → heap 0 ≡ true
    → heap 1 ≡ true
    → topic_tokenise (c ∷ str) heap ≡ unshared (tree_levels (c ∷ str))
unfolding topic_tokenise
topic_tokenise_levels c str heap a b =
    let enough : need (some (c ∷ str)) ≤ length (c ∷ str) + 1 = omega arith in
    elim (Bool-cases (c == b'$')) [
      | inl t ↦
          let filled =
            fill_levels (length (c ∷ str) + 1) (count (c ∷ str) + 3) (some (c ∷ str)) [] enough
              (fits c str 0 (omega arith)) in
          let room : ltb (length (levels (c ∷ str))) (count (c ∷ str) + 3) ≡ true =
            few c str (levels (c ∷ str)) (omega arith) in
          let counted : count (c ∷ str) ≡ length (levels (c ∷ str)) =
            counted_lem c str ((==_iff c b'$').0 t) in
          rw (a, b, t, filled, room)
            (share-unshared (count (c ∷ str)) (levels (c ∷ str)) (λ _. counted))
      | inr t ↦
          let filled =
            fill_levels (length (c ∷ str) + 1) (count (c ∷ str) + 3) (some (c ∷ str)) ([] ∷ [])
              enough (fits c str 1 (omega arith)) in
          let room : ltb (length ([] ∷ levels (c ∷ str))) (count (c ∷ str) + 3) ≡ true =
            few c str ([] ∷ levels (c ∷ str)) (omega arith) in
          rw (a, b, t, filled, room)
            (share-unshared (count (c ∷ str)) ([] ∷ levels (c ∷ str)) (λ e. cc))
    ]
