-- ===== src/Subs/Tokens.antt =====
-- `sub__topic_tokenise` of src/topic_tok.c. The array `*topics` is filled from the front and ends with
-- NULL: it is the list of what was written, and its size is kept beside it.
use dimq.Prelude.{
  ℕ, zero, suc, ◌+◌, ◌-◌, ◌==◌, not, ltb, length, take, List, [], ◌∷◌, ◌++◌, Option, none, some,
  if◌then◌else◌,
}
use dimq.Subs.{Topics, same_text}
use dimq.Packet.{Heap}
use dimq.Result.{Result, ok, err, fault, inval, nomem, protocol}

-- `strtok_hier`: the text in front of the first separator, and `*saveptr`, which is NULL at the end.
unfoldable pub strtok_hier : List ℕ → List ℕ × Option (List ℕ)
strtok_hier [] = ([], none)
strtok_hier (c ∷ str) =
    let (token, saveptr) = strtok_hier str in
    if c == b'/' then ([], some str) else (c ∷ token, saveptr)

-- The rounds of `while(saveptr)` after the first, where `strchr` looks in this text.
unfoldable pub count_rounds : List ℕ → ℕ
count_rounds [] = 0
count_rounds (c ∷ str) = let rest = count_rounds str in if c == b'/' then suc rest else rest

-- `count`: the first byte is not looked at.
abbrev pub count : List ℕ → ℕ
count [] = 1
count (c ∷ str) = suc (count_rounds str)

-- `(*topics)[topic_index] = token; topic_index++;`, in an array of `size`
abbrev pub write_token : ℕ → Topics → List ℕ → Result Topics
write_token size topics token =
    if ltb (length topics) size then ok (topics ++ token ∷ []) else fault

-- `while(token)`
unfoldable pub fill : ℕ → ℕ → Option (List ℕ) → Topics → Result Topics
fill rounds size none topics = ok topics
fill zero size (some str) topics = fault
fill (suc rounds) size (some str) topics = elim (write_token size topics (strtok_hier str).0) [
  | ok topics' ↦ fill rounds size (strtok_hier str).1 topics'
  | err e ↦ err e
  | fault ↦ fault
]

abbrev pub share_text : List ℕ
share_text = b'$' ∷ b's' ∷ b'h' ∷ b'a' ∷ b'r' ∷ b'e' ∷ []

-- `for(i=1; i<count-1; i++)`: the entries from `i` on, each taken from the one behind it.
unfoldable pub shift_down : ℕ → Topics → Result Topics
shift_down zero topics = ok topics
shift_down (suc rounds) [] = fault
shift_down (suc rounds) (x ∷ []) = fault
shift_down (suc rounds) (x ∷ y ∷ topics) = elim (shift_down rounds (y ∷ topics)) [
  | ok rest ↦ ok (y ∷ rest)
  | err e ↦ err e
  | fault ↦ fault
]

-- `*topics` up to its NULL, and `*sharename`
abbrev pub Tokens : Type 0
Tokens = Topics × Option (List ℕ)

-- From `if(!strcmp((*topics)[0], "$share"))` on
unfoldable pub share : ℕ → Topics → Result Tokens
share n [] = fault
share n (t ∷ []) =
    if not (same_text t share_text)
    then ok (t ∷ [], none)
    else if ltb n 2
    then err protocol
    else fault
share n (t ∷ name ∷ topics) =
    if not (same_text t share_text)
    then ok (t ∷ name ∷ topics, none)
    else if ltb n 2
    then err protocol
    else elim (shift_down (n - 2) (name ∷ topics)) [
      | ok rest ↦ ok ([] ∷ take (n - 2) rest, some name)
      | err e ↦ err e
      | fault ↦ fault
    ]

-- `sub__topic_tokenise`, with two calls of the allocator. The array ends with NULL if one entry is left.
unfoldable pub topic_tokenise : List ℕ → Heap → Result Tokens
topic_tokenise [] heap = err inval
topic_tokenise (c ∷ str) heap =
    let size = count (c ∷ str) + 3 in
    let front = if c == b'$' then [] else [] ∷ [] in
    if not (heap 0)
    then err nomem
    else if not (heap 1)
    then err nomem
    else elim (fill (length (c ∷ str) + 1) size (some (c ∷ str)) front) [
      | ok topics ↦ if ltb (length topics) size then share (count (c ∷ str)) topics else fault
      | err e ↦ err e
      | fault ↦ fault
    ]
