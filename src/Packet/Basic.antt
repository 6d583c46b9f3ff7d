-- ===== src/Packet/Basic.antt =====
-- The steps that every reader is made of, against their parsers.
use dimq.Prelude.{
  false, true, leb, ◌∙◌, zero, sym, lt→ltb, ap, ◌⊎◌, length-drop, some, length-take, inr, [], ◌∷◌,
  inl, get_elem?, arith, ℕ, suc, ◌+◌, ◌-◌, ◌≤◌, ◌<◌, ◌^◌, ◌≡◌, List, take, drop, length, refl, ltb,
  if◌then◌else◌,
}
use dimq.Packet.Parse.{no_claim, IsReadable, Parse, Refines, unread}
use native.Mathlib.Numerals.{add-one}
use native.Mathlib.Decide.{dec_lt}
use dimq.Result.{ok, err, fault, malformed_packet, nomem}
use dimq.Packet.{Packet, need, next, copy_out, malloc}

abbrev pub parse_need : ℕ → Parse (Unit {0})
parse_need n bs h = if ltb (length bs) n then err malformed_packet else ok (tt, bs, h)

abbrev pub parse_next : Parse ℕ
parse_next [] h = fault
parse_next (b ∷ bs) h = ok (b, bs, h)

abbrev pub parse_copy : ℕ → Parse (List ℕ)
parse_copy n bs h = if ltb (length bs) n then fault else ok (take n bs, drop n bs, h)

abbrev pub parse_malloc : Parse (Unit {0})
parse_malloc bs h = if h 0 then ok (tt, bs, λ i. h (suc i)) else err nomem

pub length-unread : (p : Packet) → IsReadable p → length (unread p) ≡ p.remaining_length - p.pos
unfolding unread
length-unread p r = omega (
  arith,
  length-take {0} (p.remaining_length - p.pos) (drop p.pos p.payload),
  length-drop {0} p.pos p.payload,
)

pub need-Refines : (n : ℕ) → n < 2 ^ 31 → Refines (need n) (parse_need n)
unfolding need
need-Refines n h p r = ground (arith, length-unread p r)

pub malloc-Refines : Refines malloc parse_malloc
unfolding malloc unread
malloc-Refines p r = ground arith

drop-nil : (n : ℕ) → drop {A = ℕ} n [] ≡ []
drop-nil zero = refl
drop-nil (suc n) = refl

take-nil : (n : ℕ) → take {A = ℕ} n [] ≡ []
take-nil zero = refl
take-nil (suc n) = refl

get_elem?-lt :
    (xs : List ℕ) (i : ℕ)
    → i < length xs
    → (b : ℕ) × (get_elem? xs i ≡ some b) × (drop i xs ≡ b ∷ drop (suc i) xs)
get_elem?-lt [] i h = absurd (omega arith)
get_elem?-lt (x ∷ xs) zero h = (x, refl, refl)
get_elem?-lt (x ∷ xs) (suc i) h = get_elem?-lt xs i (omega arith)

pub next-cases :
    (p : Packet)
    → IsReadable p
    → (unread p ≡ []) × (p.remaining_length ≤ p.pos)
      ⊎ ((b : ℕ) × (get_elem? p.payload p.pos ≡ some b)
          × (unread p ≡ b ∷ unread (record p { pos = p.pos + 1 }))
          × (p.pos < p.remaining_length))
unfolding unread
next-cases p r = elim (dec_lt p.pos p.remaining_length) [
  | yes h ↦
      let (b, e, d) = get_elem?-lt p.payload p.pos (omega arith) in
      let s : p.remaining_length - p.pos ≡ suc (p.remaining_length - (p.pos + 1)) = omega arith in
      inr (b, e, rw (s, d, add-one) refl, h)
  | no h ↦ let s : p.remaining_length - p.pos ≡ 0 = omega arith in inl (rw s refl, omega arith)
]

pub next-Refines : Refines next parse_next
unfolding next
next-Refines p r = elim (next-cases p r) [
  | inl (e, _) ↦ rw e (no_claim p (next p))
  | inr (b, e, u, h) ↦ rw (u, e, next) (refl, refl, refl, omega arith, ground arith)
]

pub drop-drop : (m n : ℕ) (xs : List ℕ) → drop m (drop n xs) ≡ drop (n + m) xs
drop-drop m zero xs = let e : 0 + m ≡ m = omega arith in rw e refl
drop-drop m (suc n) [] = drop-nil m ∙ sym (drop-nil (suc n + m))
drop-drop m (suc n) (x ∷ xs) =
    let e : suc n + m ≡ suc (n + m) = omega arith in rw e (drop-drop m n xs)

take-take : (m n : ℕ) (xs : List ℕ) → m ≤ n → take m (take n xs) ≡ take m xs
take-take zero n xs h = refl
take-take (suc m) zero xs h = absurd (omega arith)
take-take (suc m) (suc n) [] h = refl
take-take (suc m) (suc n) (x ∷ xs) h = ap (λ r. x ∷ r) (take-take m n xs (omega arith))

pub drop-take : (m n : ℕ) (xs : List ℕ) → m ≤ n → drop m (take n xs) ≡ take (n - m) (drop m xs)
drop-take zero n xs h = let e : n - 0 ≡ n = omega arith in rw e refl
drop-take (suc m) zero xs h = absurd (omega arith)
drop-take (suc m) (suc n) [] h = sym (take-nil (suc n - suc m))
drop-take (suc m) (suc n) (x ∷ xs) h =
    let e : suc n - suc m ≡ n - m = omega arith in rw e (drop-take m n xs (omega arith))

-- Skipping `n` of the bytes that are left.
unread-skip :
    (p : Packet) (n : ℕ)
    → IsReadable p
    → n ≤ length (unread p)
    → (take n (drop p.pos p.payload) ≡ take n (unread p))
      × (unread (record p { pos = p.pos + n }) ≡ drop n (unread p))
unread-skip p n r h =
    let e = length-unread p r in
    let k : p.remaining_length - p.pos - n ≡ p.remaining_length - (p.pos + n) = omega arith in
    unfold unread in
    (
      sym (take-take n _ _ (omega arith)),
      sym (
          drop-take n (p.remaining_length - p.pos) (drop p.pos p.payload) (omega arith)
          ∙ rw (k, drop-drop n p.pos p.payload) refl),
    )

pub copy_out-Refines : (n : ℕ) → Refines (copy_out n) (parse_copy n)
unfolding copy_out
copy_out-Refines n p r = elim (dec_lt (length (unread p)) n) [
  | yes h ↦ rw (lt→ltb _ _ h) (no_claim p (copy_out n p))
  | no h ↦
      let (same, rest) = unread-skip p n r (omega arith) in
      let e = length-unread p r in
      let room : leb (p.pos + n) (length p.payload) ≡ true = ground arith in
      let enough : ltb (length (unread p)) n ≡ false = ground arith in
      rw (enough, room) (same, rest, refl, omega arith, ground arith)
]
