-- ===== src/Packet/Laws.antt =====
-- Parsing undoes formatting, and a variable byte integer has one form only.
use dimq.Utf8.Decides.{Encodes→success}
use dimq.Utf8.Sound.{Encodes, AllBytes}
use native.Mathlib.Decide.{dec_lt}
use dimq.Prelude.{
  length-append, append_assoc, true, arith, ap, ◌++◌, ℕ, suc, ◌≤◌, ◌<◌, ◌^◌, ◌≡◌, List, [], ◌∷◌,
  take, drop, length, refl,
}
use dimq.Packet.Format.{
  parse_text, parse_string, varint_digits, format_varint, format_uint32, format_binary,
  parse_varint, parse_uint32, parse_body, parse_binary, parse_uint16, format_uint16,
}
use dimq.Result.{ok}
use dimq.Packet.{Heap}

pub parse_uint16-format :
    (w : ℕ) (bs : List ℕ) (h : Heap)
    → w < 2 ^ 16
    → parse_uint16 (format_uint16 w ++ bs) h ≡ ok (w, bs, h)
unfolding parse_uint16 format_uint16
parse_uint16-format w bs h k = ground arith

pub parse_uint32-format :
    (w : ℕ) (bs : List ℕ) (h : Heap)
    → w < 2 ^ 32
    → parse_uint32 (format_uint32 w ++ bs) h ≡ ok (w, bs, h)
unfolding parse_uint32 format_uint32
parse_uint32-format w bs h k = ground arith

pub parse_varint-format :
    (w : ℕ) (bs : List ℕ) (h : Heap)
    → w < 2 ^ 28
    → parse_varint (format_varint w ++ bs) h ≡ ok ((w, length (format_varint w)), bs, h)
unfolding parse_varint format_varint varint_digits
parse_varint-format w bs h k = ground arith

-- The parser after one, two or three bytes that have the top bit set.
abbrev IsShortest : List ℕ → Heap → Heap → ℕ → ℕ → List ℕ → Type 0
IsShortest bs g h w n rest =
    (w < 2 ^ 28) × (bs ≡ format_varint w ++ rest) × (n ≡ length (format_varint w)) × (g ≡ h)

module _ (g h : Heap) (w n : ℕ) (rest : List ℕ) where
  canonical1 :
      (x : ℕ) (bs : List ℕ)
      → x < 128
      → parse_varint (x ∷ bs) g ≡ ok ((w, n), rest, h)
      → IsShortest (x ∷ bs) g h w n rest
  unfolding parse_varint format_varint varint_digits
  canonical1 x bs lx e = ground arith

  canonical2 :
      (x y : ℕ) (bs : List ℕ)
      → 128 ≤ x
      → x < 256
      → y < 128
      → parse_varint (x ∷ y ∷ bs) g ≡ ok ((w, n), rest, h)
      → IsShortest (x ∷ y ∷ bs) g h w n rest
  unfolding parse_varint format_varint varint_digits
  canonical2 x y bs gx lx ly e = ground arith

  canonical3 :
      (x y z : ℕ) (bs : List ℕ)
      → 128 ≤ x
      → x < 256
      → 128 ≤ y
      → y < 256
      → z < 128
      → parse_varint (x ∷ y ∷ z ∷ bs) g ≡ ok ((w, n), rest, h)
      → IsShortest (x ∷ y ∷ z ∷ bs) g h w n rest
  unfolding parse_varint format_varint varint_digits
  canonical3 x y z bs gx lx gy ly lz e = ground arith

  canonical4 :
      (x y z t : ℕ) (bs : List ℕ)
      → 128 ≤ x
      → x < 256
      → 128 ≤ y
      → y < 256
      → 128 ≤ z
      → z < 256
      → t < 256
      → parse_varint (x ∷ y ∷ z ∷ t ∷ bs) g ≡ ok ((w, n), rest, h)
      → IsShortest (x ∷ y ∷ z ∷ t ∷ bs) g h w n rest
  unfolding parse_varint format_varint varint_digits
  canonical4 x y z t bs gx lx gy ly gz lz lt e = ground arith

  -- With the top bit set on the last byte there is no answer.
  cut1 : (x : ℕ) → 128 ≤ x → x < 256 → parse_varint (x ∷ []) g ≡ ok ((w, n), rest, h) → ⊥
  unfolding parse_varint varint_digits
  cut1 x gx lx e = ground arith

  cut2 :
      (x y : ℕ)
      → 128 ≤ x
      → x < 256
      → 128 ≤ y
      → y < 256
      → parse_varint (x ∷ y ∷ []) g ≡ ok ((w, n), rest, h)
      → ⊥
  unfolding parse_varint varint_digits
  cut2 x y gx lx gy ly e = ground arith

  cut3 :
      (x y z : ℕ)
      → 128 ≤ x
      → x < 256
      → 128 ≤ y
      → y < 256
      → 128 ≤ z
      → z < 256
      → parse_varint (x ∷ y ∷ z ∷ []) g ≡ ok ((w, n), rest, h)
      → ⊥
  unfolding parse_varint varint_digits
  cut3 x y z gx lx gy ly gz lz e = ground arith

  canonical_tail3 :
      (x y z : ℕ) (bs : List ℕ)
      → 128 ≤ x
      → x < 256
      → 128 ≤ y
      → y < 256
      → AllBytes (z ∷ bs)
      → parse_varint (x ∷ y ∷ z ∷ bs) g ≡ ok ((w, n), rest, h)
      → IsShortest (x ∷ y ∷ z ∷ bs) g h w n rest
  canonical_tail3 x y z bs gx lx gy ly b e = elim (dec_lt z 128) [
    | yes lz ↦ canonical3 x y z bs gx lx gy ly lz e
    | no gz ↦ more bs (omega arith) b.1 e
  ]
    where
      more :
          (us : List ℕ)
          → 128 ≤ z
          → AllBytes us
          → parse_varint (x ∷ y ∷ z ∷ us) g ≡ ok ((w, n), rest, h)
          → IsShortest (x ∷ y ∷ z ∷ us) g h w n rest
      more [] gz c r = absurd (cut3 x y z gx lx gy ly gz b.0 r)
      more (t ∷ us) gz c r = canonical4 x y z t us gx lx gy ly gz b.0 c.0 r

  canonical_tail2 :
      (x y : ℕ) (bs : List ℕ)
      → 128 ≤ x
      → x < 256
      → AllBytes (y ∷ bs)
      → parse_varint (x ∷ y ∷ bs) g ≡ ok ((w, n), rest, h)
      → IsShortest (x ∷ y ∷ bs) g h w n rest
  canonical_tail2 x y bs gx lx b e = elim (dec_lt y 128) [
    | yes ly ↦ canonical2 x y bs gx lx ly e
    | no gy ↦ more bs (omega arith) b.1 e
  ]
    where
      more :
          (us : List ℕ)
          → 128 ≤ y
          → AllBytes us
          → parse_varint (x ∷ y ∷ us) g ≡ ok ((w, n), rest, h)
          → IsShortest (x ∷ y ∷ us) g h w n rest
      more [] gy c r = absurd (cut2 x y gx lx gy b.0 r)
      more (z ∷ us) gy c r = canonical_tail3 x y z us gx lx gy b.0 c r

  -- What is parsed as a variable byte integer is its one shortest form, and it fits 28 bits.
  pub parse_varint_canonical :
      (bs : List ℕ)
      → AllBytes bs
      → parse_varint bs g ≡ ok ((w, n), rest, h)
      → IsShortest bs g h w n rest
  parse_varint_canonical [] b e = unfold parse_varint varint_digits in cc
  parse_varint_canonical (x ∷ bs) b e = elim (dec_lt x 128) [
    | yes lx ↦ canonical1 x bs lx e
    | no gx ↦ more bs (omega arith) b.1 e
  ]
    where
      more :
          (us : List ℕ)
          → 128 ≤ x
          → AllBytes us
          → parse_varint (x ∷ us) g ≡ ok ((w, n), rest, h)
          → IsShortest (x ∷ us) g h w n rest
      more [] gx c r = absurd (cut1 x gx b.0 r)
      more (y ∷ us) gx c r = canonical_tail2 x y us gx b.0 c r

pub take-append : (xs ys : List ℕ) → take (length xs) (xs ++ ys) ≡ xs
take-append [] ys = refl
take-append (x ∷ xs) ys = ap (λ r. x ∷ r) (take-append xs ys)

pub drop-append : (xs ys : List ℕ) → drop (length xs) (xs ++ ys) ≡ ys
drop-append [] ys = refl
drop-append (x ∷ xs) ys = drop-append xs ys

-- What the allocator answers after the copy of a field: an empty field asks for none.
abbrev pub after_copy : List ℕ → Heap → Heap
after_copy [] h = h
after_copy (x ∷ xs) h = λ i. h (suc i)

pub parse_body-append :
    (str bs : List ℕ) (h : Heap)
    → h 0 ≡ true
    → parse_body (length str) (str ++ bs) h ≡ ok (str, bs, after_copy str h)
unfolding parse_body
parse_body-append [] bs h k = refl
parse_body-append (x ∷ xs) bs h k =
    ground (arith, length-append xs bs, take-append xs bs, drop-append xs bs)

pub parse_binary-format :
    (str bs : List ℕ) (h : Heap)
    → length str < 2 ^ 16
    → h 0 ≡ true
    → parse_binary (format_binary str ++ bs) h ≡ ok (str, bs, after_copy str h)
unfolding parse_binary format_binary
parse_binary-format str bs h l k =
    rw (append_assoc (format_uint16 (length str)) str bs)
      (rw (parse_uint16-format (length str) (str ++ bs) h l) (parse_body-append str bs h k))

parse_text-Encodes :
    (str bs : List ℕ) (h : Heap)
    → length str < 2 ^ 16
    → Encodes str
    → parse_text str bs h ≡ ok (str, bs, h)
unfolding parse_text
parse_text-Encodes str bs h l e = rw (Encodes→success str (0 ∷ []) (omega arith) e) (ground arith)

pub parse_string-format :
    (str bs : List ℕ) (h : Heap)
    → length str < 2 ^ 16
    → Encodes str
    → h 0 ≡ true
    → parse_string (format_binary str ++ bs) h ≡ ok (str, bs, after_copy str h)
unfolding parse_string
parse_string-format str bs h l e k =
    rw (parse_binary-format str bs h l k) (parse_text-Encodes str bs (after_copy str h) l e)
