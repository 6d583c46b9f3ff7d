-- ===== src/Utf8/Sound.antt =====
-- Text that passes the check encodes allowed code points, and the check reads no further than the
-- byte behind the text.
use dimq.Prelude.{
  subst, ◌∙◌, some, ap, zero, refl, length-append, suc, sym, ℕ, ◌+◌, ◌-◌, ◌*◌, ◌%◌, ◌≤◌, ◌<◌, ◌≡◌,
  List, [], ◌∷◌, ◌++◌, length, arith, inl, inr,
}
use dimq.Utf8.{validate_utf8, characters, lead, continuation, check_codepoint, character}
use dimq.Result.{>>=-success, success, ok}
use dimq.Utf8.Spec.{encode_all, AllAllowed, IsAllowed, encode}
use dimq.Word.{IsByte}
use dimq.Utf8.Lead.{lead_cases}

abbrev pub AllBytes : List ℕ → Type 0
AllBytes [] = Unit
AllBytes (b ∷ bs) = IsByte b × AllBytes bs

-- One round that succeeds has read one character, and takes just its encoding.
pub record Read (ustr : List ℕ) (n codelen : ℕ) (rest : List ℕ) : Type 0 where
  pub code : ℕ
  pub allowed : IsAllowed code
  pub taken : ustr ≡ encode code ++ rest
  pub size : length (encode code) ≡ codelen
  fits : n + 1 ≡ codelen → ⊥

module _ (n k : ℕ) (rest : List ℕ) where
  one_byte :
      (a : ℕ) (u : List ℕ)
      → 0 < a
      → a < 128
      → lead a ≡ ok (1, a)
      → character (a ∷ u) n ≡ ok (k, rest)
      → Read (a ∷ u) n k rest
  unfolding encode character continuation check_codepoint
  one_byte a u lo hi e h = record {
    code = a;
    allowed = ground arith;
    taken = ground arith;
    size = ground arith;
    fits = ground arith;
  }

  two_bytes :
      (a : ℕ) (u : List ℕ)
      → 194 ≤ a
      → a < 224
      → AllBytes u
      → lead a ≡ ok (2, a - 192)
      → character (a ∷ u) n ≡ ok (k, rest)
      → Read (a ∷ u) n k rest
  unfolding encode character continuation check_codepoint
  two_bytes a [] lo hi hb e h = ground arith
  two_bytes a (b ∷ u) lo hi hb e h = record {
    code = (a - 192) * 64 + b % 64;
    allowed = ground arith;
    taken = ground arith;
    size = ground arith;
    fits = ground arith;
  }

  three_bytes :
      (a : ℕ) (u : List ℕ)
      → 224 ≤ a
      → a < 240
      → AllBytes u
      → lead a ≡ ok (3, a - 224)
      → character (a ∷ u) n ≡ ok (k, rest)
      → Read (a ∷ u) n k rest
  unfolding encode character continuation check_codepoint
  three_bytes a [] lo hi hb e h = ground arith
  three_bytes a (b ∷ []) lo hi hb e h = ground arith
  three_bytes a (b ∷ c ∷ u) lo hi hb e h = record {
    code = ((a - 224) * 64 + b % 64) * 64 + c % 64;
    allowed = ground arith;
    taken = ground arith;
    size = ground arith;
    fits = ground arith;
  }

  four_bytes :
      (a : ℕ) (u : List ℕ)
      → 240 ≤ a
      → a ≤ 244
      → AllBytes u
      → lead a ≡ ok (4, a - 240)
      → character (a ∷ u) n ≡ ok (k, rest)
      → Read (a ∷ u) n k rest
  unfolding encode character continuation check_codepoint
  four_bytes a [] lo hi hb e h = ground arith
  four_bytes a (b ∷ []) lo hi hb e h = ground arith
  four_bytes a (b ∷ c ∷ []) lo hi hb e h = ground arith
  four_bytes a (b ∷ c ∷ d ∷ u) lo hi hb e h = record {
    code = (((a - 240) * 64 + b % 64) * 64 + c % 64) * 64 + d % 64;
    allowed = ground arith;
    taken = ground arith;
    size = ground arith;
    fits = ground arith;
  }

  pub character-Read : (u : List ℕ) → AllBytes u → character u n ≡ ok (k, rest) → Read u n k rest
  character-Read [] hb h = unfold character in cc
  character-Read (a ∷ u) hb h = elim (lead_cases a hb.0) [
    | inl e ↦ unfold character in cc
    | inr (inl (lo, hi, e)) ↦ one_byte a u lo hi e h
    | inr (inr (inl (lo, hi, e))) ↦ two_bytes a u lo hi hb.1 e h
    | inr (inr (inr (inl (lo, hi, e)))) ↦ three_bytes a u lo hi hb.1 e h
    | inr (inr (inr (inr (lo, hi, e)))) ↦ four_bytes a u lo hi hb.1 e h
  ]

abbrev pub NoZero : List ℕ → Type 0
NoZero [] = Unit
NoZero (b ∷ bs) = (0 < b) × NoZero bs

pub encode-NoZero : (c : ℕ) → IsAllowed c → NoZero (encode c)
unfolding encode
encode-NoZero c h = ground arith

-- A prefix with no zero byte stands before the first zero byte.
pub prefix_before_zero :
    (xs s rest extra : List ℕ)
    → NoZero xs
    → s ++ 0 ∷ extra ≡ xs ++ rest
    → (s' : List ℕ) × (s ≡ xs ++ s') × (rest ≡ s' ++ 0 ∷ extra)
prefix_before_zero [] s rest extra h e = (s, refl, sym e)
prefix_before_zero (x ∷ xs) [] rest extra h e = absurd (ground arith)
prefix_before_zero (x ∷ xs) (y ∷ s) rest extra h e =
    let (s', p, q) = prefix_before_zero xs s rest extra h.1 (ground arith) in (s', ground arith, q)

pub AllBytes-append : (xs ys : List ℕ) → AllBytes (xs ++ ys) → AllBytes ys
AllBytes-append [] ys h = h
AllBytes-append (x ∷ xs) ys h = AllBytes-append xs ys h.1

abbrev pub Encodes : List ℕ → Type 0
Encodes s = (cs : List ℕ) × AllAllowed cs × (s ≡ encode_all cs)

Encodes-cons : (c : ℕ) (s' : List ℕ) → IsAllowed c → Encodes s' → Encodes (encode c ++ s')
unfolding encode_all
Encodes-cons c s' h (cs, a, e) = (c ∷ cs, (h, a), rw e refl)

characters-Encodes :
    (rounds n : ℕ) (s extra : List ℕ)
    → AllBytes (s ++ 0 ∷ extra)
    → n ≡ length s
    → characters rounds (s ++ 0 ∷ extra) n ≡ success
    → Encodes s
unfolding characters
characters-Encodes rounds zero [] extra hb e h = ([], tt, unfold encode_all in refl)
characters-Encodes rounds zero (x ∷ s) extra hb e h = absurd (omega arith)
characters-Encodes zero (suc n) s extra hb e h = cc
characters-Encodes (suc rounds) (suc n) s extra hb e h =
    let ((k, rest), read, more) = >>=-success (character (s ++ 0 ∷ extra) (suc n)) _ h in
    let r = character-Read (suc n) k rest (s ++ 0 ∷ extra) hb read in
    let xs = encode r.code in
    let (s', p, q) = prefix_before_zero xs s rest extra (encode-NoZero r.code r.allowed) r.taken in
    let len : length s ≡ length xs + length s' = ap length p ∙ length-append xs s' in
    subst Encodes (sym p) (
      Encodes-cons r.code s' r.allowed (
        characters-Encodes rounds (suc n - k) s' extra
          (subst AllBytes q (AllBytes-append xs rest (subst AllBytes r.taken hb)))
          (omega (arith, len, r.size))
          (subst (λ u. characters rounds u (suc n - k) ≡ success) q more)))

-- A NUL-terminated text that passes the check encodes allowed code points.
pub validate_utf8-Encodes :
    (s extra : List ℕ)
    → AllBytes (s ++ 0 ∷ extra)
    → validate_utf8 (some (s ++ 0 ∷ extra)) (length s) ≡ success
    → (length s ≤ 65536) × Encodes s
unfolding validate_utf8
validate_utf8-Encodes s extra hb h =
    let (short, run) = passed in
    (short, characters-Encodes (length s) (length s) s extra hb refl run)
  where
    passed : (length s ≤ 65536) × (characters (length s) (s ++ 0 ∷ extra) (length s) ≡ success)
    passed = ground arith
