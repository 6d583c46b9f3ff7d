-- ===== src/Utf8/Decides.antt =====
-- The check of UTF-8 text always answers, and the answer is right.
use dimq.Utf8.Sound.{
  validate_utf8-Encodes, Encodes, AllBytes-append, AllBytes, character-Read, prefix_before_zero,
  encode-NoZero,
}
use dimq.Prelude.{
  inr, inl, sym, some, subst, length-append, ◌∙◌, ◌-◌, ◌==◌, ◌%◌, ap, ◌+◌, not, ◌≤◌, ◌*◌, ℕ, zero,
  suc, ◌≡◌, ◌⊎◌, List, [], ◌∷◌, ◌++◌, length, arith, refl, Bool, true, false,
}
use dimq.Utf8.Complete.{validate_utf8-encode_all, length-encode_pos}
use dimq.Result.{Status, ◌>>=◌, guard, Result, ok, err, success, malformed_utf8, fault}
use dimq.Utf8.{lead, continuation, check_codepoint, character, characters, validate_utf8}
use dimq.Utf8.Spec.{encode}

-- A value, or the one error that the check of a text knows.
abbrev answers : {A : Type 0} → Result A → Bool
answers (ok a) = true
answers (err malformed_utf8) = true
answers (err _) = false
answers fault = false

answers-bind :
    {A B : Type 0} (m : Result A) (f : A → Result B)
    → answers m ≡ true
    → ((a : A) → m ≡ ok a → answers (f a) ≡ true)
    → answers (m >>= f) ≡ true
answers-bind (ok a) f h k = k a refl
answers-bind (err malformed_utf8) f h k = h
answers-bind (err _) f h k = h
answers-bind fault f h k = h

answers-continuation :
    (k codepoint : ℕ) (s extra : List ℕ)
    → answers (continuation k codepoint (s ++ 0 ∷ extra)) ≡ true
unfolding continuation
answers-continuation zero codepoint s extra = refl
answers-continuation (suc k) codepoint [] extra = refl
answers-continuation (suc k) codepoint (c ∷ s) extra =
    ground (arith, answers-continuation k (codepoint * 64 + c % 64) s extra)

answers-lead : (c : ℕ) → answers (lead c) ≡ true
unfolding lead
answers-lead c = ground arith

answers-check_codepoint : (k c : ℕ) → answers (check_codepoint k c) ≡ true
unfolding check_codepoint
answers-check_codepoint k c = ground arith

answers-guard : (b : Bool) → answers (guard b malformed_utf8) ≡ true
answers-guard true = refl
answers-guard false = refl

answers-character : (c n : ℕ) (s extra : List ℕ) → answers (character (c ∷ s ++ 0 ∷ extra) n) ≡ true
unfolding character
answers-character c n s extra = answers-bind (lead c) _ (answers-lead c) λ (k, first) _.
    answers-bind (guard (not (n + 1 == k)) malformed_utf8) _ (answers-guard _) λ _ _.
      answers-bind (continuation (k - 1) first (s ++ 0 ∷ extra)) _
        (answers-continuation (k - 1) first s extra)
        λ (codepoint, rest) _.
          answers-bind (check_codepoint k codepoint) _ (answers-check_codepoint k codepoint)
            λ _ _. refl

answers-characters :
    (rounds n : ℕ) (s extra : List ℕ)
    → AllBytes (s ++ 0 ∷ extra)
    → n ≡ length s
    → n ≤ rounds
    → answers (characters rounds (s ++ 0 ∷ extra) n) ≡ true
unfolding characters
answers-characters rounds zero s extra hb e h = refl
answers-characters zero (suc n) s extra hb e h = absurd (omega arith)
answers-characters (suc rounds) (suc n) [] extra hb e h = absurd (omega arith)
answers-characters (suc rounds) (suc n) (c ∷ s) extra hb e h =
    answers-bind (character (c ∷ s ++ 0 ∷ extra) (suc n)) _ (answers-character c (suc n) s extra)
      λ (k, rest) read.
        let r = character-Read (suc n) k rest (c ∷ s ++ 0 ∷ extra) hb read in
        let xs = encode r.code in
        let (s', p, q) =
          prefix_before_zero xs (c ∷ s) rest extra (encode-NoZero r.code r.allowed) r.taken in
        let len : length (c ∷ s) ≡ length xs + length s' = ap length p ∙ length-append xs s' in
        subst (λ u. answers (characters rounds u (suc n - k)) ≡ true) (sym q)
          (answers-characters rounds (suc n - k) s' extra
            (subst AllBytes q (AllBytes-append xs rest (subst AllBytes r.taken hb)))
            (omega (arith, len, r.size)) (omega (arith, len, r.size, length-encode_pos r.code)))

answers-validate_utf8 :
    (s extra : List ℕ)
    → AllBytes (s ++ 0 ∷ extra)
    → length s ≤ 65536
    → answers (validate_utf8 (some (s ++ 0 ∷ extra)) (length s)) ≡ true
unfolding validate_utf8
answers-validate_utf8 s extra hb h =
    ground (arith, answers-characters (length s) (length s) s extra hb refl (omega arith))

-- Every text that encodes allowed code points passes, whatever follows it in the buffer.
pub Encodes→success :
    (s rest : List ℕ)
    → length s ≤ 65536
    → Encodes s
    → validate_utf8 (some (s ++ rest)) (length s) ≡ success
Encodes→success s rest h (cs, a, e) =
    subst (λ u. validate_utf8 (some (u ++ rest)) (length u) ≡ success) (sym e)
      (validate_utf8-encode_all cs rest a (subst (λ u. length u ≤ 65536) e h))

Status-cases : (r : Status) → answers r ≡ true → (r ≡ success) ⊎ (r ≡ err malformed_utf8)
Status-cases (ok tt) h = inl refl
Status-cases (err malformed_utf8) h = inr refl
Status-cases (err _) h = cc
Status-cases fault h = cc

-- On NUL-terminated text of at most 65536 bytes the check answers: success exactly for the texts
-- that encode allowed code points, and `dimq_ERR_MALFORMED_UTF8` for all others. It reads nothing
-- behind the buffer, whose last byte that counts is the terminator.
pub validate_utf8_decides :
    (s extra : List ℕ)
    → AllBytes (s ++ 0 ∷ extra)
    → length s ≤ 65536
    → (validate_utf8 (some (s ++ 0 ∷ extra)) (length s) ≡ success) × Encodes s
      ⊎ (validate_utf8 (some (s ++ 0 ∷ extra)) (length s) ≡ err malformed_utf8) × ¬ Encodes s
validate_utf8_decides s extra hb h = elim (Status-cases _ (answers-validate_utf8 s extra hb h)) [
  | inl e ↦ inl (e, (validate_utf8-Encodes s extra hb e).1)
  | inr e ↦ inr (e, λ w. ok-ne-err (sym (Encodes→success s (0 ∷ extra) h w) ∙ e))
]
  where
    ok-ne-err : ◌≡◌ {A = Status} success (err malformed_utf8) → ⊥
    ok-ne-err e = cc
