-- ===== src/Utf8/Complete.antt =====
-- Every encoding of allowed code points passes the check.
use dimq.Prelude.{
  ℕ, zero, suc, ◌-◌, ◌≤◌, ◌<◌, ◌≡◌, refl, List, [], ◌∷◌, ◌++◌, length, some, arith, length-append,
  append_assoc,
}
use dimq.Result.{ok, success}
use dimq.Utf8.{lead, continuation, check_codepoint, character, characters, validate_utf8}
use dimq.Utf8.Spec.{IsAllowed, encode, encode_all, AllAllowed}

pub character-encode :
    (c : ℕ) (rest : List ℕ) (n : ℕ)
    → IsAllowed c
    → length (encode c) ≤ n
    → character (encode c ++ rest) n ≡ ok (length (encode c), rest)
unfolding encode character lead continuation check_codepoint
character-encode c rest n h k = ground arith

pub length-encode_pos : (c : ℕ) → 0 < length (encode c)
unfolding encode
length-encode_pos c = ground arith

characters-encode_all :
    (cs rest : List ℕ) (rounds n : ℕ)
    → AllAllowed cs
    → n ≡ length (encode_all cs)
    → n ≤ rounds
    → characters rounds (encode_all cs ++ rest) n ≡ success
unfolding encode_all characters
characters-encode_all [] rest rounds zero h e k = refl
characters-encode_all [] rest rounds (suc n) h e k = absurd (omega arith)
characters-encode_all (c ∷ cs) rest rounds zero h e k =
    absurd (omega (arith, length-encode_pos c, length-append (encode c) (encode_all cs)))
characters-encode_all (c ∷ cs) rest zero (suc n) h e k = absurd (omega arith)
characters-encode_all (c ∷ cs) rest (suc rounds) (suc n) h e k =
    let len = length-append (encode c) (encode_all cs) in
    rw (append_assoc (encode c) (encode_all cs) rest) (
      rw (character-encode c (encode_all cs ++ rest) (suc n) h.0 (omega (arith, len))) (
        characters-encode_all cs rest rounds (suc n - length (encode c)) h.1 (omega (arith, len))
          (omega (arith, len, length-encode_pos c))))

-- Text that encodes allowed code points passes the check, whatever follows it in the buffer.
pub validate_utf8-encode_all :
    (cs rest : List ℕ)
    → AllAllowed cs
    → length (encode_all cs) ≤ 65536
    → validate_utf8 (some (encode_all cs ++ rest)) (length (encode_all cs)) ≡ success
unfolding validate_utf8
validate_utf8-encode_all cs rest h k =
    ground (arith, characters-encode_all cs rest (length (encode_all cs)) (length (encode_all cs)))
