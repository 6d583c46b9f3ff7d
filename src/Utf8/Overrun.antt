-- ===== src/Utf8/Overrun.antt =====
-- What the check does with text that is not followed by a NUL byte. Its test for too little data,
-- `i == len-codelen+1`, is met by one length only: one byte short of the character.
use dimq.Prelude.{suc, zero, ℕ, ◌+◌, ◌<◌, ◌≡◌, List, ◌++◌, length, some, arith}
use dimq.Result.{success}
use dimq.Utf8.{lead, continuation, check_codepoint, character, characters, validate_utf8}
use dimq.Utf8.Spec.{IsAllowed, encode}

-- A character of three or four bytes passes as a text of `n` bytes where `n` is at least two bytes
-- short of the character: the check reads beyond the `n` bytes that it was given.
pub validate_utf8_overrun :
    (c n : ℕ) (rest : List ℕ)
    → IsAllowed c
    → 0 < n
    → n + 1 < length (encode c)
    → validate_utf8 (some (encode c ++ rest)) n ≡ success
unfolding validate_utf8 characters encode character lead continuation check_codepoint
validate_utf8_overrun c (suc zero) rest h lo hi = ground arith
validate_utf8_overrun c (suc (suc zero)) rest h lo hi = ground arith
validate_utf8_overrun c _ rest h lo hi = absurd (ground arith)
