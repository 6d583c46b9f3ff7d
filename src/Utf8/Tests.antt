-- ===== src/Utf8/Tests.antt =====
-- Runs of the check of UTF-8 text on concrete inputs.
use dimq.Utf8.Decides.{validate_utf8_decides}
use dimq.Prelude.{◌⊎◌, arith, ℕ, ◌++◌, List, ◌≡◌, refl, [], ◌∷◌, some}
use dimq.Utf8.Sound.{Encodes}
use dimq.Utf8.Overrun.{validate_utf8_overrun}
use dimq.Utf8.Spec.{encode}
use dimq.Result.{success, err, malformed_utf8}
use dimq.Utf8.{validate_utf8, characters, character, lead, continuation, check_codepoint}

euro : validate_utf8 (some (b'a' ∷ 0xE2 ∷ 0x82 ∷ 0xAC ∷ 0 ∷ [])) 4 ≡ success
unfolding validate_utf8 characters character lead continuation check_codepoint
euro = refl

cut : validate_utf8 (some (b'a' ∷ 0xE2 ∷ 0x82 ∷ 0 ∷ [])) 3 ≡ err malformed_utf8
unfolding validate_utf8 characters character lead continuation check_codepoint
cut = refl

-- "é" and its terminator
abbrev e_acute : List ℕ
e_acute = 0xC3 ∷ 0xA9 ∷ []

validate_utf8_decides_example :
    (validate_utf8 (some (e_acute ++ 0 ∷ [])) 2 ≡ success) × Encodes e_acute
    ⊎ (validate_utf8 (some (e_acute ++ 0 ∷ [])) 2 ≡ err malformed_utf8) × ¬ Encodes e_acute
validate_utf8_decides_example = validate_utf8_decides e_acute [] (omega arith) (omega arith)

validate_utf8_overrun_example : validate_utf8 (some (encode 0x20AC ++ b'!' ∷ [])) 1 ≡ success
unfolding encode
validate_utf8_overrun_example =
    validate_utf8_overrun 0x20AC 1 (b'!' ∷ []) (ground arith) (omega arith) (omega arith)
