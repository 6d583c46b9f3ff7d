-- ===== src/Utf8/Spec.antt =====
-- What well-formed text is, with no reference to the check: the code points that are allowed, and
-- their encoding in UTF-8.
use dimq.Prelude.{ℕ, ◌+◌, ◌/◌, ◌%◌, ◌<◌, ◌≤◌, ◌≢◌, ltb, List, [], ◌∷◌, ◌++◌, if◌then◌else◌}

-- No control character, no surrogate and no non-character of Unicode.
pub record IsAllowed (c : ℕ) : Type 0 where
  pub not_c0 : 0x20 ≤ c
  pub not_c1 : 0x7F ≤ c → 0x9F < c
  pub not_surrogate : 0xD800 ≤ c → 0xDFFF < c
  pub not_arabic_block : 0xFDD0 ≤ c → 0xFDEF < c
  pub not_fffe : c % 0x10000 ≢ 0xFFFE
  pub not_ffff : c % 0x10000 ≢ 0xFFFF
  pub in_range : c < 0x110000

-- RFC 3629, section 3.
unfoldable pub encode : ℕ → List ℕ
encode c =
    if ltb c 0x80
    then c ∷ []
    else if ltb c 0x800
    then (0xC0 + c / 64) ∷ (0x80 + c % 64) ∷ []
    else if ltb c 0x10000
    then (0xE0 + c / 4096) ∷ (0x80 + c / 64 % 64) ∷ (0x80 + c % 64) ∷ []
    else (0xF0 + c / 262144) ∷ (0x80 + c / 4096 % 64) ∷ (0x80 + c / 64 % 64) ∷ (0x80 + c % 64) ∷ []

unfoldable pub encode_all : List ℕ → List ℕ
encode_all [] = []
encode_all (c ∷ cs) = encode c ++ encode_all cs

abbrev pub AllAllowed : List ℕ → Type 0
AllAllowed [] = Unit
AllAllowed (c ∷ cs) = IsAllowed c × AllAllowed cs
