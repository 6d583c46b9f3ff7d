-- ===== src/Utf8/Lead.antt =====
-- What the first byte of a character decides.
use dimq.Prelude.{ℕ, ◌-◌, ◌≤◌, ◌<◌, ◌≡◌, ◌⊎◌, arith}
use dimq.Result.{ok, err, malformed_utf8}
use dimq.Word.{IsByte}
use dimq.Utf8.{lead}

pub lead_cases :
    (a : ℕ)
    → IsByte a
    → (lead a ≡ err malformed_utf8)
      ⊎ (0 < a) × (a < 128) × (lead a ≡ ok (1, a))
      ⊎ (194 ≤ a) × (a < 224) × (lead a ≡ ok (2, a - 192))
      ⊎ (224 ≤ a) × (a < 240) × (lead a ≡ ok (3, a - 224))
      ⊎ (240 ≤ a) × (a ≤ 244) × (lead a ≡ ok (4, a - 240))
unfolding lead
lead_cases a h = ground arith
