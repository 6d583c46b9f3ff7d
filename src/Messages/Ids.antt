-- ===== src/Messages/Ids.antt =====
-- `dimq__mid_generate` of lib/util_dimq.c: the ids that one call after the other gives.
use dimq.Prelude.{◌∙◌, ℕ, zero, suc, ◌+◌, ◌%◌, ◌<◌, ◌≡◌, ◌≢◌, arith, ap}
use dimq.Messages.{mid_generate}

-- `last_mid` after a number of calls
unfoldable pub mid_after : ℕ → ℕ → ℕ
mid_after last zero = last
mid_after last (suc calls) = mid_generate (mid_after last calls)

next_mid : (x : ℕ) → mid_generate (x % 65535 + 1) ≡ (x + 1) % 65535 + 1
unfolding mid_generate
next_mid x = ground arith

first_mid : (last : ℕ) → last < 65536 → mid_generate last ≡ last % 65535 + 1
unfolding mid_generate
first_mid last l = ground arith

-- The ids go round from 1 to 65535.
pub mid_after_lem :
    (last calls : ℕ) → last < 65536 → mid_after last (suc calls) ≡ (last + calls) % 65535 + 1
unfolding mid_after
mid_after_lem last zero l = first_mid last l ∙ omega arith
mid_after_lem last (suc calls) l =
    ap mid_generate (mid_after_lem last calls l) ∙ next_mid (last + calls) ∙ omega arith

-- From any `last_mid` of 16 bits on, no call of `dimq__mid_generate` gives 0 or more than 65535, and of
-- 65535 calls in a row no two give the same id.
pub mid_generate_distinct :
    (last i j : ℕ)
    → last < 65536
    → i < j
    → j < i + 65535
    → (0 < mid_after last (suc i))
      × (mid_after last (suc i) < 65536)
      × (mid_after last (suc i) ≢ mid_after last (suc j))
mid_generate_distinct last i j l lt near =
    let a = mid_after_lem last i l in
    let b = mid_after_lem last j l in (omega arith, omega arith, λ same. omega arith)
