-- ===== src/Topic/Tests.antt =====
-- Runs of the checks on concrete names and filters.
use dimq.Topic.{pub_topic_check, sub_topic_check, sub_scan, pub_scan}
use dimq.Topic.Match.{topic_matches_sub}
use dimq.Topic.Levels.{Matches}
use dimq.Topic.Decides.{Decides, SameDollar}
use dimq.Topic.Checked.{filter_levels, name_levels, topic_matches_sub-Decides}
use dimq.Prelude.{ℕ, ◌≡◌, List, [], ◌∷◌, some, true, arith, refl}
use dimq.Result.{ok}

abbrev filter : List ℕ
filter = b'a' ∷ b'/' ∷ b'+' ∷ b'/' ∷ b'#' ∷ []

filter_allowed : sub_topic_check true (some filter) ≡ ok tt
unfolding sub_topic_check sub_scan
filter_allowed = refl

abbrev name : List ℕ
name = b'a' ∷ b'/' ∷ b'b' ∷ []

name_allowed : pub_topic_check true (some name) ≡ ok tt
unfolding pub_topic_check pub_scan
name_allowed = refl

topic_matches_sub-Decides_example :
    Decides
      (SameDollar filter name × Matches (filter_levels filter) (name_levels name))
      (topic_matches_sub (some filter) (some name))
topic_matches_sub-Decides_example =
    topic_matches_sub-Decides true filter name (ground arith) (ground arith) (λ e. cc) (λ e. cc)
      filter_allowed name_allowed
