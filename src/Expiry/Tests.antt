-- ===== src/Expiry/Tests.antt =====
-- Runs of the lists of sessions and wills, and instances of what is proved.
use dimq.Expiry.{
  session_expiry_remove, is_there, SessionContext, Sessions, put_item, insert_item,
  session_expiry_add, session_expiry_check, WillContext, Wills, set_context,
}
use dimq.Result.{ok}
use dimq.Prelude.{[], ◌∷◌, ℕ, ◌≡◌, ◌==◌, if◌then◌else◌, some, none, refl, arith, true, false}
use dimq.Expiry.Listed.{due, not_due, Listed, starts, adds, sets, session_expiry_check-Listed}
use dimq.Expiry.Twice.{session_expiry_add_twice}

abbrev idle : ℕ → SessionContext
idle x = record { session_expiry_interval = 5; session_expiry_time = 0; expiry_list_item = none }

abbrev empty : Sessions
empty = record { contexts = idle; expiry_list = []; last_check = 10 }

-- The client 1 asks for a longer interval.
abbrev asked : Sessions
asked = record empty {
  contexts = set_context idle 1 (record (idle 1) { session_expiry_interval = 10 });
}

abbrev one : Sessions
one = put_item 1 20 7 asked

abbrev two : Sessions
two = put_item 2 15 8 one

added_one : session_expiry_add (some 7) 0 10 1 asked ≡ ok one
unfolding session_expiry_add
added_one = refl

added_two : session_expiry_add (some 8) 0 10 2 one ≡ ok two
unfolding session_expiry_add
added_two = refl

two-Listed : Listed two
two-Listed =
    adds (some 8) 0 10 2 one two
      (adds (some 7) 0 10 1 asked one (sets 1 10 empty (starts empty refl)) refl added_one) refl
      added_two

due_two : due two.contexts 16 two.expiry_list ≡ 2 ∷ []
unfolding insert_item
due_two = refl

session_expiry_check-Listed_example :
    (s' : Sessions) × (session_expiry_check 16 two ≡ some (s', due two.contexts 16 two.expiry_list))
    × (s'.expiry_list ≡ not_due two.contexts 16 two.expiry_list)
    × (s'.last_check ≡ 16)
session_expiry_check-Listed_example = session_expiry_check-Listed two 16 two-Listed (omega arith)

two_listed : is_there (record { context = 1; number = 7 }) two.expiry_list ≡ true
unfolding is_there insert_item
two_listed = refl

session_expiry_add_twice_example :
    (s' : Sessions) × (session_expiry_add (some 9) 0 12 1 two ≡ ok s')
    × (let left = session_expiry_remove 1 s' in
        (is_there (record { context = 1; number = 7 }) left.expiry_list ≡ true)
        × ((left.contexts 1).expiry_list_item ≡ none)
        × (session_expiry_remove 1 left ≡ left))
session_expiry_add_twice_example =
    session_expiry_add_twice two 1 7 9 0 12 two_listed (λ e. absurd (omega (arith, e))) refl

abbrev will : ℕ → WillContext
will x = record {
  has_entry = false;
  will_delay_interval = if x == 1 then 100 else 60;
  will_delay_time = 0;
}

abbrev wills : Wills
wills = record { contexts = will; delay_list = []; last_check = 100 }
