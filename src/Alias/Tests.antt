-- ===== src/Alias/Tests.antt =====
-- A witness for lib/alias_dimq.c: alias 2 takes a topic beside alias 1.
use dimq.Alias.{Alias, replace, alias_add, alias_find}
use dimq.Alias.Kept.{answer, alias_find-alias_add}
use dimq.Packet.{Heap}
use dimq.Result.{success}
use dimq.Prelude.{◌≡◌, ◌==◌, true, List, [], ◌∷◌, some, refl, if◌then◌else◌}

abbrev room : Heap
room i = true

abbrev before : List Alias
before = record { alias = 1; topic = some (b'a' ∷ []) } ∷ []

succeeds : (alias_add (b'b' ∷ []) 2 before room).0 ≡ success
unfolding alias_add replace
succeeds = refl

alias_find-alias_add_example :
    alias_find 1 (alias_add (b'b' ∷ []) 2 before room).1 room
    ≡ (if 1 == 2 then answer (b'b' ∷ []) room else alias_find 1 before room)
alias_find-alias_add_example = alias_find-alias_add (b'b' ∷ []) 2 1 before room room succeeds
