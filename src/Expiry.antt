-- ===== src/Expiry.antt =====
-- src/session_expiry.c and src/will_delay.c: lists of clients that are kept in order, and walked until an
-- entry is not due. The times and intervals are those of the contexts, which are numbers here. What else
-- is done with a client that is due is not part of the model.
use dimq.Result.{Result, ok, err, nomem}
use dimq.Prelude.{
  List, [], ◌∷◌, ℕ, ◌+◌, ◌-◌, ◌%◌, ◌==◌, Bool, true, false, not, ◌&&◌, ltb, leb, Option, none, some,
  if◌then◌else◌,
}
pub mod Sorted
pub mod Listed
pub mod Twice
pub mod Overdue
mod Tests

-- What `session_expiry.c` reads and writes of `struct dimq`
pub record SessionContext : Type 0 where
  pub session_expiry_interval : ℕ
  pub session_expiry_time : ℕ
  pub expiry_list_item : Option ℕ

-- `struct session_expiry_list`: a pointer to an item is its context and a number that tells apart the
-- items of one context.
pub record Item : Type 0 where
  pub context : ℕ
  pub number : ℕ

-- The contexts, `expiry_list` and `last_check`
pub record Sessions : Type 0 where
  pub contexts : ℕ → SessionContext
  pub expiry_list : List Item
  pub last_check : ℕ

-- A write to a context
abbrev pub set_context {ℓ} : {A : Type ℓ} → (ℕ → A) → ℕ → A → ℕ → A
set_context contexts c v x = if x == c then v else contexts x

abbrev pub time_of : (ℕ → SessionContext) → Item → ℕ
time_of contexts i = (contexts i.context).session_expiry_time

-- `DL_INSERT_INORDER` with `session_expiry__cmp`: in front of the first item that is not less.
unfoldable pub insert_item : (ℕ → SessionContext) → Item → List Item → List Item
insert_item contexts i [] = i ∷ []
insert_item contexts i (x ∷ xs) =
    let more = insert_item contexts i xs in
    if leb (time_of contexts i) (time_of contexts x) then i ∷ (x ∷ xs) else x ∷ more

-- The time at which a session ends
abbrev pub expiry_time : ℕ → ℕ → ℕ → ℕ
expiry_time persistent_client_expiration now interval =
    if persistent_client_expiration == 0
    then now + interval
    else if ltb persistent_client_expiration interval
    then now + persistent_client_expiration
    else now + interval

-- A context with its new time and item
abbrev pub put_item : ℕ → ℕ → ℕ → Sessions → Sessions
put_item c time number s =
    let contexts =
      set_context s.contexts c
        (record (s.contexts c) { session_expiry_time = time; expiry_list_item = some number }) in
    record s {
      contexts = contexts;
      expiry_list = insert_item contexts (record { context = c; number = number }) s.expiry_list;
    }

abbrev pub allocated : Option ℕ → ℕ → ℕ → Sessions → Result Sessions
allocated none c time s = err nomem
allocated (some number) c time s = ok (put_item c time number s)

-- `session_expiry__add`: UINT32_MAX is never. `calloc` is the number of the new item, or NULL.
unfoldable pub session_expiry_add : Option ℕ → ℕ → ℕ → ℕ → Sessions → Result Sessions
session_expiry_add calloc persistent_client_expiration now c s =
    let interval = (s.contexts c).session_expiry_interval in
    if persistent_client_expiration == 0 && interval == 4294967295
    then ok s
    else allocated calloc c (expiry_time persistent_client_expiration now interval) s

abbrev pub is_item : ℕ → ℕ → Item → Bool
is_item c number i = i.context == c && i.number == number

-- `DL_DELETE`
unfoldable pub delete_item : ℕ → ℕ → List Item → List Item
delete_item c number [] = []
delete_item c number (x ∷ xs) =
    let more = x ∷ delete_item c number xs in if is_item c number x then xs else more

abbrev pub take_item : Option ℕ → ℕ → Sessions → Sessions
take_item none c s = s
take_item (some number) c s = record s {
  contexts = set_context s.contexts c (record (s.contexts c) { expiry_list_item = none });
  expiry_list = delete_item c number s.expiry_list;
}

-- `session_expiry__remove`
unfoldable pub session_expiry_remove : ℕ → Sessions → Sessions
session_expiry_remove c s = take_item (s.contexts c).expiry_list_item c s

-- `context->session_expiry_interval = 0`
abbrev pub clear_interval : ℕ → Sessions → Sessions
clear_interval c s = record s {
  contexts = set_context s.contexts c (record (s.contexts c) { session_expiry_interval = 0 });
}

unfoldable pub is_there : Item → List Item → Bool
is_there i [] = false
is_there i (x ∷ xs) =
    let more = is_there i xs in if is_item i.context i.number x then true else more

-- What `tmp` of `DL_FOREACH_SAFE` leads to: the next of these items that is still in the list. Where that
-- one was freed, the next round reads it.
unfoldable pub is_freed : Option ℕ → ℕ → List Item → List Item → Bool
is_freed none c [] list = false
is_freed (some number) c [] list = false
is_freed none c (x ∷ xs) list = false
is_freed (some number) c (x ∷ xs) list =
    let more = is_freed (some number) c xs list in
    if is_there x list then is_item c number x else more

abbrev pub with_expired : ℕ → Option (Sessions × List ℕ) → Option (Sessions × List ℕ)
with_expired c none = none
with_expired c (some (s, expired)) = some (s, c ∷ expired)

-- The loop of `session_expiry__check`, over the items that were in the list: what it leaves, and the
-- contexts that expired, in their order; `none` is a fault, an item that was freed.
unfoldable pub expire : ℕ → List Item → Sessions → Option (Sessions × List ℕ)
expire now [] s = some (s, [])
expire now (i ∷ is) s =
    let c = i.context in
    let there = is_there i s.expiry_list in
    let due = ltb (time_of s.contexts i) now in
    let more =
      expire now is (if there && due then clear_interval c (session_expiry_remove c s) else s) in
    if not there
    then more
    else if not due
    then some (s, [])
    else if is_freed (s.contexts c).expiry_list_item c is s.expiry_list
    then none
    else with_expired c more

-- `session_expiry__check`
unfoldable pub session_expiry_check : ℕ → Sessions → Option (Sessions × List ℕ)
session_expiry_check now s =
    if leb now s.last_check
    then some (s, [])
    else expire now s.expiry_list (record s { last_check = now })

-- What `will_delay.c` reads and writes of `struct dimq`: `will_delay_entry` is not NULL, and the numbers
pub record WillContext : Type 0 where
  pub has_entry : Bool
  pub will_delay_interval : ℕ
  pub will_delay_time : ℕ

-- The contexts, those of the items of `delay_list`, and `last_check`
pub record Wills : Type 0 where
  pub contexts : ℕ → WillContext
  pub delay_list : List ℕ
  pub last_check : ℕ

-- `will_delay__cmp(x, c) >= 0`: the difference of two unsigned numbers as an `int`
abbrev pub is_not_less : (ℕ → WillContext) → ℕ → ℕ → Bool
is_not_less contexts x c =
    ltb
      (((contexts x).will_delay_interval + (4294967296 - (contexts c).will_delay_interval))
        % 4294967296)
      2147483648

-- `DL_INSERT_INORDER` with `will_delay__cmp`
unfoldable pub insert_will : (ℕ → WillContext) → ℕ → List ℕ → List ℕ
insert_will contexts c [] = c ∷ []
insert_will contexts c (x ∷ xs) =
    let more = insert_will contexts c xs in
    if is_not_less contexts x c then c ∷ (x ∷ xs) else x ∷ more

abbrev pub put_will : ℕ → ℕ → Wills → Wills
put_will now c s =
    let w = s.contexts c in
    let contexts =
      set_context s.contexts c
        (record w { has_entry = true; will_delay_time = now + w.will_delay_interval }) in
    record s { contexts = contexts; delay_list = insert_will contexts c s.delay_list }

-- `will_delay__add`
unfoldable pub will_delay_add : Bool → ℕ → ℕ → Wills → Result Wills
will_delay_add calloc now c s =
    if (s.contexts c).has_entry then ok s else if calloc then ok (put_will now c s) else err nomem

-- `DL_DELETE` of the item of a context
unfoldable pub delete_will : ℕ → List ℕ → List ℕ
delete_will c [] = []
delete_will c (x ∷ xs) = let more = x ∷ delete_will c xs in if x == c then xs else more

-- `will_delay__remove`
unfoldable pub will_delay_remove : ℕ → Wills → Wills
will_delay_remove c s =
    if (s.contexts c).has_entry
    then record s {
      contexts = set_context s.contexts c (record (s.contexts c) { has_entry = false });
      delay_list = delete_will c s.delay_list;
    }
    else s

-- The item of a context is deleted, and its will is sent.
abbrev pub send_will : ℕ → Wills → Wills
send_will c s = record s {
  contexts =
      set_context s.contexts c
        (record (s.contexts c) { has_entry = false; will_delay_interval = 0 });
  delay_list = delete_will c s.delay_list;
}

abbrev pub with_sent : ℕ → Wills × List ℕ → Wills × List ℕ
with_sent c (s, sent) = (s, c ∷ sent)

-- The loop of `will_delay__check`: what it leaves, and the contexts whose wills are sent
unfoldable pub send_due : ℕ → List ℕ → Wills → Wills × List ℕ
send_due now [] s = (s, [])
send_due now (c ∷ cs) s =
    let more = with_sent c (send_due now cs (send_will c s)) in
    if ltb (s.contexts c).will_delay_time now then more else (s, [])

-- `will_delay__check`
unfoldable pub will_delay_check : ℕ → Wills → Wills × List ℕ
will_delay_check now s =
    if leb now s.last_check
    then (s, [])
    else send_due now s.delay_list (record s { last_check = now })
