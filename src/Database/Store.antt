-- ===== src/Database/Store.antt =====
-- The store of messages, src/database.c: entries with a count of the references to them. A new entry
-- comes first.
use dimq.Prelude.{
  not, ltb, ◌||◌, ◌%◌, ℕ, ◌+◌, ◌==◌, List, [], ◌∷◌, Option, none, some, if◌then◌else◌,
}
use dimq.Database.{Stored, Db, int_add, int_sub, long_add, long_sub}

-- The entry that a pointer leads to.
unfoldable pub find_stored : ℕ → List Stored → Option Stored
find_stored id [] = none
find_stored id (s ∷ store) =
    let more = find_stored id store in if s.db_id == id then some s else more

-- The entry after a change.
unfoldable pub put_stored : ℕ → Stored → List Stored → List Stored
put_stored id s' [] = []
put_stored id s' (s ∷ store) =
    let more = put_stored id s' store in if s.db_id == id then s' ∷ store else s ∷ more

-- The list without an entry.
unfoldable pub drop_stored : ℕ → List Stored → List Stored
drop_stored id [] = []
drop_stored id (s ∷ store) =
    let more = drop_stored id store in if s.db_id == id then store else s ∷ more

-- `db__msg_store_add`
abbrev pub msg_store_add : Stored → Db → Db
msg_store_add s db = record db { msg_store = s ∷ db.msg_store }

-- `db__msg_store_remove`
unfoldable pub msg_store_remove : Stored → Db → Db
msg_store_remove s db = record db {
  msg_store = drop_stored s.db_id db.msg_store;
  msg_store_count = int_sub db.msg_store_count 1;
  msg_store_bytes = long_sub db.msg_store_bytes s.payloadlen;
}

-- `db__msg_store_ref_inc`
unfoldable pub msg_store_ref_inc : ℕ → Db → Option Db
msg_store_ref_inc id db = elim (find_stored id db.msg_store) [
  | none ↦ none
  | some s ↦ some (record db {
    msg_store = put_stored id (record s { ref_count = int_add s.ref_count 1 }) db.msg_store;
  })
]

-- `db__msg_store_ref_dec`
unfoldable pub msg_store_ref_dec : ℕ → Db → Option Db
msg_store_ref_dec id db = elim (find_stored id db.msg_store) [
  | none ↦ none
  | some s ↦
      let n = int_sub s.ref_count 1 in
      if n == 0
      then some (msg_store_remove s db)
      else some (record db { msg_store = put_stored id (record s { ref_count = n }) db.msg_store })
]

-- `db__msg_store_compact`: the entries are looked at in their order.
unfoldable pub compact : List Stored → Db → Db
compact [] db = db
compact (s ∷ store) db =
    let next =
      if s.ref_count == 0 || not (ltb s.ref_count 2147483648) then msg_store_remove s db else db in
    compact store next

abbrev pub msg_store_compact : Db → Db
msg_store_compact db = compact db.msg_store db

-- `db__message_store`, when the copies of the source were allocated: a new entry without references.
-- `store_id` is 0 for a new message, and the id that was read otherwise.
unfoldable pub message_store : Stored → ℕ → ℕ → Db → Db
message_store s message_expiry_interval store_id db =
    let id = if store_id == 0 then (db.last_db_id + 1) % 18446744073709551616 else store_id in
    msg_store_add
      (record s {
        db_id = id;
        message_expiry_time =
            if ltb 0 message_expiry_interval then db.now_real_s + message_expiry_interval else 0;
        dest_ids = [];
      })
      (record db {
        msg_store_count = int_add db.msg_store_count 1;
        msg_store_bytes = long_add db.msg_store_bytes s.payloadlen;
        last_db_id = if store_id == 0 then id else db.last_db_id;
      })
