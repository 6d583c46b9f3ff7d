-- ===== src/Database/Send.antt =====
-- Writing the messages in flight to a client, src/database.c. `none` of an option is a fault: a message
-- in the store that was freed is read.
use dimq.Prelude.{
  ◌||◌, ◌==◌, ◌++◌, ◌&&◌, none, ltb, false, [], true, some, not, if◌then◌else◌, ◌∷◌, ℕ, Option,
  List, Bool,
}
use dimq.Result.{Err, oversize_packet, Status, ok, err, fault, success}
use dimq.Messages.{MsgState, Direction, md_in, md_out, Net, rest_of, increment_quota}
use dimq.Database.{ClientMsg, Stored, MsgData, Context, Db, int_sub, long_sub}
use dimq.Database.Store.{find_stored, msg_store_ref_dec}

-- The client that a function is called for, the database, the answers of `send__publish`, `send__pubrel`
-- and `send__pubrec` to come, and what was handed to `send__publish` so far, the latest first.
pub record State : Type 0 where
  pub context : Context
  pub db : Db
  pub net : Net
  pub published : List ClientMsg

abbrev pub set_out : MsgData → State → State
set_out d s = record s { context = record s.context { msgs_out = d } }

abbrev pub set_in : MsgData → State → State
set_in d s = record s { context = record s.context { msgs_in = d } }

-- The counters of `db__message_remove`
abbrev pub uncount : ClientMsg → ℕ → MsgData → MsgData
uncount m len d = record d {
  msg_count = int_sub d.msg_count 1;
  msg_bytes = long_sub d.msg_bytes len;
  msg_count12 = if ltb 0 m.qos then int_sub d.msg_count12 1 else d.msg_count12;
  msg_bytes12 = if ltb 0 m.qos then long_sub d.msg_bytes12 len else d.msg_bytes12;
}

abbrev pub with_db : Option Db → MsgData → Option (MsgData × Db)
with_db none d = none
with_db (some db) d = some (d, db)

-- `db__message_remove`, without the step that takes the message out of the list of messages in flight:
-- that step is in the functions that walk the list.
unfoldable pub message_remove : ClientMsg → MsgData → Db → Option (MsgData × Db)
message_remove m d db = elim (find_stored m.store db.msg_store) [
  | none ↦ none
  | some stored ↦ with_db (msg_store_ref_dec m.store db) (uncount m stored.payloadlen d)
]

-- What one call of `db__message_write_inflight_out_single` leaves: the message, where it was not removed.
pub record Single : Type 0 where
  pub code : Status
  pub left : Option ClientMsg
  pub state : State

abbrev pub stays : Status → ClientMsg → State → Option Single
stays code m s = some (record { code = code; left = some m; state = s })

abbrev pub gone : State → Option (MsgData × Db) → Option Single
gone s none = none
gone s (some (d, db)) =
    some (record { code = success; left = none; state = record (set_out d s) { db = db } })

abbrev pub removed : ClientMsg → State → Option Single
removed m s = gone s (message_remove m s.context.msgs_out s.db)

abbrev pub is_oversize : Err → Bool
is_oversize oversize_packet = true
is_oversize e = false

abbrev pub answered : State → State
answered s = record s { net = rest_of s.net }

abbrev pub handed : ClientMsg → State → State
handed m s = record s { published = m ∷ s.published }

-- After `send__publish` of a message of QoS 0
abbrev pub sent_qos0 : Option Err → ClientMsg → State → Option Single
sent_qos0 none m s = removed m (handed m s)
sent_qos0 (some e) m s = if is_oversize e then removed m s else stays (err e) m s

-- After `send__publish` of another message, which then is in the state `next`
abbrev pub sent_qos : Option Err → MsgState → ClientMsg → State → Option Single
sent_qos none next m s =
    stays success (record m { timestamp = s.db.now_s; dup = true; state = next }) (handed m s)
sent_qos (some e) next m s = if is_oversize e then removed m s else stays (err e) m s

-- After `send__pubrel`
abbrev pub sent_pubrel : Option Err → ClientMsg → State → Option Single
sent_pubrel none m s = stays success (record m { state = MsgState.wait_for_pubcomp }) s
sent_pubrel (some e) m s = stays (err e) m s

-- The `switch` on the state of the message
abbrev pub by_state : MsgState → ClientMsg → State → Option Single
by_state MsgState.publish_qos0 m s = sent_qos0 (s.net 0) m (answered s)
by_state MsgState.publish_qos1 m s = sent_qos (s.net 0) MsgState.wait_for_puback m (answered s)
by_state MsgState.publish_qos2 m s = sent_qos (s.net 0) MsgState.wait_for_pubrec m (answered s)
by_state MsgState.resend_pubrel m s = sent_pubrel (s.net 0) m (answered s)
by_state MsgState.invalid m s = stays success m s
by_state MsgState.send_pubrec m s = stays success m s
by_state MsgState.resend_pubcomp m s = stays success m s
by_state MsgState.wait_for_puback m s = stays success m s
by_state MsgState.wait_for_pubrec m s = stays success m s
by_state MsgState.wait_for_pubrel m s = stays success m s
by_state MsgState.wait_for_pubcomp m s = stays success m s
by_state MsgState.queued m s = stays success m s

abbrev pub is_expired : Stored → Db → Bool
is_expired stored db =
    not (stored.message_expiry_time == 0) && ltb stored.message_expiry_time db.now_real_s

abbrev pub is_out : Direction → Bool
is_out md_out = true
is_out md_in = false

-- `util__increment_send_quota`
abbrev pub increment_send_quota : State → State
increment_send_quota s =
    let d = s.context.msgs_out in
    set_out (record d { inflight_quota = increment_quota d.inflight_maximum d.inflight_quota }) s

-- `db__message_write_inflight_out_single`
unfoldable pub write_inflight_out_single : ClientMsg → State → Option Single
write_inflight_out_single m s = elim (find_stored m.store s.db.msg_store) [
  | none ↦ none
  | some stored ↦
      if is_expired stored s.db
      then removed m (if is_out m.direction && ltb 0 m.qos then increment_send_quota s else s)
      else by_state m.state m s
]

-- What a walk over messages in flight leaves
pub record Written : Type 0 where
  pub code : Status
  pub left : List ClientMsg
  pub state : State

abbrev pub keep : Option ClientMsg → List ClientMsg → List ClientMsg
keep none ms = ms
keep (some m) ms = m ∷ ms

abbrev pub in_front : Option ClientMsg → Option Written → Option Written
in_front left none = none
in_front left (some r) = some (record r { left = keep left r.left })

-- `if(rc) return rc;` in a walk
abbrev pub walk_on : Option Single → List ClientMsg → (State → Option Written) → Option Written
walk_on none ms more = none
walk_on (some r) ms more = elim r.code [
  | ok done ↦ in_front r.left (more r.state)
  | err e ↦ some (record { code = err e; left = keep r.left ms; state = r.state })
  | fault ↦ none
]

-- A walk over messages in flight that writes each
unfoldable pub write_each : List ClientMsg → State → Option Written
write_each [] s = some (record { code = success; left = []; state = s })
write_each (m ∷ ms) s = walk_on (write_inflight_out_single m s) ms (write_each ms)

-- What a function that is called for a client leaves
pub record Done : Type 0 where
  pub code : Status
  pub state : State

-- The list of messages in flight is what was not walked over, and what the walk left.
abbrev pub put_back : List ClientMsg → Option Written → Option Done
put_back before none = none
put_back before (some r) = some (record {
  code = r.code;
  state = set_out (record r.state.context.msgs_out { inflight = before ++ r.left }) r.state;
})

-- `db__message_write_inflight_out_all`
unfoldable pub write_inflight_out_all : State → Option Done
write_inflight_out_all s =
    if not s.context.is_active || not s.context.has_sock
    then some (record { code = success; state = s })
    else put_back [] (write_each s.context.msgs_out.inflight s)

abbrev pub is_publish : MsgState → Bool
is_publish MsgState.publish_qos0 = true
is_publish MsgState.publish_qos1 = true
is_publish MsgState.publish_qos2 = true
is_publish s = false

abbrev pub is_empty : List ClientMsg → Bool
is_empty [] = true
is_empty (m ∷ ms) = false

abbrev pub step_back : ClientMsg → List ClientMsg × List ClientMsg → List ClientMsg × List ClientMsg
step_back m (before, after) =
    if is_empty before && is_publish m.state then ([], m ∷ after) else (m ∷ before, after)

-- The walk back from the end: up to the last message that is not to be published, and the rest.
unfoldable pub walk_back : List ClientMsg → List ClientMsg × List ClientMsg
walk_back [] = ([], [])
walk_back (m ∷ ms) = step_back m (walk_back ms)

-- Where the walk back stops at the head, the head is written too.
abbrev pub from_head : ClientMsg → List ClientMsg × List ClientMsg → List ClientMsg × List ClientMsg
from_head m (before, after) = if is_empty before then ([], m ∷ after) else (m ∷ before, after)

abbrev pub latest : List ClientMsg → List ClientMsg × List ClientMsg
latest [] = ([], [])
latest (m ∷ ms) = from_head m (walk_back ms)

-- `db__message_write_inflight_out_latest`
unfoldable pub write_inflight_out_latest : State → Option Done
write_inflight_out_latest s =
    let (before, after) = latest s.context.msgs_out.inflight in
    if not s.context.is_active || not s.context.has_sock || is_empty s.context.msgs_out.inflight
    then some (record { code = success; state = s })
    else put_back before (write_each after s)
