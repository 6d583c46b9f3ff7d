-- ===== src/Database/Out.antt =====
-- What acknowledgements do to the messages of a client, src/database.c.
use dimq.Prelude.{
  leb, ◌==◌, ◌&&◌, true, none, [], ◌∷◌, ◌||◌, ◌++◌, zero, some, not, false, ℕ, suc, if◌then◌else◌,
  Option, List, Bool,
}
use dimq.Result.{protocol, not_found, Status, err, success}
use dimq.Messages.{MsgState, decrement_quota}
use dimq.Database.{ClientMsg, MsgData, Db, Bridge}
use dimq.Database.Store.{msg_store_ref_dec}
use dimq.Database.Send.{State, set_out, set_in, message_remove, Done, write_inflight_out_latest}

-- A message that is made ready to be sent, by its QoS
abbrev pub publish_state : ℕ → MsgState → MsgState
publish_state zero s = MsgState.publish_qos0
publish_state (suc zero) s = MsgState.publish_qos1
publish_state (suc (suc zero)) s = MsgState.publish_qos2
publish_state (suc (suc (suc n))) s = s

abbrev pub ready : ClientMsg → ClientMsg
ready m = record m { state = publish_state m.qos m.state }

-- `db__message_dequeue_first`, where the first message of the queue is `m` and `q` are the others
abbrev pub dequeue_first : ClientMsg → List ClientMsg → MsgData → MsgData
dequeue_first m q d = record d {
  queued = q;
  inflight = d.inflight ++ (m ∷ []);
  inflight_quota = decrement_quota d.inflight_quota;
}

-- The second loop of `db__message_delete_outgoing`, over what is queued: `index` is `msg_index`.
unfoldable pub fill_inflight : ℕ → ℕ → List ClientMsg → MsgData → MsgData
fill_inflight now index [] d = d
fill_inflight now index (m ∷ q) d =
    let more =
      fill_inflight now (suc index) q (dequeue_first (ready (record m { timestamp = now })) q d) in
    if not (d.inflight_maximum == 0) && leb d.inflight_maximum index then d else more

-- `enum dimq_msg_state`
abbrev pub state_number : MsgState → ℕ
state_number MsgState.invalid = 0
state_number MsgState.publish_qos0 = 1
state_number MsgState.publish_qos1 = 2
state_number MsgState.wait_for_puback = 3
state_number MsgState.publish_qos2 = 4
state_number MsgState.wait_for_pubrec = 5
state_number MsgState.resend_pubrel = 6
state_number MsgState.wait_for_pubrel = 7
state_number MsgState.resend_pubcomp = 8
state_number MsgState.wait_for_pubcomp = 9
state_number MsgState.send_pubrec = 10
state_number MsgState.queued = 11

-- What the first loop finds: `msg_index` and, for the message of this id, the message and those around
-- it.
pub data Found : Type 0 where
  mismatch : Found
  missing : ℕ → Found
  found : ℕ → ClientMsg → List ClientMsg → Found

abbrev pub past_one : ClientMsg → Found → Found
past_one n mismatch = mismatch
past_one n (missing index) = missing (suc index)
past_one n (found index m ms) = found (suc index) m (n ∷ ms)

-- The first loop of `db__message_delete_outgoing`
unfoldable pub find_outgoing : ℕ → MsgState → ℕ → List ClientMsg → Found
find_outgoing mid expect_state qos [] = missing 0
find_outgoing mid expect_state qos (m ∷ ms) =
    let more = past_one m (find_outgoing mid expect_state qos ms) in
    if m.mid == mid
    then (if not (m.qos == qos)
          || (qos == 2 && not (state_number m.state == state_number expect_state))
        then mismatch
        else found 0 m ms)
    else more

-- What follows the first loop
abbrev pub refill : ℕ → State → Option Done
refill index s =
    let d = s.context.msgs_out in
    write_inflight_out_latest (set_out (fill_inflight s.db.now_s index d.queued d) s)

abbrev pub without : List ClientMsg → State → Option (MsgData × Db) → Option State
without ms s none = none
without ms s (some (d, db)) = some (record (set_out (record d { inflight = ms }) s) { db = db })

abbrev pub refill_after : ℕ → Option State → Option Done
refill_after index none = none
refill_after index (some s) = refill index s

abbrev pub acknowledge : Found → State → Option Done
acknowledge mismatch s = some (record { code = err protocol; state = s })
acknowledge (missing index) s = refill index s
acknowledge (found index m ms) s =
    refill_after index (without ms s (message_remove m s.context.msgs_out s.db))

-- `db__message_delete_outgoing`
unfoldable pub delete_outgoing : ℕ → MsgState → ℕ → State → Option Done
delete_outgoing mid expect_state qos s =
    acknowledge (find_outgoing mid expect_state qos s.context.msgs_out.inflight) s

abbrev pub onto : ClientMsg → Status × List ClientMsg → Status × List ClientMsg
onto m (code, ms) = (code, m ∷ ms)

-- The loop of `db__message_update_outgoing`
unfoldable pub update_outgoing : ℕ → MsgState → ℕ → ℕ → List ClientMsg → Status × List ClientMsg
update_outgoing mid state qos now [] = (err not_found, [])
update_outgoing mid state qos now (m ∷ ms) =
    let more = onto m (update_outgoing mid state qos now ms) in
    if m.mid == mid
    then (if not (m.qos == qos)
        then (err protocol, m ∷ ms)
        else (success, record m { state = state; timestamp = now } ∷ ms))
    else more

-- `db__message_write_queued_out`: the queue is emptied as long as there is quota.
unfoldable pub drain : List ClientMsg → MsgData → MsgData
drain [] d = d
drain (m ∷ q) d =
    let more = drain q (dequeue_first (ready m) q d) in
    if not (d.inflight_maximum == 0) && d.inflight_quota == 0 then d else more

unfoldable pub write_queued_out : State → Done
write_queued_out s =
    if not s.context.is_active then record { code = success; state = s } else record {
      code = success;
      state = set_out (drain s.context.msgs_out.queued s.context.msgs_out) s;
    }

-- `db__messages_delete_list`
unfoldable pub delete_list : List ClientMsg → Db → Option Db
delete_list [] db = some db
delete_list (m ∷ ms) db = elim (msg_store_ref_dec m.store db) [
  | none ↦ none
  | some db' ↦ delete_list ms db'
]

abbrev pub cleared : Option Db → MsgData → Option (MsgData × Db)
cleared none d = none
cleared (some db) d = some (
  record d {
    inflight = [];
    queued = [];
    msg_bytes = 0;
    msg_bytes12 = 0;
    msg_count = 0;
    msg_count12 = 0;
  },
  db,
)

-- One direction of `db__messages_delete`
unfoldable pub clear : MsgData → Db → Option (MsgData × Db)
clear d db = elim (delete_list d.inflight db) [
  | none ↦ none
  | some db' ↦ cleared (delete_list d.queued db') d
]

abbrev pub bridge_test : (Bridge → Bool) → Option Bridge → Bool
bridge_test test none = false
bridge_test test (some b) = test b

abbrev pub has_bridge : Option Bridge → Bool
has_bridge none = false
has_bridge (some b) = true

abbrev pub cleared_in : State → Option (MsgData × Db) → Option State
cleared_in s none = none
cleared_in s (some (d, db)) = some (record (set_in d s) { db = db })

abbrev pub cleared_out : State → Option (MsgData × Db) → Option State
cleared_out s none = none
cleared_out s (some (d, db)) = some (record (set_out d s) { db = db })

-- The two parts of `db__messages_delete`
unfoldable pub delete_in : Bool → State → Option State
delete_in force_free s =
    if force_free || s.context.clean_start || bridge_test (λ b. b.clean_start) s.context.bridge
    then cleared_in s (clear s.context.msgs_in s.db)
    else some s

unfoldable pub delete_out : Bool → State → Option State
delete_out force_free s =
    if force_free
      || bridge_test (λ b. b.clean_start_local) s.context.bridge
      || (not (has_bridge s.context.bridge) && s.context.clean_start)
    then cleared_out s (clear s.context.msgs_out s.db)
    else some s

-- `db__messages_delete`
unfoldable pub messages_delete : Bool → State → Option State
messages_delete force_free s = elim (delete_in force_free s) [
  | none ↦ none
  | some s' ↦ delete_out force_free s'
]
