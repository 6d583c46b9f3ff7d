-- ===== src/Database/Reset.antt =====
-- src/database.c: the messages of a client that connects again. `none` of an option is a fault: a
-- message that was freed is read.
use dimq.Prelude.{
  ◌&&◌, List, [], ◌∷◌, ◌++◌, ℕ, Bool, true, false, Option, none, some, ltb, ◌==◌, if◌then◌else◌,
}
use dimq.Messages.{MsgState, Direction, md_in, md_out, decrement_quota}
use dimq.Database.{
  ClientMsg, MsgData, Context, Config, Db, int_add, long_add, set_msgs, ready_for_flight,
}
use dimq.Database.Store.{find_stored}
use dimq.Database.Send.{State, set_in, set_out, message_remove}
use dimq.Database.Out.{publish_state, ready, dequeue_first}

-- A message is counted.
abbrev pub recount : ClientMsg → ℕ → MsgData → MsgData
recount m len d = record d {
  msg_count = int_add d.msg_count 1;
  msg_bytes = long_add d.msg_bytes len;
  msg_count12 = if ltb 0 m.qos then int_add d.msg_count12 1 else d.msg_count12;
  msg_bytes12 = if ltb 0 m.qos then long_add d.msg_bytes12 len else d.msg_bytes12;
}

-- `util__decrement_send_quota` and `util__decrement_receive_quota`, for a QoS above 0
abbrev pub use_quota : ClientMsg → MsgData → MsgData
use_quota m d = record d {
  inflight_quota = if ltb 0 m.qos then decrement_quota d.inflight_quota else d.inflight_quota;
}

-- The counters at the start
abbrev pub uncounted : MsgData → MsgData
uncounted d = record d {
  msg_bytes = 0;
  msg_bytes12 = 0;
  msg_count = 0;
  msg_count12 = 0;
  inflight_quota = d.inflight_maximum;
}

abbrev pub is_wait_for_pubcomp : MsgState → Bool
is_wait_for_pubcomp MsgState.wait_for_pubcomp = true
is_wait_for_pubcomp s = false

-- The state of a message in flight that is to be sent again
abbrev pub retry_state : ℕ → MsgState → MsgState
retry_state qos s =
    if qos == 2 && is_wait_for_pubcomp s then MsgState.resend_pubrel else publish_state qos s

-- A walk over a list of messages: the messages that stay and the counters
abbrev pub Kept : Type 0
Kept = List ClientMsg × MsgData × Db

abbrev pub before : ClientMsg → Option Kept → Option Kept
before m none = none
before m (some (ms, d, db)) = some (m ∷ ms, d, db)

-- The first loop of `db__message_reconnect_reset_outgoing`
unfoldable pub reset_inflight_out : List ClientMsg → MsgData → Db → Option Kept
reset_inflight_out [] d db = some ([], d, db)
reset_inflight_out (m ∷ ms) d db = elim (find_stored m.store db.msg_store) [
  | none ↦ none
  | some stored ↦
      before (record m { state = retry_state m.qos m.state })
        (reset_inflight_out ms (use_quota m (recount m stored.payloadlen d)) db)
]

-- The first of the messages that were passed, or the one at hand, and those that stay in the queue up
-- to it
abbrev pub first_of : List ClientMsg → ClientMsg → ClientMsg × List ClientMsg
first_of [] m = (m, [])
first_of (p ∷ ps) m = (p, ps ++ (m ∷ []))

-- A message in the queue: where it is ready for flight its state is changed, and then the *first*
-- message of the queue is put in flight.
abbrev pub visit :
    Config
    → Context
    → Direction
    → List ClientMsg
    → ClientMsg
    → List ClientMsg
    → MsgData
    → List ClientMsg × MsgData
visit k c dir passed m ms d =
    let (first, others) = first_of passed (ready m) in
    if ready_for_flight k (set_msgs dir d c) dir m.qos
    then (others, dequeue_first first (others ++ ms) d)
    else (passed ++ (m ∷ []), d)

-- The second loop of either function, over the messages of the queue; `passed` are those before it that
-- are still there.
unfoldable pub reset_queued :
    Context → Direction → List ClientMsg → List ClientMsg → MsgData → Db → Option MsgData
reset_queued c dir passed [] d db = some d
reset_queued c dir passed (m ∷ ms) d db = elim (find_stored m.store db.msg_store) [
  | none ↦ none
  | some stored ↦
      let p = visit db.config c dir passed m ms (recount m stored.payloadlen d) in
      reset_queued c dir p.0 ms p.1 db
]

abbrev pub then_queued : Context → Direction → Option Kept → Option (MsgData × Db)
then_queued c dir none = none
then_queued c dir (some (ms, d, db)) =
    elim (reset_queued c dir [] d.queued (record d { inflight = ms }) db) [
      | none ↦ none
      | some d' ↦ some (d', db)
    ]

abbrev pub stored_out : State → Option (MsgData × Db) → Option State
stored_out s none = none
stored_out s (some (d, db)) = some (record (set_out d s) { db = db })

-- `db__message_reconnect_reset_outgoing`
unfoldable pub reset_outgoing : State → Option State
reset_outgoing s =
    let d = s.context.msgs_out in
    stored_out s (then_queued s.context md_out (reset_inflight_out d.inflight (uncounted d) s.db))

-- The first loop of `db__message_reconnect_reset_incoming`: a message of a QoS other than 2 is removed.
unfoldable pub reset_inflight_in : List ClientMsg → MsgData → Db → Option Kept
reset_inflight_in [] d db = some ([], d, db)
reset_inflight_in (m ∷ ms) d db = elim (find_stored m.store db.msg_store) [
  | none ↦ none
  | some stored ↦
      let d' = use_quota m (recount m stored.payloadlen d) in
      elim (m.qos == 2) [
        | true ↦ before m (reset_inflight_in ms d' db)
        | false ↦ elim (message_remove m d' db) [
          | none ↦ none
          | some r ↦ reset_inflight_in ms r.0 r.1
        ]
      ]
]

abbrev pub stored_in : State → Option (MsgData × Db) → Option State
stored_in s none = none
stored_in s (some (d, db)) = some (record (set_in d s) { db = db })

-- `db__message_reconnect_reset_incoming`
unfoldable pub reset_incoming : State → Option State
reset_incoming s =
    let d = s.context.msgs_in in
    stored_in s (then_queued s.context md_in (reset_inflight_in d.inflight (uncounted d) s.db))

-- `db__message_reconnect_reset`
unfoldable pub reconnect_reset : State → Option State
reconnect_reset s = elim (reset_outgoing s) [ none ↦ none | some s' ↦ reset_incoming s' ]
