-- ===== src/Database/Insert.antt =====
-- `db__message_insert` of src/database.c: a message of the store is handed to a client. `none` of an
-- option is a fault: a message that was freed, an id that was not copied, or a failed `assert`.
use dimq.Prelude.{
  ◌||◌, ◌==◌, ◌&&◌, ltb, not, if◌then◌else◌, List, [], ◌∷◌, ◌++◌, ℕ, Bool, true, false, Option,
  none, some,
}
use dimq.Result.{protocol, nomem, Err, Status, ok, err, fault, success}
use dimq.Messages.{MsgState, Direction, md_in, md_out, decrement_quota}
use dimq.Database.{
  ClientMsg, MsgData, Context, Config, Stored, Bridge, int_add, long_add, int_ltb, msgs_of,
  set_msgs, ready_for_flight, ready_for_queue,
}
use dimq.Database.Store.{find_stored, put_stored}
use dimq.Database.Send.{State, Done, set_out, write_inflight_out_latest}
use dimq.Database.Out.{publish_state, bridge_test, write_queued_out}
use dimq.Subs.{same_text}
use dimq.Subs.Join.{Protocol}

abbrev pub is_mqtt5 : Protocol → Bool
is_mqtt5 Protocol.mqtt5 = true
is_mqtt5 p = false

-- The walk over `dest_ids`: `strcmp` of a NULL is a fault.
unfoldable pub was_sent_to : List ℕ → List (Option (List ℕ)) → Option Bool
was_sent_to id [] = some false
was_sent_to id (none ∷ ids) = none
was_sent_to id (some i ∷ ids) =
    let more = was_sent_to id ids in if same_text i id then some true else more

-- The tests for a client without a connection, which return 2
abbrev pub is_refused : Config → Context → ℕ → Bool
is_refused k c qos =
    not c.has_sock
    && ((qos == 0 && not k.queue_qos0_messages && not (bridge_test (λ b. b.is_lazy) c.bridge))
        || bridge_test (λ b. b.clean_start_local) c.bridge)

-- What is done with the message: it is dropped and the client marked so, or refused with a code, or it
-- gets a state and `rc` a value.
pub data Verdict : Type 0 where
  dropped : Verdict
  refused : Err → Verdict
  accepted : MsgState → Status → Verdict

-- The state of a message that is ready for flight
abbrev pub flight_state : Direction → ℕ → Verdict
flight_state md_out qos = accepted (publish_state qos MsgState.invalid) success
flight_state md_in qos =
    if qos == 2 then accepted MsgState.wait_for_pubrel success else refused nomem

-- The choice of the state. The codes 1 and 2 are those of `nomem` and `protocol`.
unfoldable pub verdict : Config → Context → Direction → ℕ → Verdict
verdict k c dir qos =
    let fits = ready_for_queue k c qos (msgs_of dir c) in
    if c.has_sock
    then (if ready_for_flight k c dir qos
        then flight_state dir qos
        else if not (qos == 0) && fits
        then accepted MsgState.queued (err protocol)
        else dropped)
    else if fits
    then accepted MsgState.queued success
    else dropped

abbrev pub is_queued : MsgState → Bool
is_queued MsgState.queued = true
is_queued s = false

abbrev pub is_invalid : MsgState → Bool
is_invalid MsgState.invalid = true
is_invalid s = false

-- The message in its list, and the counters: these go by the QoS that was asked for.
abbrev pub enlist : ClientMsg → ℕ → ℕ → MsgData → MsgData
enlist m qos len d = record d {
  queued = if is_queued m.state then d.queued ++ (m ∷ []) else d.queued;
  inflight = if is_queued m.state then d.inflight else d.inflight ++ (m ∷ []);
  msg_count = int_add d.msg_count 1;
  msg_bytes = long_add d.msg_bytes len;
  msg_count12 = if ltb 0 qos then int_add d.msg_count12 1 else d.msg_count12;
  msg_bytes12 = if ltb 0 qos then long_add d.msg_bytes12 len else d.msg_bytes12;
}

abbrev pub capped : ℕ → ℕ → ℕ
capped max_qos qos = if ltb max_qos qos then max_qos else qos

-- The copy of the id in `dest_ids`; a copy that was not allocated is a NULL there.
abbrev pub note_dest : Bool → List ℕ → Stored → Stored
note_dest copied id stored = record stored {
  dest_ids = stored.dest_ids ++ ((if copied then some id else none) ∷ []);
}

-- `context->bridge->lazy_reconnect = true`, under its tests
abbrev pub wake_bridge : Context → Option Bridge → Option Bridge
wake_bridge c none = none
wake_bridge c (some b) = some (
    if b.is_lazy && not c.has_sock && not (int_ltb c.msgs_out.msg_count b.threshold)
    then record b { lazy_reconnect = true }
    else b)

abbrev pub woken : State → State
woken s = record s {
  context = record s.context { bridge = wake_bridge s.context s.context.bridge };
}

abbrev pub take_quota : Direction → ℕ → State → State
take_quota md_in qos s = s
take_quota md_out qos s =
    let d = s.context.msgs_out in
    if ltb 0 qos
    then set_out (record d { inflight_quota = decrement_quota d.inflight_quota }) s
    else s

-- `if(rc) return rc;`, then `db__message_write_queued_out`
abbrev pub write_queued_after : Option Done → Option Done
write_queued_after none = none
write_queued_after (some r) = elim r.code [
  | ok done ↦ some (write_queued_out r.state)
  | err e ↦ some r
  | fault ↦ none
]

abbrev pub updated : Direction → Bool → Status → State → Option Done
updated md_out true rc s = write_queued_after (write_inflight_out_latest s)
updated md_out false rc s = some (record { code = rc; state = s })
updated md_in update rc s = some (record { code = rc; state = s })

-- What follows the copy of the id
abbrev pub finish : Direction → Bool → Status → ℕ → State → Option Done
finish dir update rc qos s = updated dir update rc (take_quota dir qos (woken s))

-- Whether `dest_ids` is looked at and added to, in a client of any version
abbrev pub is_noted : Config → Direction → Bool → Bool
is_noted k md_out retain = not k.allow_duplicate_messages && not retain
is_noted k md_in retain = false

-- The answers of `dimq__malloc`, `dimq__realloc` and `dimq__strdup`
pub record Allocated : Type 0 where
  pub msg : Bool
  pub dest_ids : Bool
  pub dest_id : Bool

abbrev pub put_entry : Stored → State → State
put_entry stored s = record s {
  db = record s.db { msg_store = put_stored stored.db_id stored s.db.msg_store };
}

abbrev pub set_dir : Direction → MsgData → State → State
set_dir dir d s = record s { context = set_msgs dir d s.context }

-- The copy of the id, and what follows it
abbrev pub note :
    Allocated → Direction → Bool → Status → List ℕ → Stored → ClientMsg → State → Option Done
note a dir update rc id stored m s =
    let noted = put_entry (note_dest a.dest_id id stored) s in
    if not (is_noted s.db.config dir m.retain)
    then finish dir update rc m.qos s
    else if not a.dest_ids
    then some (record { code = err nomem; state = s })
    else if a.dest_id
    then finish dir update rc m.qos noted
    else some (record { code = err nomem; state = noted })

-- What follows the choice of the state, for the entry as it was found
abbrev pub accept :
    Allocated → Bool → Status → List ℕ → Stored → ℕ → ClientMsg → State → Option Done
accept a update rc id stored qos m s =
    let counted = record stored { ref_count = int_add stored.ref_count 1 } in
    let s' =
      set_dir m.direction (enlist m qos stored.payloadlen (msgs_of m.direction s.context))
        (put_entry counted s) in
    if is_invalid m.state
    then none
    else if not a.msg
    then some (record { code = err nomem; state = s })
    else note a m.direction update rc id counted m s'

-- What a call is asked to do
pub record Asked : Type 0 where
  pub mid : ℕ
  pub dir : Direction
  pub qos : ℕ
  pub retain : Bool
  pub update : Bool

abbrev pub new_msg : Asked → Stored → MsgState → State → ClientMsg
new_msg q stored state s = record {
  store = stored.db_id;
  timestamp = s.db.now_s;
  mid = q.mid;
  qos = capped s.context.max_qos q.qos;
  retain = q.retain;
  direction = q.dir;
  state = state;
  dup = false;
}

abbrev pub judged : Verdict → Allocated → Asked → List ℕ → Stored → State → Option Done
judged dropped a q id stored s = some (record {
  code = err protocol;
  state = record s { context = record s.context { is_dropping = true } };
})
judged (refused e) a q id stored s = some (record { code = err e; state = s })
judged (accepted state rc) a q id stored s =
    accept a q.update rc id stored q.qos (new_msg q stored state s) s

-- What follows the test for duplicates
abbrev pub judge : Option Bool → Allocated → Asked → List ℕ → Stored → State → Option Done
judge none a q id stored s = none
judge (some true) a q id stored s = some (record { code = success; state = s })
judge (some false) a q id stored s =
    if is_refused s.db.config s.context q.qos
    then some (record { code = err protocol; state = s })
    else judged (verdict s.db.config s.context q.dir q.qos) a q id stored s

abbrev pub insert_for : Option (List ℕ) → Allocated → Asked → Stored → State → Option Done
insert_for none a q stored s = some (record { code = success; state = s })
insert_for (some id) a q stored s =
    let seen =
      if not (is_mqtt5 s.context.protocol) && is_noted s.db.config q.dir q.retain
      then was_sent_to id stored.dest_ids
      else some false in
    judge seen a q id stored s

-- `db__message_insert`, for the entry `id` of the store
unfoldable pub message_insert : Allocated → Asked → ℕ → State → Option Done
message_insert a q id s = elim (find_stored id s.db.msg_store) [
  | none ↦ none
  | some stored ↦ insert_for s.context.id a q stored s
]
