-- ===== src/Database/Tests.antt =====
-- Runs of the message database on concrete clients, and instances of what is proved.
use dimq.Database.Send.{
  write_inflight_out_single, write_each, walk_back, write_inflight_out_latest, message_remove,
  State, Done,
}
use dimq.Database.Store.{drop_stored, msg_store_remove, msg_store_ref_dec, find_stored}
use dimq.Database.Reachable.{later, stops, moves, passes, acknowledges, Reaches-IsRight}
use dimq.Database.Ledger.{holds, number12}
use dimq.Database.Counts.{refs}
use dimq.Prelude.{map, length, List, [], ◌∷◌, ℕ, ◌≡◌, refl, true, false, Option, none, some, arith}
use dimq.Database.Insert.{Allocated, message_insert}
use dimq.Result.{fault}
use dimq.Messages.{MsgState, md_out, Net}
use dimq.Subs.Join.{Protocol}
use dimq.Database.{ClientMsg, Context, Db, Stored, MsgData}
use dimq.Database.Kept.{IsRight, IsDone}
use dimq.Database.Acknowledged.{delete_outgoing-IsDone}
use dimq.Database.Judged.{IsInsertable, message_insert-IsDone}
use dimq.Database.Reset.{reset_outgoing}
use dimq.Database.Recounted.{IsReferenced, reset_outgoing-IsRight}
use dimq.Database.Overfilled.{delete_outgoing_overfills}
use dimq.Database.Out.{delete_outgoing, found, find_outgoing, fill_inflight}

abbrev entry : ℕ → Stored
entry id = record {
  db_id = id;
  ref_count = 1;
  payloadlen = 5;
  message_expiry_time = 0;
  source_mid = 0;
  qos = 1;
  dest_ids = [];
}

abbrev message : ℕ → MsgState → ClientMsg
message mid state = record {
  store = mid;
  timestamp = 0;
  mid = mid;
  qos = 1;
  retain = false;
  direction = md_out;
  state = state;
  dup = false;
}

abbrev empty : MsgData
empty = record {
  inflight = [];
  queued = [];
  msg_bytes = 0;
  msg_bytes12 = 0;
  msg_count = 0;
  msg_count12 = 0;
  inflight_quota = 1;
  inflight_maximum = 1;
}

abbrev busy : MsgData
busy = record {
  inflight = message 1 MsgState.wait_for_puback ∷ [];
  queued = message 2 MsgState.queued ∷ [];
  msg_bytes = 10;
  msg_bytes12 = 10;
  msg_count = 2;
  msg_count12 = 2;
  inflight_quota = 0;
  inflight_maximum = 1;
}

abbrev client : MsgData → Context
client d = record {
  id = some (99 ∷ []);
  protocol = Protocol.mqtt5;
  has_sock = true;
  is_active = true;
  clean_start = false;
  max_qos = 2;
  is_dropping = false;
  out_packet_count = 0;
  bridge = none;
  msgs_in = empty;
  msgs_out = d;
}

abbrev database : List Stored → Db
database store = record {
  msg_store = store;
  msg_store_count = 2;
  msg_store_bytes = 10;
  last_db_id = 3;
  now_s = 7;
  now_real_s = 7;
  config = record {
    max_inflight_bytes = 0;
    max_queued_bytes = 0;
    max_queued_messages = 1000;
    queue_qos0_messages = false;
    allow_duplicate_messages = false;
  };
}

abbrev taken : Net
taken i = none

-- One message is in flight, one is queued, and one is in the store for nobody.
abbrev start : State
start = record {
  context = client busy;
  db = database (record (entry 3) { ref_count = 0 } ∷ entry 2 ∷ entry 1 ∷ []);
  net = taken;
  published = [];
}

abbrev nowhere : ℕ → ℕ
nowhere x = 0

start-IsRight : IsRight nowhere start
unfolding number12 holds refs
start-IsRight = record {
  count = refl;
  count12 = refl;
  counted = λ x. ground arith;
  small = λ x. ground arith;
  distinct = (
    ((λ e. ground (arith, e)), ((λ e. ground (arith, e)), tt)),
    (((λ e. ground (arith, e)), tt), (tt, tt)),
  );
}

-- The state of a test
abbrev store_ids : State → List ℕ
store_ids s = map (λ (e : Stored). e.db_id) s.db.msg_store

abbrev flight_ids : State → List ℕ
flight_ids s = map (λ (m : ClientMsg). m.mid) s.context.msgs_out.inflight

abbrev outcome : Option Done → Option (List ℕ × List ℕ)
outcome none = none
outcome (some r) = some (store_ids r.state, flight_ids r.state)

-- The acknowledgement of the first message frees its entry and sends the second.
acknowledged_run :
    outcome (delete_outgoing 1 MsgState.wait_for_puback 1 start) ≡ some (3 ∷ 2 ∷ [], 2 ∷ [])
unfolding delete_outgoing find_outgoing message_remove msg_store_ref_dec msg_store_remove
    find_stored drop_stored fill_inflight write_inflight_out_latest walk_back write_each
    write_inflight_out_single
acknowledged_run = refl

delete_outgoing-IsDone_example : IsDone nowhere (delete_outgoing 1 MsgState.wait_for_puback 1 start)
delete_outgoing-IsDone_example =
    delete_outgoing-IsDone nowhere 1 MsgState.wait_for_puback 1 start start-IsRight

abbrev all_given : Allocated
all_given = record { msg = true; dest_ids = true; dest_id = true }

start-IsInsertable :
    IsInsertable 3
      (record (entry 3) { ref_count = 0 })
      (record { mid = 3; dir = md_out; qos = 1; retain = false; update = true })
      start
unfolding find_stored refs
start-IsInsertable = record {
  out = refl;
  qos = omega arith;
  allowed = omega arith;
  is_there = refl;
  room = omega arith;
  copied = tt;
}

message_insert-IsDone_example : IsDone nowhere (
    message_insert all_given
      (record { mid = 3; dir = md_out; qos = 1; retain = false; update = true })
      3
      start)
message_insert-IsDone_example =
    message_insert-IsDone nowhere all_given 3 1 false true (record (entry 3) { ref_count = 0 })
      start start-IsInsertable start-IsRight

abbrev result_of : Option Done → Done
result_of none = record { code = fault; state = start }
result_of (some r) = r

-- After the acknowledgement of the first message, and a while without a connection
abbrev acked : Done
acked = result_of (delete_outgoing 1 MsgState.wait_for_puback 1 start)

acked_lem : delete_outgoing 1 MsgState.wait_for_puback 1 start ≡ some acked
unfolding delete_outgoing find_outgoing message_remove msg_store_ref_dec msg_store_remove
    find_stored drop_stored fill_inflight write_inflight_out_latest walk_back write_each
    write_inflight_out_single
acked_lem = refl

Reaches-IsRight_example : IsRight nowhere (later 8 8 false false taken acked.state)
Reaches-IsRight_example =
    Reaches-IsRight nowhere
      (moves start acked.state (later 8 8 false false taken acked.state)
        (moves start start acked.state (stops start)
          (acknowledges 1 MsgState.wait_for_puback 1 start acked acked_lem))
        (passes 8 8 false false taken acked.state))
      start-IsRight

delete_outgoing_overfills_example :
    (find_outgoing 1 MsgState.wait_for_puback 1 busy.inflight
      ≡ found 0 (message 1 MsgState.wait_for_puback) [])
    × (length (fill_inflight 7 0 busy.queued (record busy { inflight = [] })).inflight ≡ 1)
delete_outgoing_overfills_example =
    delete_outgoing_overfills 7 MsgState.wait_for_puback (message 1 MsgState.wait_for_puback) []
      busy refl refl (omega arith) (omega arith)

start-IsReferenced : IsReferenced nowhere start
start-IsReferenced = record {
  counted = start-IsRight.counted;
  small = start-IsRight.small;
  distinct = start-IsRight.distinct;
}

reset_outgoing-IsRight_example : (t : State) × (reset_outgoing start ≡ some t) × IsRight nowhere t
reset_outgoing-IsRight_example = reset_outgoing-IsRight nowhere start start-IsReferenced
