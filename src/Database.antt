-- ===== src/Database.antt =====
-- src/database.c: the messages that the broker keeps for a client, and the store of messages that they
-- share. A pointer to a stored message is its db_id; `none` of an option is a fault, a pointer to a
-- message that was freed. Signed numbers of C are kept modulo 2^32 and 2^64.
use dimq.Messages.{MsgState, Direction, md_in, md_out}
use dimq.Subs.Join.{Protocol}
use dimq.Prelude.{
  ℕ, ◌+◌, ◌-◌, ◌%◌, ◌==◌, Bool, true, false, not, ◌&&◌, ◌||◌, ltb, List, Option, none, some,
  if◌then◌else◌,
}
pub mod Store
pub mod Send
pub mod Out
pub mod Counts
pub mod Ledger
pub mod Walk
pub mod Written
pub mod Kept
pub mod Acknowledged
pub mod Insert
pub mod Reset
pub mod Recounted
pub mod Incoming
pub mod Inserted
pub mod Enlisted
pub mod Judged
pub mod Reachable
pub mod Overfilled
mod Tests

-- `struct dimq_msg_store`, without what is only handed on. An entry of `dest_ids` is NULL where the copy
-- of the id could not be allocated.
pub record Stored : Type 0 where
  pub db_id : ℕ
  pub ref_count : ℕ
  pub payloadlen : ℕ
  pub message_expiry_time : ℕ
  pub source_mid : ℕ
  pub qos : ℕ
  pub dest_ids : List (Option (List ℕ))

-- `struct dimq_client_msg`
pub record ClientMsg : Type 0 where
  pub store : ℕ
  pub timestamp : ℕ
  pub mid : ℕ
  pub qos : ℕ
  pub retain : Bool
  pub direction : Direction
  pub state : MsgState
  pub dup : Bool

-- `struct dimq_msg_data` of the broker
pub record MsgData : Type 0 where
  pub inflight : List ClientMsg
  pub queued : List ClientMsg
  pub msg_bytes : ℕ
  pub msg_bytes12 : ℕ
  pub msg_count : ℕ
  pub msg_count12 : ℕ
  pub inflight_quota : ℕ
  pub inflight_maximum : ℕ

-- `struct dimq__bridge`, as far as it is read or written here
pub record Bridge : Type 0 where
  pub is_lazy : Bool
  pub clean_start : Bool
  pub clean_start_local : Bool
  pub threshold : ℕ
  pub lazy_reconnect : Bool

-- `struct dimq`, as far as it is read or written here: whether there is a socket, and whether the state
-- is dimq_cs_active
pub record Context : Type 0 where
  pub id : Option (List ℕ)
  pub protocol : Protocol
  pub has_sock : Bool
  pub is_active : Bool
  pub clean_start : Bool
  pub max_qos : ℕ
  pub is_dropping : Bool
  pub out_packet_count : ℕ
  pub bridge : Option Bridge
  pub msgs_in : MsgData
  pub msgs_out : MsgData

-- What is read of `struct dimq__config`
pub record Config : Type 0 where
  pub max_inflight_bytes : ℕ
  pub max_queued_bytes : ℕ
  pub max_queued_messages : ℕ
  pub queue_qos0_messages : Bool
  pub allow_duplicate_messages : Bool

-- `struct dimq_db`, as far as messages are concerned: `msg_store`, its counters, and the clock
pub record Db : Type 0 where
  pub msg_store : List Stored
  pub msg_store_count : ℕ
  pub msg_store_bytes : ℕ
  pub last_db_id : ℕ
  pub now_s : ℕ
  pub now_real_s : ℕ
  pub config : Config

-- `a < b` and `a - b` of `int`, and of `long` and `ssize_t`
abbrev pub int_ltb : ℕ → ℕ → Bool
int_ltb a b = ltb ((a + 2147483648) % 4294967296) ((b + 2147483648) % 4294967296)

abbrev pub int_sub : ℕ → ℕ → ℕ
int_sub a b = (a + (4294967296 - b % 4294967296)) % 4294967296

abbrev pub int_add : ℕ → ℕ → ℕ
int_add a b = (a + b) % 4294967296

abbrev pub long_ltb : ℕ → ℕ → Bool
long_ltb a b =
    ltb ((a + 9223372036854775808) % 18446744073709551616)
      ((b + 9223372036854775808) % 18446744073709551616)

abbrev pub long_sub : ℕ → ℕ → ℕ
long_sub a b = (a + (18446744073709551616 - b % 18446744073709551616)) % 18446744073709551616

abbrev pub long_add : ℕ → ℕ → ℕ
long_add a b = (a + b) % 18446744073709551616

abbrev pub msgs_of : Direction → Context → MsgData
msgs_of md_out c = c.msgs_out
msgs_of md_in c = c.msgs_in

abbrev pub set_msgs : Direction → MsgData → Context → Context
set_msgs md_out d c = record c { msgs_out = d }
set_msgs md_in d c = record c { msgs_in = d }

abbrev pub queue_length : Direction → Context → ℕ
queue_length md_out c = c.out_packet_count
queue_length md_in c = int_sub c.msgs_in.msg_count c.msgs_in.inflight_maximum

-- `db__ready_for_flight`
unfoldable pub ready_for_flight : Config → Context → Direction → ℕ → Bool
ready_for_flight k c dir qos =
    let d = msgs_of dir c in
    let bytes0 = long_ltb (long_sub d.msg_bytes k.max_inflight_bytes) k.max_queued_bytes in
    let count0 = int_ltb (queue_length dir c) k.max_queued_messages in
    let bytes12 = long_ltb d.msg_bytes12 k.max_inflight_bytes in
    let count12 = ltb 0 d.inflight_quota in
    if d.inflight_maximum == 0 && k.max_inflight_bytes == 0
    then true
    else if qos == 0
    then (if k.max_queued_messages == 0 && k.max_inflight_bytes == 0
        then true
        else if k.max_queued_messages == 0
        then bytes0
        else if k.max_queued_bytes == 0
        then count0
        else bytes0 && count0)
    else (if d.inflight_maximum == 0
        then bytes12
        else if k.max_inflight_bytes == 0
        then count12
        else bytes12 && count12)

-- `db__ready_for_queue`
unfoldable pub ready_for_queue : Config → Context → ℕ → MsgData → Bool
ready_for_queue k c qos d =
    let adjust_bytes = if c.has_sock then k.max_inflight_bytes else 0 in
    let adjust_count = if c.has_sock then d.inflight_maximum else 0 in
    let valid_bytes = long_ltb (long_sub d.msg_bytes12 adjust_bytes) k.max_queued_bytes in
    let valid_count = int_ltb (int_sub d.msg_count12 adjust_count) k.max_queued_messages in
    if k.max_queued_messages == 0 && k.max_queued_bytes == 0
    then true
    else if qos == 0 && not k.queue_qos0_messages
    then false
    else if k.max_queued_bytes == 0
    then valid_count
    else if k.max_queued_messages == 0
    then valid_bytes
    else valid_bytes && valid_count
