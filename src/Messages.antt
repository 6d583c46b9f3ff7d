-- ===== src/Messages.antt =====
-- lib/messages_dimq.c: the messages of a client that wait for an acknowledgement, with the quotas and
-- the message ids of lib/util_dimq.c. What `send__publish` answers for the calls to come is a parameter,
-- a stream. The list is `inflight`; `int queue_len` is kept modulo 2^32.
use dimq.Result.{Err, Result, Status, ok, err, fault, success, protocol, not_found}
use dimq.Prelude.{
  ℕ, zero, suc, ◌+◌, ◌-◌, ◌%◌, ◌==◌, Bool, true, false, not, ◌&&◌, ltb, List, [], ◌∷◌, ◌++◌, map,
  Option, none, some, if◌then◌else◌,
}
pub mod Queue
pub mod Release
pub mod Balance
pub mod Reset
pub mod Reconnect
pub mod Ids
pub mod Progress
mod Tests

-- `enum dimq_msg_state`
pub data MsgState : Type 0 where
  invalid publish_qos0 publish_qos1 wait_for_puback publish_qos2 wait_for_pubrec : MsgState
  resend_pubrel wait_for_pubrel resend_pubcomp wait_for_pubcomp send_pubrec queued : MsgState

-- `struct dimq_message_all`, with the parts of its `msg` that are read or written here. `sent` stands
-- for what is handed to `send__publish` unchanged: topic, payload, retain flag and properties.
pub record Message : Type 0 where
  pub mid : ℕ
  pub qos : ℕ
  pub state : MsgState
  pub dup : Bool
  pub timestamp : ℕ
  pub sent : List ℕ

-- `struct dimq_msg_data` of the client
pub record MsgData : Type 0 where
  pub inflight : List Message
  pub queue_len : ℕ
  pub inflight_quota : ℕ
  pub inflight_maximum : ℕ

-- `msgs_in` and `msgs_out` of `struct dimq`
pub record Client : Type 0 where
  pub msgs_in : MsgData
  pub msgs_out : MsgData
  pub last_mid : ℕ

-- `enum dimq_msg_direction`
pub data Direction : Type 0 where
  md_in md_out : Direction

-- The answers of `send__publish` to come; `none` is success.
abbrev pub Net : Type 0
Net = ℕ → Option Err

abbrev pub rest_of : Net → Net
rest_of net i = net (suc i)

-- `++` and `--` on an `int`
abbrev pub increment : ℕ → ℕ
increment n = (n + 1) % 4294967296

abbrev pub decrement : ℕ → ℕ
decrement n = (n + 4294967295) % 4294967296

-- `util__increment_send_quota` and `util__increment_receive_quota`
abbrev pub increment_quota : ℕ → ℕ → ℕ
increment_quota maximum quota = if ltb quota maximum then quota + 1 else quota

-- `util__decrement_send_quota` and `util__decrement_receive_quota`
abbrev pub decrement_quota : ℕ → ℕ
decrement_quota quota = if ltb 0 quota then quota - 1 else quota

abbrev pub is_invalid : MsgState → Bool
is_invalid invalid = true
is_invalid s = false

-- A message that has not been sent yet: `cur->msg.qos > 0 && cur->state == dimq_ms_invalid`
abbrev pub is_waiting : Message → Bool
is_waiting m = ltb 0 m.qos && is_invalid m.state

abbrev pub to_send : Message → Message
to_send m =
    if m.qos == 1
    then record m { state = wait_for_puback }
    else (if m.qos == 2 then record m { state = wait_for_pubrec } else m)

-- What a call of `message__release_to_inflight` leaves
pub record Released : Type 0 where
  pub code : Status
  pub quota : ℕ
  pub messages : List Message
  pub published : List Message
  pub net : Net

abbrev pub behind : Message → Released → Released
behind m r = record r { messages = m ∷ r.messages }

abbrev pub sent_before : Message → Released → Released
sent_before m r = record r { messages = m ∷ r.messages; published = m ∷ r.published }

-- The loop of `message__release_to_inflight`: the state of the message is changed before it is sent.
unfoldable pub release : List Message → ℕ → Net → Released
release [] quota net = record {
  code = success;
  quota = quota;
  messages = [];
  published = [];
  net = net;
}
release (m ∷ ms) quota net =
    let sends = is_waiting m in
    let rest =
      release ms (if sends then decrement_quota quota else quota)
        (if sends then rest_of net else net) in
    if ltb 0 quota
    then (if sends
        then (elim (net 0) [
          | some e ↦ record {
            code = err e;
            quota = quota;
            messages = to_send m ∷ ms;
            published = to_send m ∷ [];
            net = rest_of net;
          }
          | none ↦ sent_before (to_send m) rest
        ])
        else behind m rest)
    else record { code = success; quota = quota; messages = m ∷ ms; published = []; net = net }

-- `message__release_to_inflight(dimq, dimq_md_out)`; the other direction has nothing to do.
unfoldable pub release_to_inflight : MsgData → Net → Status × MsgData × List Message × Net
release_to_inflight d net =
    let r = release d.inflight d.inflight_quota net in
    (r.code, record d { inflight = r.messages; inflight_quota = r.quota }, r.published, r.net)

abbrev pub append : MsgData → Message → MsgData
append d m = record d { inflight = d.inflight ++ m ∷ []; queue_len = increment d.queue_len }

-- `message__queue`: its `assert` is that the QoS is not 0.
unfoldable pub message_queue :
    Client → Message → Direction → Net → Status × Client × List Message × Net
message_queue c m md_out net =
    if m.qos == 0
    then (fault, c, [], net)
    else (let (code, d, sent, net') = release_to_inflight (append c.msgs_out m) net in
        (code, record c { msgs_out = d }, sent, net'))
message_queue c m md_in net =
    if m.qos == 0
    then (fault, c, [], net)
    else (success, record c { msgs_in = append c.msgs_in m }, [], net)

abbrev pub past : Message → Result (Message × List Message) → Result (Message × List Message)
past m (ok (found, ms)) = ok (found, m ∷ ms)
past m (err e) = err e
past m fault = fault

-- The loop of `message__remove`: the first message with the id, and the others.
unfoldable pub remove_from : ℕ → ℕ → List Message → Result (Message × List Message)
remove_from mid qos [] = err not_found
remove_from mid qos (m ∷ ms) =
    let rest = remove_from mid qos ms in
    if m.mid == mid then (if m.qos == qos then ok (m, ms) else err protocol) else past m rest

-- `message__remove` on the data of one direction
unfoldable pub remove : ℕ → ℕ → MsgData → Result Message × MsgData
remove mid qos d = elim (remove_from mid qos d.inflight) [
  | ok r ↦ (ok r.0, record d { inflight = r.1; queue_len = decrement d.queue_len })
  | err e ↦ (err e, d)
  | fault ↦ (fault, d)
]

-- `message__out_update`
unfoldable pub out_update : ℕ → MsgState → ℕ → ℕ → List Message → Status × List Message
out_update mid state qos now [] = (err not_found, [])
out_update mid state qos now (m ∷ ms) =
    let (code, rest) = out_update mid state qos now ms in
    if m.mid == mid
    then (if m.qos == qos
        then (success, record m { state = state; timestamp = now } ∷ ms)
        else (err protocol, m ∷ ms))
    else (code, m ∷ rest)

-- What `handle__pubackcomp` of lib/handle_pubackcomp.c does in a client with the answer of
-- `message__delete`: an id that is not known is no error.
abbrev pub acknowledged : Result Message × MsgData → Net → Status × MsgData × List Message × Net
acknowledged (ok m, d) net =
    let (code, d', sent, net') = release_to_inflight d net in (success, d', sent, net')
acknowledged (err not_found, d) net =
    let (code, d', sent, net') = release_to_inflight d net in (success, d', sent, net')
acknowledged (err e, d) net = (err e, d, [], net)
acknowledged (fault, d) net = (fault, d, [], net)

-- And what it does to `msgs_out` in all, for a packet with the id `mid`: the quota first.
unfoldable pub acknowledge : ℕ → ℕ → MsgData → Net → Status × MsgData × List Message × Net
acknowledge mid qos d net =
    acknowledged
      (remove mid qos
        (record d { inflight_quota = increment_quota d.inflight_maximum d.inflight_quota }))
      net

-- `dimq__mid_generate`
unfoldable pub mid_generate : ℕ → ℕ
mid_generate last_mid =
    let next = (last_mid + 1) % 65536 in if next == 0 then (next + 1) % 65536 else next
