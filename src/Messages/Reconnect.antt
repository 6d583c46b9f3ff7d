-- ===== src/Messages/Reconnect.antt =====
-- `message__reconnect_reset` and `message__retry_check` of lib/messages_dimq.c: after the connection was
-- made again.
use dimq.Messages.{
  wait_for_pubrec, publish_qos2, wait_for_pubcomp, resend_pubrel, wait_for_pubrel, publish_qos1,
  Message, MsgState, invalid, MsgData, Client, increment, decrement_quota,
}
use dimq.Prelude.{ℕ, ◌==◌, Bool, true, ltb, List, [], ◌∷◌, Option, none, some, if◌then◌else◌}

-- `message__reconnect_reset` for `msgs_in`: the quota, the length and the messages that stay.
unfoldable pub reset_in : List Message → ℕ → ℕ → ℕ × ℕ × List Message
reset_in [] quota len = (quota, len, [])
reset_in (m ∷ ms) quota len =
    let keeps = m.qos == 2 in
    let (q, l, rest) =
      reset_in ms (if keeps then decrement_quota quota else quota) (increment len) in
    (q, l, if keeps then record m { timestamp = 0 } ∷ rest else rest)

-- The state from which a message is sent again.
abbrev pub resumed : ℕ → MsgState → MsgState
resumed qos state =
    if qos == 1
    then publish_qos1
    else (if qos == 2
        then (elim state [
          | wait_for_pubrec ↦ publish_qos2
          | wait_for_pubcomp ↦ resend_pubrel
          | s ↦ s
        ])
        else state)

-- `message__reconnect_reset` for `msgs_out`
unfoldable pub reset_out : Bool → List Message → ℕ → ℕ → ℕ × ℕ × List Message
reset_out update_quota_only [] quota len = (quota, len, [])
reset_out update_quota_only (m ∷ ms) quota len =
    let (q, l, rest) = reset_out update_quota_only ms (decrement_quota quota) (increment len) in
    let state =
      if ltb 0 quota
      then (if update_quota_only then m.state else resumed m.qos m.state)
      else invalid in
    (q, l, record m { timestamp = 0; state = state } ∷ rest)

unfoldable pub reset_msgs_in : MsgData → MsgData
reset_msgs_in d =
    let (quota, len, ms) = reset_in d.inflight d.inflight_maximum 0 in
    record d { inflight = ms; queue_len = len; inflight_quota = quota }

unfoldable pub reset_msgs_out : Bool → MsgData → MsgData
reset_msgs_out update_quota_only d =
    let (quota, len, ms) = reset_out update_quota_only d.inflight d.inflight_maximum 0 in
    record d { inflight = ms; queue_len = len; inflight_quota = quota }

abbrev pub reconnect_reset : Bool → Client → Client
reconnect_reset update_quota_only c = record c {
  msgs_in = reset_msgs_in c.msgs_in;
  msgs_out = reset_msgs_out update_quota_only c.msgs_out;
}

-- What `message__retry_check` sends
pub data Retry : Type 0 where
  publish : Message → Retry
  pubrec pubrel : ℕ → Retry

abbrev pub retry : Message → Option Retry
retry m = elim m.state [
  | publish_qos1 ↦ some (publish m)
  | publish_qos2 ↦ some (publish m)
  | wait_for_pubrel ↦ some (pubrec m.mid)
  | resend_pubrel ↦ some (pubrel m.mid)
  | wait_for_pubcomp ↦ some (pubrel m.mid)
  | s ↦ none
]

-- `message__retry_check`
unfoldable pub retry_check : ℕ → List Message → List Message × List Retry
retry_check now [] = ([], [])
retry_check now (m ∷ ms) =
    let (rest, sent) = retry_check now ms in
    let again = record m { timestamp = now; dup = true } in
    elim (retry again) [ none ↦ (m ∷ rest, sent) | some r ↦ (again ∷ rest, r ∷ sent) ]
