-- ===== src/Messages/Tests.antt =====
-- Witnesses for lib/messages_dimq.c: a client that may have one message in flight sends two of QoS 1,
-- and the first is acknowledged.
use dimq.Messages.Reconnect.{reset_out, reset_msgs_out}
use dimq.Messages.{
  publish_qos1, Message, invalid, MsgData, Net, release, release_to_inflight, append, remove_from,
  acknowledge, to_send,
}
use dimq.Messages.Release.{AllQos, waiting, release_sends}
use dimq.Messages.Balance.{flying}
use dimq.Messages.Queue.{
  Run, done, then, publish, puback, reconnect, connack, connacked, fresh, run_balanced,
}
use dimq.Messages.Progress.{acknowledge_sends_next}
use dimq.Messages.Ids.{mid_after, mid_generate_distinct}
use dimq.Result.{ok, success}
use dimq.Prelude.{
  ℕ, ◌+◌, ◌-◌, ◌%◌, ◌≤◌, ◌<◌, ◌≡◌, ◌≢◌, inl, false, List, [], ◌∷◌, map, take, drop, length, none,
  arith, refl,
}

abbrev message : ℕ → Message
message mid = record {
  mid = mid;
  qos = 1;
  state = invalid;
  dup = false;
  timestamp = 0;
  sent = mid ∷ [];
}

abbrev open_net : Net
open_net i = none

abbrev both : List Message
both = message 1 ∷ message 2 ∷ []

release_sends_example :
    let r = release both 1 open_net in
    (r.code ≡ success)
    × (r.published ≡ map to_send (take 1 (waiting both)))
    × (r.quota ≡ 1 - length r.published)
    × (waiting r.messages ≡ drop 1 (waiting both))
release_sends_example = release_sends both 1 open_net (λ i. refl) (inl refl, (inl refl, tt))

-- After both were published
abbrev busy : MsgData
busy =
    (release_to_inflight
      (append (release_to_inflight (append (fresh 1) (message 1)) open_net).1 (message 2))
      open_net).1

busy_found : remove_from 1 1 busy.inflight ≡ ok (to_send (message 1), message 2 ∷ [])
unfolding remove_from release_to_inflight release
busy_found = refl

busy-Run : Run (fresh 1) busy
busy-Run = then (then done (publish (fresh 1) (message 1) open_net (inl refl) refl (λ i. refl))) (
    publish (release_to_inflight (append (fresh 1) (message 1)) open_net).1 (message 2) open_net
      (inl refl) refl (λ i. refl))

-- The connection is made again: the first message is sent again, and a CONNACK leaves the maximum.
abbrev again : MsgData
again = connacked 1 (reset_msgs_out false busy)

again-Run : Run (fresh 1) again
unfolding reset_msgs_out reset_out release_to_inflight release
again-Run =
    then
      (then busy-Run
        (reconnect busy ((λ e. absurd (omega (arith, e))), ((λ e. absurd (omega (arith, e))), tt))))
      (connack (reset_msgs_out false busy) 1 (refl, tt))

again_found :
    remove_from 1 1 again.inflight
    ≡ ok (
      record (message 1) { state = publish_qos1; timestamp = 0 },
      record (message 2) { timestamp = 0 } ∷ [],
    )
unfolding remove_from reset_msgs_out reset_out release_to_inflight release connacked
again_found = refl

run_balanced_example :
    let d = (acknowledge 1 1 again open_net).1 in
    (flying d.inflight ≤ d.inflight_maximum)
    × (d.inflight_quota + flying d.inflight ≡ d.inflight_maximum)
    × (d.queue_len ≡ length d.inflight % 4294967296)
run_balanced_example = run_balanced 1 (acknowledge 1 1 again open_net).1 (
    then again-Run (
      puback again 1 1 (record (message 1) { state = publish_qos1; timestamp = 0 })
        (record (message 2) { timestamp = 0 } ∷ []) open_net again_found refl (λ i. refl)))

busy-AllQos : AllQos busy.inflight
unfolding release_to_inflight release
busy-AllQos = (inl refl, (inl refl, tt))

busy_full : (busy.inflight_quota ≡ 0) × (0 < busy.inflight_maximum)
unfolding release_to_inflight release
busy_full = (refl, omega arith)

acknowledge_sends_next_example :
    ((acknowledge 1 1 busy open_net).0 ≡ success)
    × ((acknowledge 1 1 busy open_net).2 ≡ map to_send (take 1 (waiting busy.inflight)))
    × (waiting (acknowledge 1 1 busy open_net).1.inflight ≡ drop 1 (waiting busy.inflight))
acknowledge_sends_next_example =
    acknowledge_sends_next busy 1 1 (to_send (message 1)) (message 2 ∷ []) open_net busy_found refl
      busy-AllQos (λ i. refl) busy_full.0 busy_full.1

mid_generate_distinct_example :
    (0 < mid_after 65534 1) × (mid_after 65534 1 < 65536) × (mid_after 65534 1 ≢ mid_after 65534 3)
mid_generate_distinct_example =
    mid_generate_distinct 65534 0 2 (omega arith) (omega arith) (omega arith)
