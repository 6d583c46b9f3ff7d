-- ===== src/Database/Overfilled.antt =====
-- How many messages `db__message_delete_outgoing` of src/database.c puts in flight.
use dimq.Prelude.{
  leb, ◌&&◌, not, Bool-cases, ◌==◌, length-append, length, List, [], ◌∷◌, ℕ, suc, ◌+◌, ◌-◌, ◌≡◌,
  ◌≢◌, ◌≤◌, ◌<◌, inl, inr, refl, arith, true, false, min,
}
use dimq.Messages.{MsgState}
use dimq.Database.{ClientMsg, MsgData}
use dimq.Database.Out.{found, find_outgoing, fill_inflight, dequeue_first, ready}

pub fill_inflight-length :
    (now index : ℕ) (q : List ClientMsg) (d : MsgData)
    → d.inflight_maximum ≢ 0
    → length (fill_inflight now index q d).inflight
      ≡ length d.inflight + min (d.inflight_maximum - index) (length q)
unfolding fill_inflight
fill_inflight-length now index [] d nonzero = omega arith
fill_inflight-length now index (m ∷ q) d nonzero =
    let m' = ready (record m { timestamp = now }) in
    let ih = fill_inflight-length now (suc index) q (dequeue_first m' q d) nonzero in
    let one = length-append d.inflight (m' ∷ []) in
    elim (Bool-cases (not (d.inflight_maximum == 0) && leb d.inflight_maximum index)) [
      | inl t ↦
          let full : d.inflight_maximum ≤ index = ground (arith, t, nonzero) in
          rw t (omega (arith, full))
      | inr t ↦
          let room : index < d.inflight_maximum = ground (arith, t, nonzero) in
          rw (t, ih, one) (omega (arith, room))
    ]

-- Where as many messages are in flight as may be, and at least as many wait in the queue: the
-- acknowledgement of the first message, by its id and a QoS other than 2, finds it, and the loop over
-- the queue that follows puts as many more in flight as may be in all, so that twice the maximum less
-- one are in flight.
pub delete_outgoing_overfills :
    (now : ℕ) (expect_state : MsgState) (m : ClientMsg) (ms : List ClientMsg) (d : MsgData)
    → d.inflight ≡ m ∷ ms
    → length (m ∷ ms) ≡ d.inflight_maximum
    → d.inflight_maximum ≤ length d.queued
    → m.qos ≢ 2
    → (find_outgoing m.mid expect_state m.qos d.inflight ≡ found 0 m ms)
      × (length (fill_inflight now 0 d.queued (record d { inflight = ms })).inflight
          ≡ d.inflight_maximum + (d.inflight_maximum - 1))
unfolding find_outgoing
delete_outgoing_overfills now expect_state m ms d same full waiting qos =
    let t : (m.mid == m.mid) ≡ true = ground arith in
    let u : (m.qos == m.qos) ≡ true = ground arith in
    let w : (m.qos == 2) ≡ false = ground (arith, qos) in
    let len =
      fill_inflight-length now 0 d.queued (record d { inflight = ms }) (omega (arith, full)) in
    (rw (same, find_outgoing, t, u, w) refl, omega (arith, len, full, waiting))
