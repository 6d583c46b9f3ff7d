-- ===== src/Messages/Reset.antt =====
-- `message__reconnect_reset` of lib/messages_dimq.c on `msgs_out`: quota, length and states.
use dimq.Prelude.{
  ℕ, zero, suc, ◌+◌, ◌%◌, ◌<◌, ◌≡◌, inl, inr, true, false, ltb, List, [], ◌∷◌, length, arith, refl,
  ap,
}
use dimq.Messages.Reconnect.{reset_out, resumed}
use dimq.Messages.{
  Message, MsgState, invalid, publish_qos0, publish_qos1, wait_for_puback, publish_qos2,
  wait_for_pubrec, resend_pubrel, wait_for_pubrel, resend_pubcomp, wait_for_pubcomp, send_pubrec,
  queued, is_invalid, decrement_quota, increment,
}
use dimq.Messages.Release.{IsQos, AllQos}
use dimq.Messages.Balance.{flying, weight}

-- No message of QoS 2 is still to be sent for the first time.
abbrev pub AllSettled : List Message → Type 0
AllSettled [] = Unit
AllSettled (m ∷ ms) = (m.qos ≡ 2 → is_invalid m.state ≡ false) × AllSettled ms

weight-resumed : (s : MsgState) → is_invalid s ≡ false → weight (resumed 2 s) ≡ 1
weight-resumed invalid e = cc
weight-resumed publish_qos0 e = refl
weight-resumed publish_qos1 e = refl
weight-resumed wait_for_puback e = refl
weight-resumed publish_qos2 e = refl
weight-resumed wait_for_pubrec e = refl
weight-resumed resend_pubrel e = refl
weight-resumed wait_for_pubrel e = refl
weight-resumed resend_pubcomp e = refl
weight-resumed wait_for_pubcomp e = refl
weight-resumed send_pubrec e = refl
weight-resumed queued e = refl

one_more :
    (m : Message)
    → IsQos m
    → (m.qos ≡ 2 → is_invalid m.state ≡ false)
    → weight (resumed m.qos m.state) ≡ 1
one_more m (inl e) settled = rw e refl
one_more m (inr e) settled = rw e (weight-resumed m.state (settled e))

pub reset_out-kept :
    (ms : List Message) (quota len : ℕ)
    → AllSettled ms
    → AllQos ms
    → len < 4294967296
    → let r = reset_out false ms quota len in
      (r.0 + flying r.2 ≡ quota)
      × (r.1 ≡ (len + length ms) % 4294967296)
      × (length r.2 ≡ length ms)
      × AllQos r.2
unfolding reset_out flying
reset_out-kept [] quota len settled all l = (omega arith, omega arith, refl, tt)
reset_out-kept (m ∷ ms) zero len settled all l =
    let (sum, count, longer, qos) =
      reset_out-kept ms 0 (increment len) settled.1 all.1 (omega arith) in
    (omega arith, omega arith, ap suc longer, (all.0, qos))
reset_out-kept (m ∷ ms) (suc q) len settled all l =
    let (sum, count, longer, qos) =
      reset_out-kept ms q (increment len) settled.1 all.1 (omega arith) in
    let one = one_more m all.0 settled.0 in
    let pos : ltb 0 (suc q) ≡ true = ground arith in
    let less : decrement_quota (suc q) ≡ q = ground arith in
    rw (less, pos) (omega arith, omega arith, ap suc longer, (all.0, qos))

-- Each of the first so many messages is in flight.
abbrev pub AreFlying : ℕ → List Message → Type 0
AreFlying zero ms = Unit
AreFlying (suc n) [] = Unit
AreFlying (suc n) (m ∷ ms) = (is_invalid m.state ≡ false) × AreFlying n ms

-- Where only the quota is updated
pub reset_quota-kept :
    (ms : List Message) (quota len : ℕ)
    → AreFlying quota ms
    → AllQos ms
    → len < 4294967296
    → let r = reset_out true ms quota len in
      (r.0 + flying r.2 ≡ quota)
      × (r.1 ≡ (len + length ms) % 4294967296)
      × (length r.2 ≡ length ms)
      × AllQos r.2
unfolding reset_out flying
reset_quota-kept [] quota len flown all l = (omega arith, omega arith, refl, tt)
reset_quota-kept (m ∷ ms) zero len flown all l =
    let (sum, count, longer, qos) = reset_quota-kept ms 0 (increment len) tt all.1 (omega arith) in
    (omega arith, omega arith, ap suc longer, (all.0, qos))
reset_quota-kept (m ∷ ms) (suc q) len flown all l =
    let (sum, count, longer, qos) =
      reset_quota-kept ms q (increment len) flown.1 all.1 (omega arith) in
    let one : weight m.state ≡ 1 = rw flown.0 refl in
    let pos : ltb 0 (suc q) ≡ true = ground arith in
    let less : decrement_quota (suc q) ≡ q = ground arith in
    rw (less, pos) (omega arith, omega arith, ap suc longer, (all.0, qos))
