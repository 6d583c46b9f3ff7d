-- ===== src/Messages/Progress.antt =====
-- An acknowledgement makes room for the next message: lib/handle_pubackcomp.c with
-- lib/messages_dimq.c.
use dimq.Prelude.{
  ◌∙◌, drop, ℕ, ◌≡◌, ◌<◌, inl, inr, false, ◌==◌, List, [], ◌∷◌, map, take, Bool-cases, arith, refl,
  ap, sym, subst,
}
use dimq.Messages.{
  Message, MsgData, Net, release_to_inflight, remove_from, acknowledge, is_invalid, is_waiting,
  to_send, increment_quota,
}
use dimq.Messages.Release.{IsOpen, AllQos, waiting, release_sends}
use dimq.Messages.Balance.{past-ok, remove_from-IsTaken}
use dimq.Messages.Queue.{acknowledge-raised_all}
use dimq.Result.{Result, ok, err, protocol, success}

waiting_rest :
    (mid qos : ℕ) (ms rest : List Message) (m : Message)
    → remove_from mid qos ms ≡ ok (m, rest)
    → is_invalid m.state ≡ false
    → waiting rest ≡ waiting ms
unfolding remove_from waiting
waiting_rest mid qos [] rest m e sent = cc
waiting_rest mid qos (n ∷ ms) rest m e sent = elim (Bool-cases (n.mid == mid)) [
  | inl t ↦ elim (Bool-cases (n.qos == qos)) [
    | inl u ↦
        let same : ◌≡◌ {A = Result (Message × List Message)} (ok (n, ms)) (ok (m, rest)) =
          rw (t, u) at e in
        let both : ◌≡◌ {A = Message × List Message} (n, ms) (m, rest) = cc in
        let flew : is_invalid n.state ≡ false = ap (λ y. is_invalid y.0.state) both ∙ sent in
        let out : is_waiting n ≡ false = ground (arith, flew) in
        ap (λ y. waiting y.1) (sym both) ∙ rw out refl
    | inr u ↦
        let bad : ◌≡◌ {A = Result (Message × List Message)} (err protocol) (ok (m, rest)) =
          rw (t, u) at e in
        absurd cc
  ]
  | inr t ↦
      let (left, found, same) = past-ok n m rest (remove_from mid qos ms) (rw t at e) in
      let more = waiting_rest mid qos ms left m found sent in
      subst (λ r. waiting r ≡ waiting (n ∷ ms)) same (rw more refl)
]

-- While the network takes what is sent: the acknowledgement of a message in flight, when the quota is
-- used up and the maximum is not 0, succeeds and has the first message that waits sent, and no other.
pub acknowledge_sends_next :
    (d : MsgData) (mid qos : ℕ) (m : Message) (rest : List Message) (net : Net)
    → remove_from mid qos d.inflight ≡ ok (m, rest)
    → is_invalid m.state ≡ false
    → AllQos d.inflight
    → IsOpen net
    → d.inflight_quota ≡ 0
    → 0 < d.inflight_maximum
    → ((acknowledge mid qos d net).0 ≡ success)
      × ((acknowledge mid qos d net).2 ≡ map to_send (take 1 (waiting d.inflight)))
      × (waiting (acknowledge mid qos d net).1.inflight ≡ drop 1 (waiting d.inflight))
unfolding release_to_inflight
acknowledge_sends_next d mid qos m rest net e sent all open_net full room =
    let (id, flew, longer, kept) = remove_from-IsTaken mid qos d.inflight rest m all e in
    let one : increment_quota d.inflight_maximum d.inflight_quota ≡ 1 = ground arith in
    let (code, published, left, still) =
      release_sends rest (increment_quota d.inflight_maximum d.inflight_quota) net open_net kept in
    let same = waiting_rest mid qos d.inflight rest m e sent in
    rw (acknowledge-raised_all d mid qos m rest net e) (
      refl,
      published
          ∙ ap (λ n. map to_send (take n (waiting rest))) one
          ∙ ap (λ w. map to_send (take 1 w)) same,
      still ∙ ap (λ n. drop n (waiting rest)) one ∙ ap (drop 1) same,
    )
