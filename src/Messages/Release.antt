-- ===== src/Messages/Release.antt =====
-- `message__release_to_inflight` of lib/messages_dimq.c: which messages it sends, and in which order.
use dimq.Result.{Err, err, success}
use dimq.Prelude.{
  ◌∙◌, ℕ, zero, suc, ◌-◌, ◌≡◌, ◌⊎◌, inl, inr, Bool, true, false, ltb, List, [], ◌∷◌, map, take,
  drop, length, Option, none, some, Bool-cases, arith, refl, ap, if◌then◌else◌,
}
use dimq.Messages.{
  Message, Net, rest_of, Released, release, is_waiting, to_send, decrement_quota, behind,
  sent_before,
}

-- The network takes everything.
abbrev pub IsOpen : Net → Type 0
IsOpen net = (i : ℕ) → net i ≡ none

-- What the library queues has QoS 1 or 2.
abbrev pub IsQos : Message → Type 0
IsQos m = (m.qos ≡ 1) ⊎ (m.qos ≡ 2)

abbrev pub AllQos : List Message → Type 0
AllQos [] = Unit
AllQos (m ∷ ms) = IsQos m × AllQos ms

unfoldable pub waiting : List Message → List Message
waiting [] = []
waiting (m ∷ ms) = let rest = waiting ms in if is_waiting m then m ∷ rest else rest

pub to_send_lem : (m : Message) → IsQos m → is_waiting (to_send m) ≡ false
to_send_lem m (inl e) = rw e refl
to_send_lem m (inr e) = rw e refl

pub release-none :
    (ms : List Message) (net : Net)
    → release ms 0 net
      ≡ record { code = success; quota = 0; messages = ms; published = []; net = net }
unfolding release
release-none [] net = refl
release-none (m ∷ ms) net = refl

pub release-sent :
    (m : Message) (ms : List Message) (q : ℕ) (net : Net)
    → IsOpen net
    → is_waiting m ≡ true
    → release (m ∷ ms) (suc q) net ≡ sent_before (to_send m) (release ms q (rest_of net))
unfolding release
release-sent m ms q net all t =
    ap (λ b. one b (ltb 0 (suc q)) (decrement_quota (suc q)) (net 0)) t
    ∙ ap (λ b. one true b (decrement_quota (suc q)) (net 0)) pos
    ∙ ap (λ n. one true true n (net 0)) less
    ∙ ap (one true true q) (all 0)
  where
    pos : ltb 0 (suc q) ≡ true
    pos = ground arith

    less : decrement_quota (suc q) ≡ q
    less = ground arith

    one : Bool → Bool → ℕ → Option Err → Released
    one sends more left answer =
        let rest =
          release ms (if sends then left else suc q) (if sends then rest_of net else net) in
        if more
        then (if sends
            then (elim answer [
              | some e ↦ record {
                code = err e;
                quota = suc q;
                messages = to_send m ∷ ms;
                published = to_send m ∷ [];
                net = rest_of net;
              }
              | none ↦ sent_before (to_send m) rest
            ])
            else behind m rest)
        else record { code = success; quota = suc q; messages = m ∷ ms; published = []; net = net }

pub release-behind :
    (m : Message) (ms : List Message) (q : ℕ) (net : Net)
    → is_waiting m ≡ false
    → release (m ∷ ms) (suc q) net ≡ behind m (release ms (suc q) net)
unfolding release
release-behind m ms q net t =
    let pos : ltb 0 (suc q) ≡ true = ground arith in rw (release, t, pos) refl

-- While the network takes everything, and for messages of QoS 1 and 2: `message__release_to_inflight`
-- succeeds and sends, in their order, the messages that wait, as many as the quota allows; the quota
-- goes down by their number, and the ones that still wait are the others, in their order.
pub release_sends :
    (ms : List Message) (quota : ℕ) (net : Net)
    → IsOpen net
    → AllQos ms
    → let r = release ms quota net in
      (r.code ≡ success)
      × (r.published ≡ map to_send (take quota (waiting ms)))
      × (r.quota ≡ quota - length r.published)
      × (waiting r.messages ≡ drop quota (waiting ms))
unfolding release waiting
release_sends [] zero net all qos = (refl, refl, refl, refl)
release_sends [] (suc q) net all qos = (refl, refl, omega arith, refl)
release_sends (m ∷ ms) zero net all qos = (refl, refl, refl, refl)
release_sends (m ∷ ms) (suc q) net all qos = elim (Bool-cases (is_waiting m)) [
  | inl t ↦
      let (code, sent, left, still) = release_sends ms q (rest_of net) (λ i. all (suc i)) qos.1 in
      let last = to_send_lem m qos.0 in
      rw (release-sent m ms q net all t)
        (rw (t, last) (code, ap (◌∷◌ (to_send m)) sent, left ∙ omega arith, still))
  | inr t ↦
      let (code, sent, left, still) = release_sends ms (suc q) net all qos.1 in
      rw (release-behind m ms q net t) (rw t (code, sent, left, still))
]
