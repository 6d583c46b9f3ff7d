-- ===== src/Messages/Queue.antt =====
-- A client at work on `msgs_out`, lib/messages_dimq.c: the steps that it can take while the network
-- takes what is sent, and what holds after any number of them.
use dimq.Prelude.{
  true, ◌==◌, Bool-cases, ◌∙◌, ℕ, suc, ◌+◌, ◌%◌, ◌≤◌, ◌≡◌, inl, inr, false, List, [], ◌∷◌, ◌++◌,
  length, arith, refl, ap, sym,
}
use dimq.Messages.Reconnect.{reset_msgs_out}
use dimq.Messages.Balance.{
  past-ok, flying, weight, release-IsKept, remove_from-IsTaken, flying-append, append-AllQos,
}
use dimq.Messages.{
  Message, MsgState, invalid, MsgData, Net, release_to_inflight, append, remove_from, remove,
  acknowledge, acknowledged, out_update, is_invalid, decrement, increment_quota,
}
use dimq.Messages.Release.{IsOpen, IsQos, AllQos}
use dimq.Messages.Reset.{AllSettled, AreFlying, reset_out-kept, reset_quota-kept}
use dimq.Result.{Result, ok, success}

abbrev pub fresh : ℕ → MsgData
fresh maximum = record {
  inflight = [];
  queue_len = 0;
  inflight_quota = maximum;
  inflight_maximum = maximum;
}

-- What `handle__connack` does to `msgs_out` for the receive maximum that holds after it
unfoldable pub connacked : ℕ → MsgData → MsgData
connacked maximum d =
    reset_msgs_out true (record d { inflight_maximum = maximum; inflight_quota = maximum })

-- `dimq_publish_v5` queues a message that was not sent; an acknowledgement comes for a message in
-- flight, and so does a PUBREC, which changes its state; the connection is lost and made again, and a
-- CONNACK comes, with a maximum of its own or without one.
pub data Step : MsgData → MsgData → Type 0 where
  publish :
      (d : MsgData) (m : Message) (net : Net)
      → IsQos m
      → m.state ≡ invalid
      → IsOpen net
      → Step d (release_to_inflight (append d m) net).1
  puback :
      (d : MsgData) (mid qos : ℕ) (m : Message) (rest : List Message) (net : Net)
      → remove_from mid qos d.inflight ≡ ok (m, rest)
      → is_invalid m.state ≡ false
      → IsOpen net
      → Step d (acknowledge mid qos d net).1
  reconnect : (d : MsgData) → AllSettled d.inflight → Step d (reset_msgs_out false d)
  connack :
      (d : MsgData) (maximum : ℕ) → AreFlying maximum d.inflight → Step d (connacked maximum d)
  pubrec :
      (d : MsgData) (mid qos now : ℕ) (m : Message) (rest : List Message) (state : MsgState)
      → remove_from mid qos d.inflight ≡ ok (m, rest)
      → is_invalid m.state ≡ false
      → is_invalid state ≡ false
      → Step d (record d { inflight = (out_update mid state qos now d.inflight).1 })

pub data Run (d : MsgData) : MsgData → Type 0 where
  done : Run d d
  then : {d' d'' : MsgData} → Run d d' → Step d' d'' → Run d d''

-- Quota and messages in flight make up the maximum, the length is kept.
abbrev pub IsBalanced : MsgData → Type 0
IsBalanced d =
    (d.inflight_quota + flying d.inflight ≡ d.inflight_maximum)
    × (d.queue_len ≡ length d.inflight % 4294967296)
    × AllQos d.inflight

fresh-IsBalanced : (maximum : ℕ) → IsBalanced (fresh maximum)
unfolding flying
fresh-IsBalanced maximum = (omega arith, refl, tt)

release-IsBalanced :
    (d : MsgData) (net : Net) → IsOpen net → IsBalanced d → IsBalanced (release_to_inflight d net).1
unfolding release_to_inflight
release-IsBalanced d net all (sum, len, qos) =
    let (sum', len', qos') = release-IsKept d.inflight d.inflight_quota net all qos in
    (sum' ∙ sum, len ∙ ap (λ n. n % 4294967296) (sym len'), qos')

length-append : (ms : List Message) (m : Message) → length (ms ++ m ∷ []) ≡ length ms + 1
length-append [] m = omega arith
length-append (n ∷ ms) m = let more = length-append ms m in omega (arith, more)

append-IsBalanced :
    (d : MsgData) (m : Message)
    → IsQos m
    → m.state ≡ invalid
    → IsBalanced d
    → IsBalanced (append d m)
append-IsBalanced d m q new (sum, len, qos) =
    let more = flying-append d.inflight m in
    let nothing : weight m.state ≡ 0 = rw new refl in
    let longer = length-append d.inflight m in
    (omega arith, omega arith, append-AllQos d.inflight m qos q)

-- The data in the middle of an acknowledgement
abbrev pub raised : MsgData → List Message → MsgData
raised d rest = record d {
  inflight = rest;
  queue_len = decrement d.queue_len;
  inflight_quota = increment_quota d.inflight_maximum d.inflight_quota;
}

remove_ok :
    (mid qos : ℕ) (d : MsgData) (m : Message) (rest : List Message)
    → remove_from mid qos d.inflight ≡ ok (m, rest)
    → remove mid qos d ≡ (ok m, record d { inflight = rest; queue_len = decrement d.queue_len })
unfolding remove
remove_ok mid qos d m rest e = rw (remove, e) refl

pub acknowledge-raised_all :
    (d : MsgData) (mid qos : ℕ) (m : Message) (rest : List Message) (net : Net)
    → remove_from mid qos d.inflight ≡ ok (m, rest)
    → acknowledge mid qos d net
      ≡ (let y = release_to_inflight (raised d rest) net in (success, y.1, y.2, y.3))
unfolding acknowledge
acknowledge-raised_all d mid qos m rest net e =
    ap (λ y. acknowledged y net)
      (remove_ok mid qos
        (record d { inflight_quota = increment_quota d.inflight_maximum d.inflight_quota }) m rest
        e)

raised-IsBalanced :
    (d : MsgData) (mid qos : ℕ) (m : Message) (rest : List Message)
    → remove_from mid qos d.inflight ≡ ok (m, rest)
    → is_invalid m.state ≡ false
    → IsBalanced d
    → IsBalanced (raised d rest)
raised-IsBalanced d mid qos m rest e sent (sum, len, all) =
    let (id, flew, longer, kept) = remove_from-IsTaken mid qos d.inflight rest m all e in
    let one : weight m.state ≡ 1 = rw sent refl in (ground arith, omega arith, kept)

updated-kept :
    (mid qos now : ℕ) (state : MsgState) (ms rest : List Message) (m : Message)
    → AllQos ms
    → remove_from mid qos ms ≡ ok (m, rest)
    → is_invalid m.state ≡ false
    → is_invalid state ≡ false
    → let ms' = (out_update mid state qos now ms).1 in
      (flying ms' ≡ flying ms) × (length ms' ≡ length ms) × AllQos ms'
unfolding flying out_update remove_from
updated-kept mid qos now state [] rest m all e sent s = cc
updated-kept mid qos now state (n ∷ ms) rest m all e sent s = elim (Bool-cases (n.mid == mid)) [
  | inl t ↦ elim (Bool-cases (n.qos == qos)) [
    | inl u ↦
        let same : ◌≡◌ {A = Result (Message × List Message)} (ok (n, ms)) (ok (m, rest)) =
          rw (t, u) at e in
        let it : ◌≡◌ {A = Message × List Message} (n, ms) (m, rest) = cc in
        let flew : is_invalid n.state ≡ false = ap (λ y. is_invalid y.0.state) it ∙ sent in
        rw (t, u) (rw (flew, s) (refl, refl, all))
    | inr u ↦ rw (t, u) (refl, refl, all)
  ]
  | inr t ↦
      let (left, found, same) = past-ok n m rest (remove_from mid qos ms) (rw t at e) in
      let (sum, len, kept) = updated-kept mid qos now state ms left m all.1 found sent s in
      rw t (ap (λ k. weight n.state + k) sum, ap suc len, (all.0, kept))
]

reset-IsBalanced_lem :
    (d : MsgData) → AllSettled d.inflight → AllQos d.inflight → IsBalanced (reset_msgs_out false d)
unfolding reset_msgs_out
reset-IsBalanced_lem d settled all =
    let (sum, len, longer, qos) =
      reset_out-kept d.inflight d.inflight_maximum 0 settled all (omega arith) in
    (sum, omega (arith, len, longer), qos)

connack-IsBalanced :
    (d : MsgData) (maximum : ℕ)
    → AreFlying maximum d.inflight
    → AllQos d.inflight
    → IsBalanced (connacked maximum d)
unfolding reset_msgs_out connacked
connack-IsBalanced d maximum flown all =
    let (sum, len, longer, qos) = reset_quota-kept d.inflight maximum 0 flown all (omega arith) in
    (sum, omega (arith, len, longer), qos)

step-IsBalanced : (d d' : MsgData) → Step d d' → IsBalanced d → IsBalanced d'
step-IsBalanced _ _ (publish d m net q new all) b =
    release-IsBalanced (append d m) net all (append-IsBalanced d m q new b)
step-IsBalanced _ _ (puback d mid qos m rest net e sent all) b =
    rw (acknowledge-raised_all d mid qos m rest net e)
      (release-IsBalanced (raised d rest) net all (raised-IsBalanced d mid qos m rest e sent b))
step-IsBalanced _ _ (reconnect d settled) (sum, len, all) = reset-IsBalanced_lem d settled all
step-IsBalanced _ _ (connack d maximum flown) (sum, len, all) =
    connack-IsBalanced d maximum flown all
step-IsBalanced _ _ (pubrec d mid qos now m rest state e sent s) (sum, len, all) =
    let (sum', len', all') = updated-kept mid qos now state d.inflight rest m all e sent s in
    (omega arith, len ∙ ap (λ n. n % 4294967296) (sym len'), all')

-- From the quota full and no message on, while the network takes what is sent, messages of QoS 1 and 2 are
-- published, only messages in flight are acknowledged, no message of QoS 2 waits to be sent for the first
-- time when the connection is made again, and of the messages kept when a CONNACK names a maximum, or
-- leaves it, none of the first so many waits to be sent for the first time: the messages in flight never
-- exceed the maximum that was agreed last, quota and messages in flight together are that maximum, and
-- `queue_len` is the number of messages kept, modulo 2^32.
pub run_balanced :
    (maximum : ℕ) (d : MsgData)
    → Run (fresh maximum) d
    → (flying d.inflight ≤ d.inflight_maximum)
      × (d.inflight_quota + flying d.inflight ≡ d.inflight_maximum)
      × (d.queue_len ≡ length d.inflight % 4294967296)
run_balanced maximum d run = let (sum, len, all) = go d run in (omega arith, sum, len)
  where
    go : (d : MsgData) → Run (fresh maximum) d → IsBalanced d
    go d done = fresh-IsBalanced maximum
    go d (then run step) = step-IsBalanced _ d step (go _ run)
