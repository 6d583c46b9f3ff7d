-- ===== src/Database/Walk.antt =====
-- The counters and the references through the functions of src/database.c that write the messages in
-- flight.
use dimq.Database.Send.{
  increment_send_quota, is_oversize, is_out, handed, is_expired, answered, sent_qos0, sent_qos,
  sent_pubrel, by_state, keep, State, set_out, Single, stays, removed, write_inflight_out_single,
}
use dimq.Prelude.{
  ◌&&◌, Bool-cases, ◌==◌, ltb, if◌then◌else◌, ap, ◌≢◌, length, List, ◌∷◌, ℕ, ◌+◌, ◌≡◌, refl, true,
  Option, none, some, arith, inl, inr,
}
use dimq.Result.{Status, err, fault, success, Err}
use dimq.Messages.{MsgState}
use dimq.Database.{ClientMsg, MsgData, Db}
use dimq.Database.Ledger.{IsSound, holds, number12, message_remove-IsSound}
use dimq.Database.Counts.{find_stored-refs}

-- What the functions here do not touch
abbrev pub IsUntouched : State → State → Type 0
IsUntouched s t =
    (t.context.msgs_out.queued ≡ s.context.msgs_out.queued)
    × (t.context.msgs_in ≡ s.context.msgs_in)
    × (t.context.msgs_out.inflight_maximum ≡ s.context.msgs_out.inflight_maximum)

-- What is left of a message and those behind it
abbrev pub IsWritten : (ℕ → ℕ) → List ClientMsg → List ClientMsg → State → Single → Type 0
IsWritten elsewhere others ms s r =
    IsSound elsewhere others (keep r.left ms) r.state.context.msgs_out r.state.db
    × (r.code ≢ fault)
    × IsUntouched s r.state

not_fault : success ≢ fault
not_fault e = cc

err-not_fault : (e : Err) → ◌≢◌ {A = Status} (err e) fault
err-not_fault e same = cc

pub removed-IsWritten :
    (m : ClientMsg) (elsewhere : ℕ → ℕ) (others ms : List ClientMsg) (s : State)
    → IsSound elsewhere others (m ∷ ms) s.context.msgs_out s.db
    → (r : Single) × (removed m s ≡ some r) × IsWritten elsewhere others ms s r
removed-IsWritten m elsewhere others ms s sound =
    let d = s.context.msgs_out in
    let (d', db', len, e, same, sound') =
      message_remove-IsSound m elsewhere others ms d s.db sound in
    (
      record { code = success; left = none; state = record (set_out d' s) { db = db' } },
      rw e refl,
      (sound', not_fault, (rw same refl, refl, rw same refl)),
    )

-- The counters are all that counts.
pub IsSound-agree :
    (elsewhere : ℕ → ℕ) (others ms others' ms' : List ClientMsg) (d d' : MsgData) (db : Db)
    → IsSound elsewhere others ms d db
    → d'.msg_count ≡ d.msg_count
    → d'.msg_count12 ≡ d.msg_count12
    → length others' + length ms' ≡ length others + length ms
    → number12 others' + number12 ms' ≡ number12 others + number12 ms
    → ((x : ℕ) → holds x others' + holds x ms' ≡ holds x others + holds x ms)
    → IsSound elsewhere others' ms' d' db
IsSound-agree elsewhere others ms others' ms' d d' db sound c c12 len len12 held = record {
  count = omega (arith, c, sound.count, len);
  count12 = omega (arith, c12, sound.count12, len12);
  counted = λ x. omega (arith, sound.counted x, held x);
  small = sound.small;
  distinct = sound.distinct;
}

-- A message that stays: its store entry and its QoS are what they were.
stays-IsWritten :
    (code : Status) (m m' : ClientMsg) (elsewhere : ℕ → ℕ) (others ms : List ClientMsg)
    (s t : State)
    → IsSound elsewhere others (m ∷ ms) s.context.msgs_out s.db
    → code ≢ fault
    → m'.store ≡ m.store
    → m'.qos ≡ m.qos
    → t.context ≡ s.context
    → t.db ≡ s.db
    → (r : Single) × (stays code m' t ≡ some r) × IsWritten elsewhere others ms s r
unfolding holds number12
stays-IsWritten code m m' elsewhere others ms s t sound c st q con db = (
  record { code = code; left = some m'; state = t },
  refl,
  (
    rw (con, db)
        (IsSound-agree elsewhere others (m ∷ ms) others (m' ∷ ms) s.context.msgs_out
          s.context.msgs_out s.db sound refl refl refl
          (ap (λ n. number12 others + ((if ltb 0 n then 1 else 0) + number12 ms)) q)
          (λ x. ap (λ n. holds x others + ((if n == x then 1 else 0) + holds x ms)) st)),
    c,
    rw con (refl, refl, refl),
  ),
)

-- What an answer of the network leads to
sent_qos0-IsWritten :
    (answer : Option Err) (m : ClientMsg) (elsewhere : ℕ → ℕ) (others ms : List ClientMsg)
    (s : State)
    → IsSound elsewhere others (m ∷ ms) s.context.msgs_out s.db
    → (r : Single) × (sent_qos0 answer m (answered s) ≡ some r) × IsWritten elsewhere others ms s r
sent_qos0-IsWritten none m elsewhere others ms s sound =
    removed-IsWritten m elsewhere others ms (handed m (answered s)) sound
sent_qos0-IsWritten (some e) m elsewhere others ms s sound = elim (Bool-cases (is_oversize e)) [
  | inl t ↦ rw t (removed-IsWritten m elsewhere others ms (answered s) sound)
  | inr t ↦ rw t (
      stays-IsWritten (err e) m m elsewhere others ms s (answered s) sound (err-not_fault e) refl
        refl refl refl)
]

sent_qos-IsWritten :
    (answer : Option Err) (next : MsgState) (m : ClientMsg) (elsewhere : ℕ → ℕ)
    (others ms : List ClientMsg) (s : State)
    → IsSound elsewhere others (m ∷ ms) s.context.msgs_out s.db
    → (r : Single) × (sent_qos answer next m (answered s) ≡ some r)
      × IsWritten elsewhere others ms s r
sent_qos-IsWritten none next m elsewhere others ms s sound =
    let m' = record m { timestamp = s.db.now_s; dup = true; state = next } in
    stays-IsWritten success m m' elsewhere others ms s (handed m (answered s)) sound not_fault refl
      refl refl refl
sent_qos-IsWritten (some e) next m elsewhere others ms s sound = elim (Bool-cases (is_oversize e)) [
  | inl t ↦ rw t (removed-IsWritten m elsewhere others ms (answered s) sound)
  | inr t ↦ rw t (
      stays-IsWritten (err e) m m elsewhere others ms s (answered s) sound (err-not_fault e) refl
        refl refl refl)
]

sent_pubrel-IsWritten :
    (answer : Option Err) (m : ClientMsg) (elsewhere : ℕ → ℕ) (others ms : List ClientMsg)
    (s : State)
    → IsSound elsewhere others (m ∷ ms) s.context.msgs_out s.db
    → (r : Single) × (sent_pubrel answer m (answered s) ≡ some r)
      × IsWritten elsewhere others ms s r
sent_pubrel-IsWritten none m elsewhere others ms s sound =
    let m' = record m { state = MsgState.wait_for_pubcomp } in
    stays-IsWritten success m m' elsewhere others ms s (answered s) sound not_fault refl refl refl
      refl
sent_pubrel-IsWritten (some e) m elsewhere others ms s sound =
    stays-IsWritten (err e) m m elsewhere others ms s (answered s) sound (err-not_fault e) refl refl
      refl refl

by_state-IsWritten :
    (state : MsgState) (m : ClientMsg) (elsewhere : ℕ → ℕ) (others ms : List ClientMsg) (s : State)
    → IsSound elsewhere others (m ∷ ms) s.context.msgs_out s.db
    → (r : Single) × (by_state state m s ≡ some r) × IsWritten elsewhere others ms s r
by_state-IsWritten MsgState.publish_qos0 m elsewhere others ms s sound =
    sent_qos0-IsWritten (s.net 0) m elsewhere others ms s sound
by_state-IsWritten MsgState.publish_qos1 m elsewhere others ms s sound =
    sent_qos-IsWritten (s.net 0) MsgState.wait_for_puback m elsewhere others ms s sound
by_state-IsWritten MsgState.publish_qos2 m elsewhere others ms s sound =
    sent_qos-IsWritten (s.net 0) MsgState.wait_for_pubrec m elsewhere others ms s sound
by_state-IsWritten MsgState.resend_pubrel m elsewhere others ms s sound =
    sent_pubrel-IsWritten (s.net 0) m elsewhere others ms s sound
by_state-IsWritten MsgState.invalid m elsewhere others ms s sound =
    stays-IsWritten success m m elsewhere others ms s s sound not_fault refl refl refl refl
by_state-IsWritten MsgState.send_pubrec m elsewhere others ms s sound =
    stays-IsWritten success m m elsewhere others ms s s sound not_fault refl refl refl refl
by_state-IsWritten MsgState.resend_pubcomp m elsewhere others ms s sound =
    stays-IsWritten success m m elsewhere others ms s s sound not_fault refl refl refl refl
by_state-IsWritten MsgState.wait_for_puback m elsewhere others ms s sound =
    stays-IsWritten success m m elsewhere others ms s s sound not_fault refl refl refl refl
by_state-IsWritten MsgState.wait_for_pubrec m elsewhere others ms s sound =
    stays-IsWritten success m m elsewhere others ms s s sound not_fault refl refl refl refl
by_state-IsWritten MsgState.wait_for_pubrel m elsewhere others ms s sound =
    stays-IsWritten success m m elsewhere others ms s s sound not_fault refl refl refl refl
by_state-IsWritten MsgState.wait_for_pubcomp m elsewhere others ms s sound =
    stays-IsWritten success m m elsewhere others ms s s sound not_fault refl refl refl refl
by_state-IsWritten MsgState.queued m elsewhere others ms s sound =
    stays-IsWritten success m m elsewhere others ms s s sound not_fault refl refl refl refl

pub write_inflight_out_single-IsWritten :
    (m : ClientMsg) (elsewhere : ℕ → ℕ) (others ms : List ClientMsg) (s : State)
    → IsSound elsewhere others (m ∷ ms) s.context.msgs_out s.db
    → (r : Single) × (write_inflight_out_single m s ≡ some r) × IsWritten elsewhere others ms s r
unfolding write_inflight_out_single holds
write_inflight_out_single-IsWritten m elsewhere others ms s sound =
    let held = sound.counted m.store in
    let (stored, e) = find_stored-refs m.store s.db.msg_store (ground (arith, held)) in
    rw (write_inflight_out_single, e)
      (elim (Bool-cases (is_expired stored s.db)) [
        | inl t ↦ rw t (elim (Bool-cases (is_out m.direction && ltb 0 m.qos)) [
          | inl u ↦ rw u (
              removed-IsWritten m elsewhere others ms (increment_send_quota s) (
                IsSound-agree elsewhere others (m ∷ ms) others (m ∷ ms) s.context.msgs_out
                  (increment_send_quota s).context.msgs_out s.db sound refl refl refl refl
                  (λ x. refl)))
          | inr u ↦ rw u (removed-IsWritten m elsewhere others ms s sound)
        ])
        | inr t ↦ rw t (by_state-IsWritten m.state m elsewhere others ms s sound)
      ])
