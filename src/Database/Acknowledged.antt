-- ===== src/Database/Acknowledged.antt =====
-- The counters and the references through an acknowledgement, src/database.c.
use dimq.Prelude.{
  leb, ◌||◌, ◌&&◌, ◌==◌, sym, subst, not, length-append, length, ap, Bool-cases, List, [], ◌∷◌,
  ◌++◌, ℕ, suc, ◌+◌, ◌≡◌, refl, arith, inl, inr,
}
use dimq.Database.Out.{
  state_number, Found, mismatch, missing, found, find_outgoing, past_one, dequeue_first, ready,
  fill_inflight, refill, acknowledge, delete_outgoing, drain, write_queued_out,
}
use dimq.Result.{err, protocol}
use dimq.Messages.{MsgState}
use dimq.Database.{ClientMsg, MsgData, Db}
use dimq.Database.Ledger.{IsSound, holds, number12, message_remove-IsSound}
use dimq.Database.Walk.{IsSound-agree}
use dimq.Database.Kept.{
  IsRight, IsDone, number12-append, holds-append, write_inflight_out_latest-IsDone,
}
use dimq.Database.Send.{State, set_out}

-- The first message of the queue goes to the end of those in flight, with another state.
dequeue_first-IsSound :
    (elsewhere : ℕ → ℕ) (m : ClientMsg) (now : ℕ) (q ms : List ClientMsg) (d : MsgData) (db : Db)
    → IsSound elsewhere (m ∷ q) ms d db
    → (m' : ClientMsg) → m'.qos ≡ m.qos
    → m'.store ≡ m.store
    → IsSound elsewhere q (ms ++ (m' ∷ [])) (dequeue_first m' q d) db
unfolding number12 holds
dequeue_first-IsSound elsewhere m now q ms d db sound m' qos store =
    IsSound-agree elsewhere (m ∷ q) ms q (ms ++ (m' ∷ [])) d (dequeue_first m' q d) db sound refl
      refl (omega (arith, length-append ms (m' ∷ [])))
      (rw (number12-append ms (m' ∷ []), number12, qos) (omega arith))
      (λ x. rw (holds-append x ms (m' ∷ []), holds, store) (omega arith))

pub fill_inflight-IsSound :
    (elsewhere : ℕ → ℕ) (now index : ℕ) (q : List ClientMsg) (d : MsgData) (db : Db)
    → d.queued ≡ q
    → IsSound elsewhere q d.inflight d db
    → IsSound elsewhere
        (fill_inflight now index q d).queued
        (fill_inflight now index q d).inflight
        (fill_inflight now index q d)
        db
unfolding fill_inflight
fill_inflight-IsSound elsewhere now index [] d db same sound =
    subst (λ l. IsSound elsewhere l d.inflight d db) (sym same) sound
fill_inflight-IsSound elsewhere now index (m ∷ q) d db same sound =
    let m' = ready (record m { timestamp = now }) in
    elim (Bool-cases (not (d.inflight_maximum == 0) && leb d.inflight_maximum index)) [
      | inl t ↦ rw t (subst (λ l. IsSound elsewhere l d.inflight d db) (sym same) sound)
      | inr t ↦ rw t (
          fill_inflight-IsSound elsewhere now (suc index) q (dequeue_first m' q d) db refl
            (dequeue_first-IsSound elsewhere m now q d.inflight d db sound m' refl refl))
    ]

pub drain-IsSound :
    (elsewhere : ℕ → ℕ) (q : List ClientMsg) (d : MsgData) (db : Db)
    → d.queued ≡ q
    → IsSound elsewhere q d.inflight d db
    → IsSound elsewhere (drain q d).queued (drain q d).inflight (drain q d) db
unfolding drain
drain-IsSound elsewhere [] d db same sound =
    subst (λ l. IsSound elsewhere l d.inflight d db) (sym same) sound
drain-IsSound elsewhere (m ∷ q) d db same sound =
    elim (Bool-cases (not (d.inflight_maximum == 0) && d.inflight_quota == 0)) [
      | inl t ↦ rw t (subst (λ l. IsSound elsewhere l d.inflight d db) (sym same) sound)
      | inr t ↦ rw t (
          drain-IsSound elsewhere q (dequeue_first (ready m) q d) db refl
            (dequeue_first-IsSound elsewhere m 0 q d.inflight d db sound (ready m) refl refl))
    ]

pub write_queued_out-IsRight :
    (elsewhere : ℕ → ℕ) (s : State)
    → IsRight elsewhere s
    → IsRight elsewhere (write_queued_out s).state
unfolding write_queued_out
write_queued_out-IsRight elsewhere s sound = elim (Bool-cases (not s.context.is_active)) [
  | inl t ↦ rw t sound
  | inr t ↦
      rw t (drain-IsSound elsewhere s.context.msgs_out.queued s.context.msgs_out s.db refl sound)
]

refill-IsDone :
    (elsewhere : ℕ → ℕ) (index : ℕ) (s : State)
    → IsRight elsewhere s
    → IsDone elsewhere (refill index s)
refill-IsDone elsewhere index s sound =
    let d = s.context.msgs_out in
    let d' = fill_inflight s.db.now_s index d.queued d in
    write_inflight_out_latest-IsDone elsewhere (set_out d' s)
      (fill_inflight-IsSound elsewhere s.db.now_s index d.queued d s.db refl sound)

-- The message that was found is taken out of the list.
abbrev pub IsOut : List ClientMsg → Found → Type 0
IsOut ms mismatch = Unit {0}
IsOut ms (missing index) = Unit {0}
IsOut ms (found index m rest) =
    (length ms ≡ suc (length rest))
    × (number12 ms ≡ number12 (m ∷ rest))
    × ((x : ℕ) → holds x ms ≡ holds x (m ∷ rest))

pub past_one-IsOut :
    (n : ClientMsg) (ms : List ClientMsg) (f : Found) → IsOut ms f → IsOut (n ∷ ms) (past_one n f)
unfolding number12 holds
past_one-IsOut n ms mismatch o = tt
past_one-IsOut n ms (missing index) o = tt
past_one-IsOut n ms (found index m rest) (len, number, held) =
    (ap suc len, omega (arith, number), λ x. omega (arith, held x))

find_outgoing-IsOut :
    (mid : ℕ) (expect_state : MsgState) (qos : ℕ) (ms : List ClientMsg)
    → IsOut ms (find_outgoing mid expect_state qos ms)
unfolding find_outgoing
find_outgoing-IsOut mid expect_state qos [] = tt
find_outgoing-IsOut mid expect_state qos (m ∷ ms) =
    let wrong =
      not (m.qos == qos) || (qos == 2 && not (state_number m.state == state_number expect_state)) in
    elim (Bool-cases (m.mid == mid)) [
      | inl t ↦
          rw t (elim (Bool-cases wrong) [ inl w ↦ rw w tt | inr w ↦ rw w (refl, refl, λ x. refl) ])
      | inr t ↦ rw t (
          past_one-IsOut m ms (find_outgoing mid expect_state qos ms)
            (find_outgoing-IsOut mid expect_state qos ms))
    ]

acknowledge-IsDone :
    (elsewhere : ℕ → ℕ) (f : Found) (s : State)
    → IsRight elsewhere s
    → IsOut s.context.msgs_out.inflight f
    → IsDone elsewhere (acknowledge f s)
acknowledge-IsDone elsewhere mismatch s sound o =
    (record { code = err protocol; state = s }, refl, sound, λ e. cc)
acknowledge-IsDone elsewhere (missing index) s sound o = refill-IsDone elsewhere index s sound
acknowledge-IsDone elsewhere (found index m rest) s sound (len, number, held) =
    let d = s.context.msgs_out in
    let in_front =
      IsSound-agree elsewhere d.queued d.inflight d.queued (m ∷ rest) d d s.db sound refl refl
        (omega (arith, len)) (omega (arith, number)) (λ x. omega (arith, held x)) in
    let (d', db', n, e, same, sound') =
      message_remove-IsSound m elsewhere d.queued rest d s.db in_front in
    let d'' = record d' { inflight = rest } in
    let q : d.queued ≡ d'.queued = rw same refl in
    rw e (
      refill-IsDone elsewhere index (record (set_out d'' s) { db = db' })
        (IsSound-agree elsewhere d.queued rest d'.queued rest d' d'' db' sound' refl refl
          (ap (λ l. length l + length rest) (sym q)) (ap (λ l. number12 l + number12 rest) (sym q))
          (λ x. ap (λ l. holds x l + holds x rest) (sym q))))

-- Where the counters and the counts of references were right for the outgoing messages of a client,
-- `db__message_delete_outgoing`, for any message id, state, QoS and answers of the network, reads no
-- message that was freed, returns, and leaves the counters and the counts right again.
pub delete_outgoing-IsDone :
    (elsewhere : ℕ → ℕ) (mid : ℕ) (expect_state : MsgState) (qos : ℕ) (s : State)
    → IsRight elsewhere s
    → IsDone elsewhere (delete_outgoing mid expect_state qos s)
unfolding delete_outgoing
delete_outgoing-IsDone elsewhere mid expect_state qos s sound =
    acknowledge-IsDone elsewhere (find_outgoing mid expect_state qos s.context.msgs_out.inflight) s
      sound (find_outgoing-IsOut mid expect_state qos s.context.msgs_out.inflight)
