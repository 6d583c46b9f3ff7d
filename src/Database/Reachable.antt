-- ===== src/Database/Reachable.antt =====
-- What the calls of src/database.c for one client can lead to, in any order.
use dimq.Database.Reset.{reset_outgoing}
use dimq.Database.Recounted.{reset_outgoing-IsRight}
use dimq.Prelude.{
  suc, ap, inr, not, inl, ◌==◌, Bool-cases, length, subst, List, [], ◌∷◌, ℕ, ◌≡◌, refl, Bool,
  Option, some, arith,
}
use dimq.Database.Ledger.{holds, number12}
use dimq.Database.Walk.{IsSound-agree}
use dimq.Messages.{MsgState, md_out, Net}
use dimq.Database.{ClientMsg, Stored}
use dimq.Database.Kept.{
  IsRight, IsDone, write_inflight_out_all-IsDone, write_inflight_out_latest-IsDone,
}
use dimq.Database.Acknowledged.{delete_outgoing-IsDone, write_queued_out-IsRight}
use dimq.Database.Judged.{IsInsertable, message_insert-IsDone}
use dimq.Database.Send.{State, Done, set_out, write_inflight_out_all, write_inflight_out_latest}
use dimq.Database.Out.{update_outgoing, delete_outgoing, write_queued_out}
use dimq.Database.Insert.{Allocated, message_insert}

-- `db__message_update_outgoing` on the messages in flight of the client
abbrev pub update : ℕ → MsgState → ℕ → State → Done
update mid state qos s =
    let d = s.context.msgs_out in
    let r = update_outgoing mid state qos s.db.now_s d.inflight in
    record { code = r.0; state = set_out (record d { inflight = r.1 }) s }

-- What happens between two calls: the clock goes on, the connection comes and goes, and so do the
-- answers of the network.
abbrev pub later : ℕ → ℕ → Bool → Bool → Net → State → State
later now_s now_real_s sock active net s = record s {
  net = net;
  db = record s.db { now_s = now_s; now_real_s = now_real_s };
  context = record s.context { has_sock = sock; is_active = active };
}

-- A call for the client, or what happens between two calls. A call that returns may have failed.
pub data Move : State → State → Type 0 where
  passes :
      (now_s now_real_s : ℕ)
      → (sock active : Bool) → (net : Net) → (s : State)
      → Move s (later now_s now_real_s sock active net s)
  acknowledges :
      (mid : ℕ)
      → (expect_state : MsgState) → (qos : ℕ) → (s : State) → (r : Done)
      → delete_outgoing mid expect_state qos s ≡ some r
      → Move s r.state
  updates :
      (mid : ℕ)
      → (state : MsgState) → (qos : ℕ) → (s : State) → Move s (update mid state qos s).state
  writes_all : (s : State) → (r : Done) → write_inflight_out_all s ≡ some r → Move s r.state
  writes_latest : (s : State) → (r : Done) → write_inflight_out_latest s ≡ some r → Move s r.state
  writes_queued : (s : State) → Move s (write_queued_out s).state
  reconnects : (s t : State) → reset_outgoing s ≡ some t → Move s t
  inserts :
      (a : Allocated)
      → (mid qos : ℕ) → (retain change : Bool) → (stored : Stored) → (s : State) → (r : Done)
      → IsInsertable stored.db_id stored
          (record { mid = mid; dir = md_out; qos = qos; retain = retain; update = change })
          s
      → message_insert a
          (record { mid = mid; dir = md_out; qos = qos; retain = retain; update = change })
          stored.db_id
          s
        ≡ some r
      → Move s r.state

-- Any number of moves
pub data Reaches : State → State → Type 0 where
  stops : (s : State) → Reaches s s
  moves : (s t u : State) → Reaches s t → Move t u → Reaches s u

update_outgoing-same :
    (mid : ℕ) (state : MsgState) (qos now : ℕ) (ms : List ClientMsg)
    → (length (update_outgoing mid state qos now ms).1 ≡ length ms)
      × (number12 (update_outgoing mid state qos now ms).1 ≡ number12 ms)
      × ((x : ℕ) → holds x (update_outgoing mid state qos now ms).1 ≡ holds x ms)
unfolding update_outgoing number12 holds
update_outgoing-same mid state qos now [] = (refl, refl, λ x. refl)
update_outgoing-same mid state qos now (m ∷ ms) =
    let (len, number, held) = update_outgoing-same mid state qos now ms in
    elim (Bool-cases (m.mid == mid)) [
      | inl t ↦ rw t (elim (Bool-cases (not (m.qos == qos))) [
        | inl u ↦ rw u (refl, refl, λ x. refl)
        | inr u ↦ rw u (refl, refl, λ x. refl)
      ])
      | inr t ↦ rw t (ap suc len, omega (arith, number), λ x. omega (arith, held x))
    ]

update-IsRight :
    (elsewhere : ℕ → ℕ) (mid : ℕ) (state : MsgState) (qos : ℕ) (s : State)
    → IsRight elsewhere s
    → IsRight elsewhere (update mid state qos s).state
update-IsRight elsewhere mid state qos s right =
    let d = s.context.msgs_out in
    let ms = (update_outgoing mid state qos s.db.now_s d.inflight).1 in
    let (len, number, held) = update_outgoing-same mid state qos s.db.now_s d.inflight in
    IsSound-agree elsewhere d.queued d.inflight d.queued ms d (record d { inflight = ms }) s.db
      right refl refl (omega (arith, len)) (omega (arith, number)) (λ x. omega (arith, held x))

-- What a call returns is what its theorem is about.
returned :
    (elsewhere : ℕ → ℕ) (o : Option Done) (r : Done)
    → IsDone elsewhere o
    → o ≡ some r
    → IsRight elsewhere r.state
returned elsewhere o r (r', e, right, c) e' =
    let same : r' ≡ r = cc in subst (λ y. IsRight elsewhere y.state) same right

Move-IsRight :
    (elsewhere : ℕ → ℕ) {s t : State} → Move s t → IsRight elsewhere s → IsRight elsewhere t
Move-IsRight elsewhere (passes now_s now_real_s sock active net s) right = record {
  count = right.count;
  count12 = right.count12;
  counted = right.counted;
  small = right.small;
  distinct = right.distinct;
}
Move-IsRight elsewhere (acknowledges mid expect_state qos s r e) right =
    returned elsewhere (delete_outgoing mid expect_state qos s) r
      (delete_outgoing-IsDone elsewhere mid expect_state qos s right) e
Move-IsRight elsewhere (updates mid state qos s) right =
    update-IsRight elsewhere mid state qos s right
Move-IsRight elsewhere (writes_all s r e) right =
    returned elsewhere (write_inflight_out_all s) r
      (write_inflight_out_all-IsDone elsewhere s right) e
Move-IsRight elsewhere (writes_latest s r e) right =
    returned elsewhere (write_inflight_out_latest s) r
      (write_inflight_out_latest-IsDone elsewhere s right) e
Move-IsRight elsewhere (writes_queued s) right = write_queued_out-IsRight elsewhere s right
Move-IsRight elsewhere (reconnects s t e) right =
    let (t', e', right') =
      reset_outgoing-IsRight elsewhere s
        (record { counted = right.counted; small = right.small; distinct = right.distinct }) in
    let same : t' ≡ t = cc in subst (λ y. IsRight elsewhere y) same right'
Move-IsRight elsewhere (inserts a mid qos retain change stored s r q e) right =
    returned elsewhere
      (message_insert a
        (record { mid = mid; dir = md_out; qos = qos; retain = retain; update = change })
        stored.db_id s)
      r (message_insert-IsDone elsewhere a mid qos retain change stored s q right) e

-- Where the counters and the counts of references are right at first, they are right after any sequence
-- of acknowledgements, updates, writes, resets and insertions (of what `IsInsertable` allows), whatever the
-- network answers and whatever is allocated, with the connection and the clock changing in between: the
-- counters `msg_count` and `msg_count12` are those of the outgoing messages, and the count of each entry
-- of the store is the number of references to it.
pub Reaches-IsRight :
    (elsewhere : ℕ → ℕ) {s t : State} → Reaches s t → IsRight elsewhere s → IsRight elsewhere t
Reaches-IsRight elsewhere (stops s) right = right
Reaches-IsRight elsewhere (moves s t u before move) right =
    Move-IsRight elsewhere move (Reaches-IsRight elsewhere before right)
