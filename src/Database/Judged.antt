-- ===== src/Database/Judged.antt =====
-- The counters and the references through the whole of `db__message_insert`, src/database.c.
use dimq.Database.Enlisted.{enlist-IsRight, counted_once}
use dimq.Database.Insert.{
  is_noted, is_mqtt5, is_refused, insert_for, capped, Verdict, dropped, refused, accepted,
  Allocated, Asked, message_insert, was_sent_to, verdict, judged, judge, put_entry, enlist, new_msg,
  is_invalid, flight_state,
}
use dimq.Prelude.{
  ◌&&◌, not, ◌≤◌, Bool-cases, ◌==◌, if◌then◌else◌, ◌<◌, ltb, List, [], ◌∷◌, ℕ, zero, suc, ◌≡◌, ◌≢◌,
  refl, Bool, true, false, Option, none, some, arith, inl, inr,
}
use dimq.Database.{ready_for_flight, ready_for_queue, Context, Config, Stored}
use dimq.Subs.{same_text}
use dimq.Result.{protocol, nomem, err, fault, success}
use dimq.Messages.{MsgState, md_out}
use dimq.Database.Store.{find_stored}
use dimq.Database.Counts.{refs}
use dimq.Database.Kept.{IsRight, IsDone}
use dimq.Database.Inserted.{note-IsDone, find_stored-put}
use dimq.Database.Send.{State, set_out}

-- A state and a code that `db__message_insert` goes on with
abbrev IsAcceptable : Verdict → Type 0
IsAcceptable dropped = Unit {0}
IsAcceptable (refused e) = Unit {0}
IsAcceptable (accepted state rc) = (is_invalid state ≡ false) × (rc ≢ fault)

flight_state-IsAcceptable : (qos : ℕ) → qos ≤ 2 → IsAcceptable (flight_state md_out qos)
flight_state-IsAcceptable zero le = (refl, λ e. cc)
flight_state-IsAcceptable (suc zero) le = (refl, λ e. cc)
flight_state-IsAcceptable (suc (suc zero)) le = (refl, λ e. cc)
flight_state-IsAcceptable (suc (suc (suc n))) le = absurd (omega (arith, le))

chosen-IsAcceptable :
    (sock flight more fits : Bool) (qos : ℕ)
    → qos ≤ 2
    → IsAcceptable (
        if sock
        then (if flight
            then flight_state md_out qos
            else if more && fits
            then accepted MsgState.queued (err protocol)
            else dropped)
        else if fits
        then accepted MsgState.queued success
        else dropped)
chosen-IsAcceptable true true more fits qos le = flight_state-IsAcceptable qos le
chosen-IsAcceptable true false true true qos le = (refl, λ e. cc)
chosen-IsAcceptable true false true false qos le = tt
chosen-IsAcceptable true false false fits qos le = tt
chosen-IsAcceptable false flight more true qos le = (refl, λ e. cc)
chosen-IsAcceptable false flight more false qos le = tt

verdict-IsAcceptable :
    (k : Config) (c : Context) (qos : ℕ) → qos ≤ 2 → IsAcceptable (verdict k c md_out qos)
unfolding verdict
verdict-IsAcceptable k c qos le =
    chosen-IsAcceptable c.has_sock (ready_for_flight k c md_out qos) (not (qos == 0))
      (ready_for_queue k c qos c.msgs_out) qos le

-- Every id that a message was sent to was copied.
abbrev pub AreCopied : List (Option (List ℕ)) → Type 0
AreCopied [] = Unit {0}
AreCopied (none ∷ ids) = ⊥
AreCopied (some id ∷ ids) = AreCopied ids

was_sent_to-AreCopied :
    (id : List ℕ) (ids : List (Option (List ℕ)))
    → AreCopied ids
    → (b : Bool) × (was_sent_to id ids ≡ some b)
unfolding was_sent_to
was_sent_to-AreCopied id [] a = (false, refl)
was_sent_to-AreCopied id (none ∷ ids) a = absurd a
was_sent_to-AreCopied id (some i ∷ ids) a = elim (Bool-cases (same_text i id)) [
  | inl t ↦ (true, rw t refl)
  | inr t ↦ let (b, e) = was_sent_to-AreCopied id ids a in (b, rw t e)
]

-- What is asked for: a message to the client, of a QoS that there is
pub record IsInsertable (id : ℕ) (stored : Stored) (q : Asked) (s : State) : Type 0 where
  pub out : q.dir ≡ md_out
  pub qos : q.qos ≤ 2
  pub allowed : 0 < s.context.max_qos
  pub is_there : find_stored id s.db.msg_store ≡ some stored
  pub room : refs id s.db.msg_store < 4294967295
  pub copied : AreCopied stored.dest_ids

judged-IsDone :
    (elsewhere : ℕ → ℕ) (a : Allocated) (mid qos : ℕ) (retain update : Bool) (id : List ℕ)
    (stored : Stored) (s : State) (v : Verdict)
    → IsInsertable stored.db_id stored
        (record { mid = mid; dir = md_out; qos = qos; retain = retain; update = update })
        s
    → IsRight elsewhere s
    → IsAcceptable v
    → IsDone elsewhere (
        judged v a
          (record { mid = mid; dir = md_out; qos = qos; retain = retain; update = update })
          id
          stored
          s)
judged-IsDone elsewhere a mid qos retain update id stored s dropped q right acc = (
  record {
    code = err protocol;
    state = record s { context = record s.context { is_dropping = true } };
  },
  refl,
  right,
  λ e. cc,
)
judged-IsDone elsewhere a mid qos retain update id stored s (refused e) q right acc =
    (record { code = err e; state = s }, refl, right, λ e. cc)
judged-IsDone elsewhere a mid qos retain update id stored s (accepted state rc) q right (valid, c) =
    let asked : Asked = record {
      mid = mid;
      dir = md_out;
      qos = qos;
      retain = retain;
      update = update;
    } in
    let m = new_msg asked stored state s in
    let same : ltb 0 (capped s.context.max_qos qos) ≡ ltb 0 qos = ground (arith, q.allowed) in
    let st = s.db.msg_store in
    let s' =
      set_out (enlist m qos stored.payloadlen s.context.msgs_out)
        (put_entry (counted_once stored) s) in
    rw valid (elim (Bool-cases (not a.msg)) [
      | inl t ↦ rw t (record { code = err nomem; state = s }, refl, right, λ e. cc)
      | inr t ↦ rw t (
          note-IsDone elsewhere a update rc id (counted_once stored) m s'
            (find_stored-put stored.db_id (counted_once stored) stored st refl q.is_there)
            (enlist-IsRight elsewhere stored s m qos stored.payloadlen q.is_there refl same q.room
              right)
            c)
    ])

judge-IsDone :
    (elsewhere : ℕ → ℕ) (seen : Bool) (a : Allocated) (mid qos : ℕ) (retain update : Bool)
    (id : List ℕ) (stored : Stored) (s : State)
    → IsInsertable stored.db_id stored
        (record { mid = mid; dir = md_out; qos = qos; retain = retain; update = update })
        s
    → IsRight elsewhere s
    → IsDone elsewhere (
        judge
          (some seen)
          a
          (record { mid = mid; dir = md_out; qos = qos; retain = retain; update = update })
          id
          stored
          s)
judge-IsDone elsewhere true a mid qos retain update id stored s q right =
    (record { code = success; state = s }, refl, right, λ e. cc)
judge-IsDone elsewhere false a mid qos retain update id stored s q right =
    elim (Bool-cases (is_refused s.db.config s.context qos)) [
      | inl t ↦ rw t (record { code = err protocol; state = s }, refl, right, λ e. cc)
      | inr t ↦ rw t (
          judged-IsDone elsewhere a mid qos retain update id stored s
            (verdict s.db.config s.context md_out qos) q right
            (verdict-IsAcceptable s.db.config s.context qos q.qos))
    ]

insert_for-IsDone :
    (elsewhere : ℕ → ℕ) (client : Option (List ℕ)) (a : Allocated) (mid qos : ℕ)
    (retain update : Bool) (stored : Stored) (s : State)
    → IsInsertable stored.db_id stored
        (record { mid = mid; dir = md_out; qos = qos; retain = retain; update = update })
        s
    → IsRight elsewhere s
    → IsDone elsewhere (
        insert_for client a
          (record { mid = mid; dir = md_out; qos = qos; retain = retain; update = update })
          stored
          s)
insert_for-IsDone elsewhere none a mid qos retain update stored s q right =
    (record { code = success; state = s }, refl, right, λ e. cc)
insert_for-IsDone elsewhere (some id) a mid qos retain update stored s q right =
    elim (Bool-cases (not (is_mqtt5 s.context.protocol) && is_noted s.db.config md_out retain)) [
      | inl t ↦
          let (b, e) = was_sent_to-AreCopied id stored.dest_ids q.copied in
          rw (t, e) (judge-IsDone elsewhere b a mid qos retain update id stored s q right)
      | inr t ↦ rw t (judge-IsDone elsewhere false a mid qos retain update id stored s q right)
    ]

-- Where the counters and the counts of references were right for the outgoing messages of a client, and
-- an outgoing message of QoS 0 to 2 is in the store, with room for one more reference and no id that was
-- not copied, and the client may be sent more than QoS 0, `db__message_insert`, whatever is allocated
-- and whatever the network answers, reads no message that was freed, returns, and leaves the counters
-- and the counts right again.
pub message_insert-IsDone :
    (elsewhere : ℕ → ℕ) (a : Allocated) (mid qos : ℕ) (retain update : Bool) (stored : Stored)
    (s : State)
    → IsInsertable stored.db_id stored
        (record { mid = mid; dir = md_out; qos = qos; retain = retain; update = update })
        s
    → IsRight elsewhere s
    → IsDone elsewhere (
        message_insert a
          (record { mid = mid; dir = md_out; qos = qos; retain = retain; update = update })
          stored.db_id
          s)
unfolding message_insert
message_insert-IsDone elsewhere a mid qos retain update stored s q right =
    rw (message_insert, q.is_there)
      (insert_for-IsDone elsewhere s.context.id a mid qos retain update stored s q right)
