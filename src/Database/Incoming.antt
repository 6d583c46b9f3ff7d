-- ===== src/Database/Incoming.antt =====
-- src/database.c: the messages that come from a client. `none` of an option is a fault: a message that
-- was freed is read.
use dimq.Prelude.{
  sym, List, [], ◌∷◌, ◌++◌, ℕ, ◌+◌, ◌≡◌, ◌≢◌, refl, arith, not, ◌&&◌, Option, none, some, ◌==◌,
  if◌then◌else◌, length, ap, inl, inr, Bool-cases,
}
use dimq.Result.{Err, protocol, not_found, Status, err, fault, success}
use dimq.Messages.{MsgState, Net, rest_of}
use dimq.Database.{ClientMsg, MsgData, Db, Stored}
use dimq.Database.Store.{find_stored}
use dimq.Database.Counts.{find_stored-refs}
use dimq.Database.Ledger.{IsSound, holds, number12, message_remove-IsSound}
use dimq.Database.Walk.{IsSound-agree}
use dimq.Database.Send.{State, Done, set_in, message_remove}
use dimq.Database.Out.{Found, mismatch, missing, found, past_one, dequeue_first}
use dimq.Database.Reset.{first_of}
use dimq.Database.Acknowledged.{IsOut, past_one-IsOut}

-- The loop of `db__message_remove_incoming`
unfoldable pub find_incoming : ℕ → List ClientMsg → Found
find_incoming mid [] = missing 0
find_incoming mid (m ∷ ms) =
    let more = past_one m (find_incoming mid ms) in if m.mid == mid then found 0 m ms else more

abbrev pub removed_in : List ClientMsg → State → Option (MsgData × Db) → Option Done
removed_in ms s none = none
removed_in ms s (some (d, db)) =
    some (record {
      code = success;
      state = record (set_in (record d { inflight = ms }) s) { db = db };
    })

-- What the loop does with the message that it found: the QoS is that of the entry in the store.
abbrev pub remove_if_qos2 : Option Stored → ClientMsg → List ClientMsg → State → Option Done
remove_if_qos2 none m ms s = none
remove_if_qos2 (some stored) m ms s =
    if stored.qos == 2
    then removed_in ms s (message_remove m s.context.msgs_in s.db)
    else some (record { code = err protocol; state = s })

abbrev pub remove_found : Found → State → Option Done
remove_found mismatch s = none
remove_found (missing index) s = some (record { code = err not_found; state = s })
remove_found (found index m ms) s = remove_if_qos2 (find_stored m.store s.db.msg_store) m ms s

-- `db__message_remove_incoming`
unfoldable pub remove_incoming : ℕ → State → Option Done
remove_incoming mid s = remove_found (find_incoming mid s.context.msgs_in.inflight) s

-- A loop of `db__message_store_find`: the entry, where there is one
unfoldable pub find_source : ℕ → List ClientMsg → List Stored → Option (Option ℕ)
find_source mid [] store = some none
find_source mid (m ∷ ms) store = elim (find_stored m.store store) [
  | none ↦ none
  | some stored ↦
      let more = find_source mid ms store in
      if stored.source_mid == mid then some (some stored.db_id) else more
]

abbrev pub or_else : Option (Option ℕ) → Option (Option ℕ) → Option (Option ℕ)
or_else none more = none
or_else (some none) more = more
or_else (some (some id)) more = some (some id)

-- `db__message_store_find`
unfoldable pub message_store_find : ℕ → State → Option (Option ℕ)
message_store_find mid s =
    or_else (find_source mid s.context.msgs_in.inflight s.db.msg_store)
      (find_source mid s.context.msgs_in.queued s.db.msg_store)

-- A message of QoS 2 in the queue, by what `send__pubrec` answers: its state is changed, and the *first*
-- message of the queue is put in flight.
abbrev pub pubrec_state : Option Err → MsgState
pubrec_state none = MsgState.wait_for_pubrel
pubrec_state (some e) = MsgState.send_pubrec

abbrev pub code_of : Option Err → Status
code_of none = success
code_of (some e) = err e

-- The loop of `db__message_write_queued_in`; `passed` are the messages before this one that are still in
-- the queue.
unfoldable pub write_queued_in :
    ℕ → List ClientMsg → List ClientMsg → MsgData → Net → Status × MsgData
write_queued_in out_maximum passed [] d net = (success, d)
write_queued_in out_maximum passed (m ∷ ms) d net =
    let answer = net 0 in
    let (first, others) = first_of passed (record m { state = pubrec_state answer }) in
    let d' = dequeue_first first (others ++ ms) d in
    let is_qos2 = m.qos == 2 in
    let more =
      write_queued_in out_maximum (if is_qos2 then others else passed ++ (m ∷ [])) ms
        (if is_qos2 then d' else d) (if is_qos2 then rest_of net else net) in
    if not (out_maximum == 0) && d.inflight_quota == 0
    then (success, d)
    else if is_qos2
    then elim answer [ none ↦ more | some e ↦ (err e, d') ]
    else more

-- The counters and the references are right for the incoming messages of the client.
abbrev pub IsRightIn : (ℕ → ℕ) → State → Type 0
IsRightIn elsewhere s =
    IsSound elsewhere s.context.msgs_in.queued s.context.msgs_in.inflight s.context.msgs_in s.db

find_incoming-IsOut : (mid : ℕ) (ms : List ClientMsg) → IsOut ms (find_incoming mid ms)
unfolding find_incoming
find_incoming-IsOut mid [] = tt
find_incoming-IsOut mid (m ∷ ms) = elim (Bool-cases (m.mid == mid)) [
  | inl t ↦ rw t (refl, refl, λ x. refl)
  | inr t ↦ rw t (past_one-IsOut m ms (find_incoming mid ms) (find_incoming-IsOut mid ms))
]

abbrev pub IsDoneIn : (ℕ → ℕ) → Option Done → Type 0
IsDoneIn elsewhere o = (r : Done) × (o ≡ some r) × IsRightIn elsewhere r.state × (r.code ≢ fault)

remove_found-IsDoneIn :
    (elsewhere : ℕ → ℕ) (mid : ℕ) (f : Found) (s : State)
    → IsRightIn elsewhere s
    → IsOut s.context.msgs_in.inflight f
    → f ≢ mismatch
    → IsDoneIn elsewhere (remove_found f s)
unfolding holds
remove_found-IsDoneIn elsewhere mid mismatch s right o some_found = absurd (some_found refl)
remove_found-IsDoneIn elsewhere mid (missing index) s right o some_found =
    (record { code = err not_found; state = s }, refl, right, λ e. cc)
remove_found-IsDoneIn elsewhere mid (found index m rest) s right (len, number, held) some_found =
    let d = s.context.msgs_in in
    let in_front =
      IsSound-agree elsewhere d.queued d.inflight d.queued (m ∷ rest) d d s.db right refl refl
        (omega (arith, len)) (omega (arith, number)) (λ x. omega (arith, held x)) in
    let at_m = in_front.counted m.store in
    let (stored, e) = find_stored-refs m.store s.db.msg_store (ground (arith, at_m)) in
    let (d', db', n, e', same, sound') =
      message_remove-IsSound m elsewhere d.queued rest d s.db in_front in
    let d'' = record d' { inflight = rest } in
    let q : d.queued ≡ d'.queued = rw same refl in
    rw e (elim (Bool-cases (stored.qos == 2)) [
      | inl t ↦ (
        record { code = success; state = record (set_in d'' s) { db = db' } },
        rw (t, e') refl,
        IsSound-agree elsewhere d.queued rest d'.queued rest d' d'' db' sound' refl refl
            (ap (λ l. length l + length rest) (sym q))
            (ap (λ l. number12 l + number12 rest) (sym q))
            (λ x. ap (λ l. holds x l + holds x rest) (sym q)),
        λ z. cc,
      )
      | inr t ↦ (record { code = err protocol; state = s }, rw t refl, right, λ z. cc)
    ])

find_incoming-found : (mid : ℕ) (ms : List ClientMsg) → find_incoming mid ms ≢ mismatch
unfolding find_incoming
find_incoming-found mid [] = λ e. cc
find_incoming-found mid (m ∷ ms) = elim (Bool-cases (m.mid == mid)) [
  | inl t ↦ rw t (λ e. cc)
  | inr t ↦ rw t (past m (find_incoming mid ms) (find_incoming-found mid ms))
]
  where
    past : (n : ClientMsg) (f : Found) → f ≢ mismatch → past_one n f ≢ mismatch
    past n mismatch some_found = λ e. some_found refl
    past n (missing index) some_found = λ e. cc
    past n (found index m rest) some_found = λ e. cc

-- Where the counters and the counts of references were right for the incoming messages of a client,
-- `db__message_remove_incoming` of any id reads no message that was freed, returns, and leaves them
-- right again.
pub remove_incoming-IsDoneIn :
    (elsewhere : ℕ → ℕ) (mid : ℕ) (s : State)
    → IsRightIn elsewhere s
    → IsDoneIn elsewhere (remove_incoming mid s)
unfolding remove_incoming
remove_incoming-IsDoneIn elsewhere mid s right =
    remove_found-IsDoneIn elsewhere mid (find_incoming mid s.context.msgs_in.inflight) s right
      (find_incoming-IsOut mid s.context.msgs_in.inflight)
      (find_incoming-found mid s.context.msgs_in.inflight)
