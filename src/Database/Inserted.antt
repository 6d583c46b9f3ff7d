-- ===== src/Database/Inserted.antt =====
-- The counters and the references through `db__message_insert`, src/database.c.
use dimq.Prelude.{
  ◌∙◌, subst, ==_iff, sym, not, ltb, ap, ◌==◌, Bool-cases, List, [], ◌∷◌, ℕ, ◌≡◌, ◌≢◌, refl, Bool,
  true, false, Option, some, arith, inl, inr,
}
use dimq.Database.Insert.{
  is_noted, Allocated, note, finish, updated, write_queued_after, put_entry, note_dest, woken,
}
use dimq.Result.{nomem, Status, ok, err, fault}
use dimq.Messages.{md_out, decrement_quota}
use dimq.Database.{ClientMsg, Stored}
use dimq.Database.Store.{find_stored, put_stored}
use dimq.Database.Counts.{refs, refs-put, refs-find, put-AreDistinct}
use dimq.Database.Walk.{IsSound-agree}
use dimq.Database.Kept.{IsRight, IsDone, write_inflight_out_latest-IsDone}
use dimq.Database.Acknowledged.{write_queued_out-IsRight}
use dimq.Database.Send.{State, Done, set_out, write_inflight_out_latest}
use dimq.Database.Out.{write_queued_out}

pub find_stored-put :
    (id : ℕ) (s' s : Stored) (st : List Stored)
    → s'.db_id ≡ id
    → find_stored id st ≡ some s
    → find_stored id (put_stored id s' st) ≡ some s'
unfolding find_stored put_stored
find_stored-put id s' s [] same e = cc
find_stored-put id s' s (r ∷ st) same e = elim (Bool-cases (r.db_id == id)) [
  | inl t ↦ rw t (ground (arith, same))
  | inr t ↦ rw t (rw t (find_stored-put id s' s st same (rw t at e)))
]

write_queued_out-returns : (s : State) → (write_queued_out s).code ≢ fault
unfolding write_queued_out
write_queued_out-returns s = elim (Bool-cases (not s.context.is_active)) [
  | inl t ↦ rw t (λ e. cc)
  | inr t ↦ rw t (λ e. cc)
]

after_write :
    (elsewhere : ℕ → ℕ) (code : Status) (s : State)
    → IsRight elsewhere s
    → code ≢ fault
    → IsDone elsewhere (write_queued_after (some (record { code = code; state = s })))
after_write elsewhere (ok u) s right c = (
  write_queued_out s,
  refl,
  write_queued_out-IsRight elsewhere s right,
  write_queued_out-returns s,
)
after_write elsewhere (err e) s right c = (record { code = err e; state = s }, refl, right, c)
after_write elsewhere fault s right c = absurd (c refl)

write_queued_after-IsDone :
    (elsewhere : ℕ → ℕ) (o : Option Done)
    → IsDone elsewhere o
    → IsDone elsewhere (write_queued_after o)
write_queued_after-IsDone elsewhere o (r, e, right, c) =
    rw e (after_write elsewhere r.code r.state right c)

updated-IsDone :
    (elsewhere : ℕ → ℕ) (update : Bool) (rc : Status) (s : State)
    → IsRight elsewhere s
    → rc ≢ fault
    → IsDone elsewhere (updated md_out update rc s)
updated-IsDone elsewhere true rc s right c =
    write_queued_after-IsDone elsewhere (write_inflight_out_latest s)
      (write_inflight_out_latest-IsDone elsewhere s right)
updated-IsDone elsewhere false rc s right c = (record { code = rc; state = s }, refl, right, c)

finish-IsDone :
    (elsewhere : ℕ → ℕ) (update : Bool) (rc : Status) (qos : ℕ) (s : State)
    → IsRight elsewhere s
    → rc ≢ fault
    → IsDone elsewhere (finish md_out update rc qos s)
finish-IsDone elsewhere update rc qos s right c = elim (Bool-cases (ltb 0 qos)) [
  | inl t ↦
      let d = s.context.msgs_out in
      let d' = record d { inflight_quota = decrement_quota d.inflight_quota } in
      rw t (
        updated-IsDone elsewhere update rc (set_out d' (woken s))
          (IsSound-agree elsewhere d.queued d.inflight d.queued d.inflight d d' s.db right refl refl
            refl refl (λ x. refl))
          c)
  | inr t ↦ rw t (updated-IsDone elsewhere update rc (woken s) right c)
]

-- A copied id changes no count.
note_dest-IsRight :
    (elsewhere : ℕ → ℕ) (copied : Bool) (id : List ℕ) (stored : Stored) (s : State)
    → find_stored stored.db_id s.db.msg_store ≡ some stored
    → IsRight elsewhere s
    → IsRight elsewhere (put_entry (note_dest copied id stored) s)
note_dest-IsRight elsewhere copied id stored s e right =
    let st = s.db.msg_store in
    let stored' = note_dest copied id stored in
    let same : (x : ℕ) → refs x (put_stored stored.db_id stored' st) ≡ refs x st = λ x.
      elim (Bool-cases (stored.db_id == x)) [
        | inl t ↦
            let count : refs x st ≡ stored.ref_count =
              ap (λ i. refs i st) (sym ((==_iff stored.db_id x).0 t))
              ∙ refs-find stored.db_id st stored e in
            rw (refs-put x stored.db_id stored' stored st refl e, t) (sym count)
        | inr t ↦ rw (refs-put x stored.db_id stored' stored st refl e, t) refl
      ] in
    record {
      count = right.count;
      count12 = right.count12;
      counted = λ x. same x ∙ right.counted x;
      small = λ x. omega (arith, same x, right.small x);
      distinct = put-AreDistinct stored.db_id stored' st refl right.distinct;
    }

pub note-IsDone :
    (elsewhere : ℕ → ℕ) (a : Allocated) (update : Bool) (rc : Status) (id : List ℕ)
    (stored : Stored) (m : ClientMsg) (s : State)
    → find_stored stored.db_id s.db.msg_store ≡ some stored
    → IsRight elsewhere s
    → rc ≢ fault
    → IsDone elsewhere (note a md_out update rc id stored m s)
note-IsDone elsewhere a update rc id stored m s e right c =
    let noted = put_entry (note_dest a.dest_id id stored) s in
    let right' = note_dest-IsRight elsewhere a.dest_id id stored s e right in
    elim (Bool-cases (not (is_noted s.db.config md_out m.retain))) [
      | inl t ↦ rw t (finish-IsDone elsewhere update rc m.qos s right c)
      | inr t ↦ rw t (elim (Bool-cases (not a.dest_ids)) [
        | inl u ↦ rw u (record { code = err nomem; state = s }, refl, right, λ x. cc)
        | inr u ↦ rw u (elim (Bool-cases a.dest_id) [
          | inl v ↦ rw v (
              finish-IsDone elsewhere update rc m.qos (put_entry (note_dest true id stored) s)
                (subst (λ b. IsRight elsewhere (put_entry (note_dest b id stored) s)) v right') c)
          | inr v ↦ rw v (
            record { code = err nomem; state = put_entry (note_dest false id stored) s },
            refl,
            subst (λ b. IsRight elsewhere (put_entry (note_dest b id stored) s)) v right',
            λ x. cc,
          )
        ])
      ])
    ]
