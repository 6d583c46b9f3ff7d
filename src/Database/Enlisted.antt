-- ===== src/Database/Enlisted.antt =====
-- The counters and the references after `db__message_insert`, src/database.c.
use dimq.Database.Insert.{put_entry, enlist, is_queued}
use dimq.Prelude.{
  length-append, ◌∙◌, ==_iff, sym, ap, Bool-cases, ◌==◌, if◌then◌else◌, ◌<◌, ltb, [], ◌∷◌, ℕ, ◌+◌,
  ◌≡◌, refl, some, arith, inl, inr,
}
use dimq.Database.{ClientMsg, Stored, int_add}
use dimq.Database.Store.{find_stored, put_stored}
use dimq.Database.Counts.{refs, refs-put, refs-find, put-AreDistinct}
use dimq.Database.Ledger.{holds, number12}
use dimq.Database.Kept.{IsRight, number12-append, holds-append}
use dimq.Database.Send.{State, set_out}

-- The entry with one more reference
abbrev pub counted_once : Stored → Stored
counted_once stored = record stored { ref_count = int_add stored.ref_count 1 }

pub enlist-IsRight :
    (elsewhere : ℕ → ℕ) (stored : Stored) (s : State) (m : ClientMsg) (qos len : ℕ)
    → find_stored stored.db_id s.db.msg_store ≡ some stored
    → m.store ≡ stored.db_id
    → ltb 0 m.qos ≡ ltb 0 qos
    → refs stored.db_id s.db.msg_store < 4294967295
    → IsRight elsewhere s
    → IsRight elsewhere
        (set_out (enlist m qos len s.context.msgs_out) (put_entry (counted_once stored) s))
unfolding number12 holds
enlist-IsRight elsewhere stored s m qos len e store same room right =
    let st = s.db.msg_store in
    let d = s.context.msgs_out in
    let stored' = counted_once stored in
    let count = refs-find stored.db_id st stored e in
    let more : (x : ℕ)
        → refs x (put_stored stored.db_id stored' st)
          ≡ (if m.store == x then 1 else 0) + refs x st =
      λ x. elim (Bool-cases (stored.db_id == x)) [
        | inl t ↦
            let at_x : refs x st ≡ stored.ref_count =
              ap (λ i. refs i st) (sym ((==_iff stored.db_id x).0 t)) ∙ count in
            rw (refs-put x stored.db_id stored' stored st refl e, store, t)
              (omega (arith, at_x, count, room))
        | inr t ↦ rw (refs-put x stored.db_id stored' stored st refl e, store, t) (omega arith)
      ] in
    let distinct = put-AreDistinct stored.db_id stored' st refl right.distinct in
    let small : (x : ℕ) → refs x (put_stored stored.db_id stored' st) < 4294967296 = λ x.
      elim (Bool-cases (m.store == x)) [
        | inl t ↦
            let at_x : refs x st ≡ refs stored.db_id st =
              ap (λ i. refs i st) (sym ((==_iff m.store x).0 t) ∙ store) in
            let one : refs x (put_stored stored.db_id stored' st) ≡ 1 + refs x st =
              more x ∙ rw t refl in
            omega (arith, one, at_x, room)
        | inr t ↦
            let one : refs x (put_stored stored.db_id stored' st) ≡ 0 + refs x st =
              more x ∙ rw t refl in
            omega (arith, one, right.small x)
      ] in
    elim (Bool-cases (is_queued m.state)) [
      | inl t ↦ record {
        count = rw (t, length-append d.queued (m ∷ [])) (omega (arith, right.count));
        count12 =
            rw (t, number12-append d.queued (m ∷ []), number12, same)
              (ground (arith, right.count12));
        counted = λ x.
            rw (t, more x, holds-append x d.queued (m ∷ []), holds)
              (omega (arith, right.counted x));
        small = small;
        distinct = distinct;
      }
      | inr t ↦ record {
        count = rw (t, length-append d.inflight (m ∷ [])) (omega (arith, right.count));
        count12 =
            rw (t, number12-append d.inflight (m ∷ []), number12, same)
              (ground (arith, right.count12));
        counted = λ x.
            rw (t, more x, holds-append x d.inflight (m ∷ []), holds)
              (omega (arith, right.counted x));
        small = small;
        distinct = distinct;
      }
    ]
