-- ===== src/Database/Recounted.antt =====
-- The counters and the references after a client has connected again, src/database.c.
use dimq.Database.Send.{set_out, State}
use dimq.Prelude.{
  append_assoc, sym, ◌∙◌, ap, ◌==◌, ltb, Bool-cases, ◌%◌, length, if◌then◌else◌, List, [], ◌∷◌,
  ◌++◌, ℕ, ◌+◌, ◌≡◌, ◌≤◌, ◌<◌, refl, Option, none, some, arith, inl, inr,
}
use dimq.Database.{set_msgs, ready_for_flight, Config, ClientMsg, MsgData, Stored, Db, Context}
use dimq.Database.Store.{find_stored}
use dimq.Database.Reset.{
  retry_state, recount, use_quota, uncounted, reset_inflight_out, visit, reset_queued, then_queued,
  stored_out, reset_outgoing,
}
use dimq.Messages.{Direction, md_out}
use dimq.Database.Counts.{refs, AreDistinct, find_stored-refs}
use dimq.Database.Ledger.{holds, number12}
use dimq.Database.Kept.{IsRight}
use dimq.Database.Out.{ready}

-- The sum of a weight that depends on the entry of the store and the QoS only
unfoldable pub sum_of : (ℕ → ℕ → ℕ) → List ClientMsg → ℕ
sum_of w [] = 0
sum_of w (m ∷ ms) = w m.store m.qos + sum_of w ms

sum_of-append :
    (w : ℕ → ℕ → ℕ) (ms ns : List ClientMsg) → sum_of w (ms ++ ns) ≡ sum_of w ms + sum_of w ns
unfolding sum_of
sum_of-append w [] ns = omega arith
sum_of-append w (m ∷ ms) ns = omega (arith, sum_of-append w ms ns)

abbrev one : ℕ → ℕ → ℕ
one store qos = 1

abbrev above_0 : ℕ → ℕ → ℕ
above_0 store qos = if ltb 0 qos then 1 else 0

abbrev is_at : ℕ → ℕ → ℕ → ℕ
is_at x store qos = if store == x then 1 else 0

length-sum_of : (ms : List ClientMsg) → length ms ≡ sum_of one ms
unfolding sum_of
length-sum_of [] = refl
length-sum_of (m ∷ ms) = omega (arith, length-sum_of ms)

number12-sum_of : (ms : List ClientMsg) → number12 ms ≡ sum_of above_0 ms
unfolding sum_of number12
number12-sum_of [] = refl
number12-sum_of (m ∷ ms) = omega (arith, number12-sum_of ms)

holds-sum_of : (x : ℕ) (ms : List ClientMsg) → holds x ms ≡ sum_of (is_at x) ms
unfolding sum_of holds
holds-sum_of x [] = refl
holds-sum_of x (m ∷ ms) = omega (arith, holds-sum_of x ms)

-- What is in flight and what is queued
abbrev both : (ℕ → ℕ → ℕ) → MsgData → ℕ
both w d = sum_of w d.inflight + sum_of w d.queued

-- The counters hold the sums of what was counted.
abbrev AreCounted : ℕ → ℕ → MsgData → Type 0
AreCounted n n12 d = (d.msg_count ≡ n % 4294967296) × (d.msg_count12 ≡ n12 % 4294967296)

recount-AreCounted :
    (n n12 : ℕ) (m : ClientMsg) (len : ℕ) (d : MsgData)
    → AreCounted n n12 d
    → AreCounted (n + 1) (n12 + above_0 m.store m.qos) (recount m len d)
recount-AreCounted n n12 m len d (c, c12) = (omega (arith, c), ground (arith, c12))

-- Every message of a list is in the store.
abbrev AreHeld : List ClientMsg → Db → Type 0
AreHeld ms db = (x : ℕ) → sum_of (is_at x) ms ≤ refs x db.msg_store

held-first :
    (m : ClientMsg) (ms : List ClientMsg) (db : Db)
    → AreHeld (m ∷ ms) db
    → (s : Stored) × (find_stored m.store db.msg_store ≡ some s)
unfolding sum_of
held-first m ms db held =
    let h = held m.store in find_stored-refs m.store db.msg_store (ground (arith, h))

held-rest : (m : ClientMsg) (ms : List ClientMsg) (db : Db) → AreHeld (m ∷ ms) db → AreHeld ms db
unfolding sum_of
held-rest m ms db held x = omega (arith, held x)

-- The first loop
reset_inflight_out-AreCounted :
    (ms : List ClientMsg) (n n12 : ℕ) (d : MsgData) (db : Db)
    → AreHeld ms db
    → AreCounted n n12 d
    → (ms' : List ClientMsg) × (d' : MsgData) × (reset_inflight_out ms d db ≡ some (ms', d', db))
      × (AreCounted (n + sum_of one ms) (n12 + sum_of above_0 ms) d')
      × (d'.queued ≡ d.queued)
      × ((w : ℕ → ℕ → ℕ) → sum_of w ms' ≡ sum_of w ms)
unfolding reset_inflight_out sum_of
reset_inflight_out-AreCounted [] n n12 d db held (c, c12) =
    ([], d, refl, (omega (arith, c), omega (arith, c12)), refl, λ w. refl)
reset_inflight_out-AreCounted (m ∷ ms) n n12 d db held c =
    let (s, e) = held-first m ms db held in
    let (ms', d', e', (k, k12), q, same) =
      reset_inflight_out-AreCounted ms (n + 1) (n12 + above_0 m.store m.qos)
        (use_quota m (recount m s.payloadlen d)) db (held-rest m ms db held)
        (recount-AreCounted n n12 m s.payloadlen d c) in
    (
      record m { state = retry_state m.qos m.state } ∷ ms',
      d',
      rw (reset_inflight_out, e, e') refl,
      (omega (arith, k), omega (arith, k12)),
      q,
      λ w. omega (arith, same w),
    )

-- A message of the queue
visit-both :
    (k : Config) (c : Context) (passed : List ClientMsg) (m : ClientMsg) (ms : List ClientMsg)
    (d : MsgData)
    → d.queued ≡ passed ++ (m ∷ ms)
    → let p = visit k c md_out passed m ms d in
      (p.1.queued ≡ p.0 ++ ms)
      × (p.1.msg_count ≡ d.msg_count)
      × (p.1.msg_count12 ≡ d.msg_count12)
      × ((w : ℕ → ℕ → ℕ) → both w p.1 ≡ both w d)
unfolding sum_of
visit-both k c [] m ms d same =
    elim (Bool-cases (ready_for_flight k (set_msgs md_out d c) md_out m.qos)) [
      | inl t ↦ rw t (
        refl,
        refl,
        refl,
        λ w.
            let all = ap (sum_of w) same in
            let more = sum_of-append w d.inflight (ready m ∷ []) in omega (arith, all, more),
      )
      | inr t ↦ rw t (same, refl, refl, λ w. refl)
    ]
visit-both k c (p ∷ ps) m ms d same =
    elim (Bool-cases (ready_for_flight k (set_msgs md_out d c) md_out m.qos)) [
      | inl t ↦ rw t (
        refl,
        refl,
        refl,
        λ w.
            let all = ap (sum_of w) same in
            let split = sum_of-append w ps (m ∷ ms) in
            let others = sum_of-append w (ps ++ (ready m ∷ [])) ms in
            let passed = sum_of-append w ps (ready m ∷ []) in
            let more = sum_of-append w d.inflight (p ∷ []) in
            omega (arith, all, split, others, passed, more),
      )
      | inr t ↦ rw t (same ∙ sym (append_assoc (p ∷ ps) (m ∷ []) ms), refl, refl, λ w. refl)
    ]

-- The second loop
reset_queued-AreCounted :
    (ms : List ClientMsg) (c : Context) (passed : List ClientMsg) (n n12 : ℕ) (d : MsgData)
    (db : Db)
    → d.queued ≡ passed ++ ms
    → AreHeld ms db
    → AreCounted n n12 d
    → (d' : MsgData) × (reset_queued c md_out passed ms d db ≡ some d')
      × (AreCounted (n + sum_of one ms) (n12 + sum_of above_0 ms) d')
      × ((w : ℕ → ℕ → ℕ) → both w d' ≡ both w d)
unfolding reset_queued sum_of
reset_queued-AreCounted [] c passed n n12 d db same held (k, k12) =
    (d, refl, (omega (arith, k), omega (arith, k12)), λ w. refl)
reset_queued-AreCounted (m ∷ ms) c passed n n12 d db same held k =
    let (s, e) = held-first m ms db held in
    let d1 = recount m s.payloadlen d in
    let p = visit db.config c md_out passed m ms d1 in
    let (q, count, count12, all) = visit-both db.config c passed m ms d1 same in
    let (k1, k12) = recount-AreCounted n n12 m s.payloadlen d k in
    let (d', e', (k', k12'), all') =
      reset_queued-AreCounted ms c p.0 (n + 1) (n12 + above_0 m.store m.qos) p.1 db q
        (held-rest m ms db held) (count ∙ k1, count12 ∙ k12) in
    (
      d',
      rw (reset_queued, e, e') refl,
      (omega (arith, k'), omega (arith, k12')),
      λ w. all' w ∙ all w,
    )

then_queued-some :
    (c : Context) (dir : Direction) (ms : List ClientMsg) (d d' : MsgData) (db : Db)
    → reset_queued c dir [] d.queued (record d { inflight = ms }) db ≡ some d'
    → then_queued c dir (some (ms, d, db)) ≡ some (d', db)
then_queued-some c dir ms d d' db e =
    ap
      (λ (o : Option MsgData). elim o as (λ x. Option (MsgData × Db)) [
        | none ↦ none
        | some y ↦ some (y, db)
      ])
      e

-- The counts of references are right for the outgoing messages of a client.
pub record IsReferenced (elsewhere : ℕ → ℕ) (s : State) : Type 0 where
  pub counted :
      (x : ℕ)
      → refs x s.db.msg_store
        ≡ elsewhere x + (holds x s.context.msgs_out.queued + holds x s.context.msgs_out.inflight)
  pub small : (x : ℕ) → refs x s.db.msg_store < 4294967296
  pub distinct : AreDistinct s.db.msg_store

-- Where the counts of references are right for the outgoing messages of a client, whatever the counters
-- were: `db__message_reconnect_reset_outgoing` reads no message that was freed and returns, and both the
-- counters and the counts of references are right for the messages that the client then has in flight
-- and in the queue.
pub reset_outgoing-IsRight :
    (elsewhere : ℕ → ℕ) (s : State)
    → IsReferenced elsewhere s
    → (t : State) × (reset_outgoing s ≡ some t) × IsRight elsewhere t
unfolding reset_outgoing
reset_outgoing-IsRight elsewhere s right =
    let d = s.context.msgs_out in
    let held : (x : ℕ) → refs x s.db.msg_store ≡ elsewhere x + both (is_at x) d =
      λ x. omega (arith, right.counted x, holds-sum_of x d.queued, holds-sum_of x d.inflight) in
    let (ms', d1, e1, k1, q1, same1) =
      reset_inflight_out-AreCounted d.inflight 0 0 (uncounted d) s.db (λ x. omega (arith, held x))
        (refl, refl) in
    let d2 = record d1 { inflight = ms' } in
    let (d3, e3, (k3, k12), same3) =
      reset_queued-AreCounted d.queued s.context [] (0 + sum_of one d.inflight)
        (0 + sum_of above_0 d.inflight) d2 s.db q1 (λ x. omega (arith, held x)) k1 in
    let kept : (w : ℕ → ℕ → ℕ) → both w d3 ≡ both w d =
      λ w. omega (arith, same3 w, same1 w, ap (sum_of w) q1) in
    let queued : reset_queued s.context md_out [] d1.queued d2 s.db ≡ some d3 =
      ap (λ l. reset_queued s.context md_out [] l d2 s.db) q1 ∙ e3 in
    let reset : reset_outgoing s ≡ some (set_out d3 s) =
      ap (λ o. stored_out s (then_queued s.context md_out o)) e1
      ∙ ap (stored_out s) (then_queued-some s.context md_out ms' d1 d3 s.db queued) in
    (
      set_out d3 s,
      reset,
      record {
        count = omega (arith, k3, kept one, length-sum_of d3.queued, length-sum_of d3.inflight);
        count12 =
            omega
              (arith, k12, kept above_0, number12-sum_of d3.queued, number12-sum_of d3.inflight);
        counted = λ x.
            omega
              (arith, held x, kept (is_at x), holds-sum_of x d3.queued, holds-sum_of x d3.inflight);
        small = right.small;
        distinct = right.distinct;
      },
    )
