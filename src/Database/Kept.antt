-- ===== src/Database/Kept.antt =====
-- The counters and the references through the functions of src/database.c that are called for a client.
use dimq.Database.Send.{
  is_empty, is_publish, from_head, State, set_out, Done, write_each, put_back, latest, walk_back,
  step_back, write_inflight_out_latest, write_inflight_out_all,
}
use dimq.Prelude.{
  ◌||◌, sym, not, ap, ◌≢◌, ◌∙◌, subst, length-append, Bool-cases, List, [], ◌∷◌, ◌++◌, ℕ, ◌+◌, ◌≡◌,
  refl, Option, some, arith, inl, inr,
}
use dimq.Result.{fault, success}
use dimq.Database.{ClientMsg, MsgData, Db}
use dimq.Database.Ledger.{IsSound, holds, number12}
use dimq.Database.Walk.{IsSound-agree}
use dimq.Database.Written.{write_each-IsWalked}

-- The counters and the references are right for the outgoing messages of the client.
abbrev pub IsRight : (ℕ → ℕ) → State → Type 0
IsRight elsewhere s =
    IsSound elsewhere s.context.msgs_out.queued s.context.msgs_out.inflight s.context.msgs_out s.db

abbrev pub IsDone : (ℕ → ℕ) → Option Done → Type 0
IsDone elsewhere o = (r : Done) × (o ≡ some r) × IsRight elsewhere r.state × (r.code ≢ fault)

pub number12-append : (xs ys : List ClientMsg) → number12 (xs ++ ys) ≡ number12 xs + number12 ys
unfolding number12
number12-append [] ys = omega arith
number12-append (x ∷ xs) ys = omega (arith, number12-append xs ys)

pub holds-append : (x : ℕ) (ms ns : List ClientMsg) → holds x (ms ++ ns) ≡ holds x ms + holds x ns
unfolding holds
holds-append x [] ns = omega arith
holds-append x (m ∷ ms) ns = omega (arith, holds-append x ms ns)

-- The first part of the messages in flight is counted with the queue, and back.
split_off :
    (elsewhere : ℕ → ℕ) (queue before after : List ClientMsg) (d : MsgData) (db : Db)
    → IsSound elsewhere queue (before ++ after) d db
    → IsSound elsewhere (queue ++ before) after d db
split_off elsewhere queue before after d db sound =
    IsSound-agree elsewhere queue (before ++ after) (queue ++ before) after d d db sound refl refl
      (omega (arith, length-append queue before, length-append before after))
      (omega (arith, number12-append queue before, number12-append before after))
      (λ x. omega (arith, holds-append x queue before, holds-append x before after))

join_back :
    (elsewhere : ℕ → ℕ) (queue before after : List ClientMsg) (d d' : MsgData) (db : Db)
    → IsSound elsewhere (queue ++ before) after d db
    → d'.msg_count ≡ d.msg_count
    → d'.msg_count12 ≡ d.msg_count12
    → IsSound elsewhere queue (before ++ after) d' db
join_back elsewhere queue before after d d' db sound c c12 =
    IsSound-agree elsewhere (queue ++ before) after queue (before ++ after) d d' db sound c c12
      (omega (arith, length-append queue before, length-append before after))
      (omega (arith, number12-append queue before, number12-append before after))
      (λ x. omega (arith, holds-append x queue before, holds-append x before after))

-- A walk over the last messages in flight.
put_back-IsDone :
    (elsewhere : ℕ → ℕ) (before after : List ClientMsg) (s : State)
    → IsRight elsewhere s
    → before ++ after ≡ s.context.msgs_out.inflight
    → IsDone elsewhere (put_back before (write_each after s))
put_back-IsDone elsewhere before after s sound same =
    let queue = s.context.msgs_out.queued in
    let parted =
      subst (λ ms. IsSound elsewhere queue ms s.context.msgs_out s.db) (sym same) sound in
    let (r, e, (sound', c, (q, i, n))) =
      write_each-IsWalked after elsewhere (queue ++ before) s
        (split_off elsewhere queue before after s.context.msgs_out s.db parted) in
    let d = record r.state.context.msgs_out { inflight = before ++ r.left } in
    (
      record { code = r.code; state = set_out d r.state },
      rw e refl,
      subst (λ l. IsSound elsewhere l (before ++ r.left) d r.state.db) (sym q)
          (join_back elsewhere queue before r.left r.state.context.msgs_out d r.state.db sound' refl
            refl),
      c,
    )

step_back-append :
    (m : ClientMsg) (p : List ClientMsg × List ClientMsg)
    → (step_back m p).0 ++ (step_back m p).1 ≡ m ∷ (p.0 ++ p.1)
step_back-append m ([], after) = elim (Bool-cases (is_publish m.state)) [
  | inl t ↦ rw t refl
  | inr t ↦ rw t refl
]
step_back-append m (b ∷ before, after) = refl

walk_back-append : (ms : List ClientMsg) → (walk_back ms).0 ++ (walk_back ms).1 ≡ ms
unfolding walk_back
walk_back-append [] = refl
walk_back-append (m ∷ ms) =
    step_back-append m (walk_back ms) ∙ ap (λ l. m ∷ l) (walk_back-append ms)

from_head-append :
    (m : ClientMsg) (p : List ClientMsg × List ClientMsg)
    → (from_head m p).0 ++ (from_head m p).1 ≡ m ∷ (p.0 ++ p.1)
from_head-append m ([], after) = refl
from_head-append m (b ∷ before, after) = refl

latest-append : (ms : List ClientMsg) → (latest ms).0 ++ (latest ms).1 ≡ ms
latest-append [] = refl
latest-append (m ∷ ms) = from_head-append m (walk_back ms) ∙ ap (λ l. m ∷ l) (walk_back-append ms)

pub write_inflight_out_latest-IsDone :
    (elsewhere : ℕ → ℕ) (s : State)
    → IsRight elsewhere s
    → IsDone elsewhere (write_inflight_out_latest s)
unfolding write_inflight_out_latest
write_inflight_out_latest-IsDone elsewhere s sound =
    let ms = s.context.msgs_out.inflight in
    elim (Bool-cases (not s.context.is_active || not s.context.has_sock || is_empty ms)) [
      | inl t ↦ rw t (record { code = success; state = s }, refl, sound, λ e. cc)
      | inr t ↦
          rw t (put_back-IsDone elsewhere (latest ms).0 (latest ms).1 s sound (latest-append ms))
    ]

pub write_inflight_out_all-IsDone :
    (elsewhere : ℕ → ℕ) (s : State)
    → IsRight elsewhere s
    → IsDone elsewhere (write_inflight_out_all s)
unfolding write_inflight_out_all
write_inflight_out_all-IsDone elsewhere s sound =
    elim (Bool-cases (not s.context.is_active || not s.context.has_sock)) [
      | inl t ↦ rw t (record { code = success; state = s }, refl, sound, λ e. cc)
      | inr t ↦ rw t (put_back-IsDone elsewhere [] s.context.msgs_out.inflight s sound refl)
    ]
