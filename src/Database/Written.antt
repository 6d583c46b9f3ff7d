-- ===== src/Database/Written.antt =====
-- The counters and the references through a walk over the messages in flight, src/database.c.
use dimq.Database.Send.{keep, walk_on, State, Written, write_each}
use dimq.Prelude.{◌≢◌, ◌∙◌, List, [], ◌∷◌, ℕ, ◌≡◌, refl, Option, none, some, arith}
use dimq.Result.{Status, ok, err, fault, success}
use dimq.Database.{ClientMsg, MsgData, Db}
use dimq.Database.Ledger.{IsSound, holds, number12}
use dimq.Database.Walk.{IsUntouched, IsWritten, IsSound-agree, write_inflight_out_single-IsWritten}

-- What a walk leaves
abbrev pub IsWalked : (ℕ → ℕ) → List ClientMsg → State → Written → Type 0
IsWalked elsewhere others s r =
    IsSound elsewhere others r.left r.state.context.msgs_out r.state.db
    × (r.code ≢ fault)
    × IsUntouched s r.state

abbrev Walk : (ℕ → ℕ) → List ClientMsg → List ClientMsg → State → Type 0
Walk elsewhere others ms s =
    IsSound elsewhere others ms s.context.msgs_out s.db
    → (r : Written) × (write_each ms s ≡ some r) × IsWalked elsewhere others s r

untouched : (s t u : State) → IsUntouched s t → IsUntouched t u → IsUntouched s u
untouched s t u (q, i, n) (q', i', n') = (q' ∙ q, i' ∙ i, n' ∙ n)

-- A message goes from the front of one list to the front of another.
move_front :
    (m : ClientMsg) (elsewhere : ℕ → ℕ) (others ms : List ClientMsg) (d : MsgData) (db : Db)
    → IsSound elsewhere others (m ∷ ms) d db
    → IsSound elsewhere (m ∷ others) ms d db
unfolding holds number12
move_front m elsewhere others ms d db sound =
    IsSound-agree elsewhere others (m ∷ ms) (m ∷ others) ms d d db sound refl refl (omega arith)
      (omega arith) (λ x. omega arith)

move_back :
    (m : ClientMsg) (elsewhere : ℕ → ℕ) (others ms : List ClientMsg) (d : MsgData) (db : Db)
    → IsSound elsewhere (m ∷ others) ms d db
    → IsSound elsewhere others (m ∷ ms) d db
unfolding holds number12
move_back m elsewhere others ms d db sound =
    IsSound-agree elsewhere (m ∷ others) ms others (m ∷ ms) d d db sound refl refl (omega arith)
      (omega arith) (λ x. omega arith)

-- One message of the walk
walk_on-IsWalked :
    (code : Status) (left : Option ClientMsg) (t : State) (elsewhere : ℕ → ℕ)
    (others ms : List ClientMsg) (s : State)
    → IsWritten elsewhere others ms s (record { code = code; left = left; state = t })
    → ((o : List ClientMsg) → Walk elsewhere o ms t)
    → (r : Written) × (walk_on
          (some (record { code = code; left = left; state = t }))
          ms
          (write_each ms)
        ≡ some r)
      × IsWalked elsewhere others s r
walk_on-IsWalked (ok u) none t elsewhere others ms s (sound, c, same) ih =
    let (r, e, (sound', c', same')) = ih others sound in
    (r, rw e refl, (sound', c', untouched s t r.state same same'))
walk_on-IsWalked (ok u) (some m) t elsewhere others ms s (sound, c, same) ih =
    let (r, e, (sound', c', same')) =
      ih (m ∷ others) (move_front m elsewhere others ms t.context.msgs_out t.db sound) in
    (
      record r { left = m ∷ r.left },
      rw e refl,
      (
        move_back m elsewhere others r.left r.state.context.msgs_out r.state.db sound',
        c',
        untouched s t r.state same same',
      ),
    )
walk_on-IsWalked (err x) left t elsewhere others ms s (sound, c, same) ih =
    (record { code = err x; left = keep left ms; state = t }, refl, (sound, c, same))
walk_on-IsWalked fault left t elsewhere others ms s (sound, c, same) ih = absurd (c refl)

pub write_each-IsWalked :
    (ms : List ClientMsg) (elsewhere : ℕ → ℕ) (others : List ClientMsg) (s : State)
    → IsSound elsewhere others ms s.context.msgs_out s.db
    → (r : Written) × (write_each ms s ≡ some r) × IsWalked elsewhere others s r
unfolding write_each
write_each-IsWalked [] elsewhere others s sound =
    (record { code = success; left = []; state = s }, refl, (sound, (λ e. cc), (refl, refl, refl)))
write_each-IsWalked (m ∷ ms) elsewhere others s sound =
    let (r, e, w) = write_inflight_out_single-IsWritten m elsewhere others ms s sound in
    rw e (
      walk_on-IsWalked r.code r.left r.state elsewhere others ms s w
        (λ o more. write_each-IsWalked ms elsewhere o r.state more))
