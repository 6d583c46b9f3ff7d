-- ===== src/Frame/Driven.antt =====
-- lib/packet_dimq.c: `packet__read`, called again and again, comes to what the machine comes to.
use dimq.Frame.Stepped.{read-resume, read-pause, read-idle, IsHead}
use dimq.Frame.{
  cleaned, payload_code, halt_code, InPacket, Event, byte, halt, Halt, again, interrupted, eof,
  reset, failed, Link, Read, read, returns, add_payload, add_length, counted, negated, is_in_length,
  is_too_long, measured,
}
use dimq.Prelude.{
  if◌then◌else◌, ◌∙◌, ◌/◌, leb, ◌==◌, sym, Bool-cases, List, [], ◌∷◌, ℕ, zero, suc, ◌≡◌, ◌≢◌, ◌<◌,
  inl, inr, refl, arith, true, false, not, ◌&&◌, some,
}
use dimq.Result.{Status, Result, ok, err, fault, success}
use dimq.Frame.Feed.{
  Step, more, complete, refused, go_on, start_payload, feed_length, feed, IsMeasuring, IsBetween,
  drive, run, bytes, pauses, ArePauses, IsRun, is_open,
}
use dimq.Frame.Fed.{
  IsOpen, resume, is_in_length-measuring, counted-IsMeasuring, counted-positive, measured-same,
}

-- The packet that the machine goes on with
abbrev IsGoing : Step → Type 0
IsGoing (more p) = (p.command ≢ 0) × IsBetween p
IsGoing (complete p) = Unit {0}
IsGoing (refused c p) = is_open (returns c p []) ≡ false

go_on-IsGoing : (p : InPacket) → p.command ≢ 0 → is_in_length p ≡ false → IsGoing (go_on p)
go_on-IsGoing p c l = elim (Bool-cases (p.to_process == 0)) [
  | inl t ↦ rw t tt
  | inr t ↦ rw t (c, inr (c, inr (l, ground (arith, t))))
]

start_payload-IsGoing :
    (p : InPacket) (r : Result InPacket)
    → p.command ≢ 0
    → is_in_length p ≡ false
    → ((q : InPacket)
        → r ≡ ok q
        → (q.command ≡ p.command) × (q.remaining_count ≡ p.remaining_count))
    → IsGoing (start_payload p r)
start_payload-IsGoing p (ok q) c l same =
    let (command, count) = same q refl in go_on-IsGoing q (λ e. c (sym command ∙ e)) (rw count l)
start_payload-IsGoing p (err e) c l same = refl
start_payload-IsGoing p fault c l same = refl

feed_length-IsGoing :
    (k : Link) (b : ℕ) (p : InPacket) → p.command ≢ 0 → IsMeasuring p → IsGoing (feed_length k b p)
feed_length-IsGoing k b p c m =
    let p' = add_length b (counted p) in
    elim (Bool-cases (is_too_long (counted p))) [
      | inl t ↦ rw t refl
      | inr t ↦ rw t (elim (Bool-cases (leb 128 b)) [
        | inl u ↦ rw u (c, inr (c, inl (counted-IsMeasuring p m t)))
        | inr u ↦ rw u (
            start_payload-IsGoing (negated p') (measured k (negated p')) c
              (counted-positive p b m t) (λ q e. measured-same k (negated p') q e))
      ])
    ]

feed-IsGoing :
    (k : Link) (b : ℕ) (p : InPacket) → IsBetween p → (p.command ≡ 0 → b ≢ 0) → IsGoing (feed k b p)
unfolding feed
feed-IsGoing k b p (inl (c, n)) nonzero =
    let t : (p.command == 0) ≡ true = ground (arith, c) in
    rw (feed, t)
      (elim (Bool-cases (k.must_connect && not (b / 16 == 1))) [
        | inl u ↦ rw u refl
        | inr u ↦ rw u (nonzero c, inr (nonzero c, inl (inl n)))
      ])
feed-IsGoing k b p (inr (c, inl m)) nonzero =
    let t : (p.command == 0) ≡ false = ground (arith, c) in
    rw (feed, t, is_in_length-measuring p m) (feed_length-IsGoing k b p c m)
feed-IsGoing k b p (inr (c, inr (l, todo))) nonzero =
    let t : (p.command == 0) ≡ false = ground (arith, c) in
    rw (feed, t, l) (go_on-IsGoing (add_payload b p) c l)

drive-idle :
    (k : Link) (n : ℕ) (p : InPacket)
    → IsOpen k
    → IsBetween p
    → drive k n p [] ≡ returns success p []
unfolding drive
drive-idle k zero p o b = refl
drive-idle k (suc n) p o b = rw (read-idle k p o b) (drive-idle k n p o b)

-- A pause takes a call.
drive-pause :
    (k : Link) (n : ℕ) (h : Halt) (p : InPacket) (es : List Event)
    → IsOpen k
    → IsBetween p
    → halt_code h ≡ success
    → payload_code h ≡ success
    → drive k (suc n) p (halt h ∷ es) ≡ drive k n p es
unfolding drive
drive-pause k n h p es o b e e' = rw (read-pause k h p es o b e e') refl

finish-closed :
    (k : Link) (p : InPacket) (es : List Event) (c : Status)
    → is_open (record { code = c; packet = cleaned; rest = es; handled = some p }) ≡ false
finish-closed k p es (ok u) = refl
finish-closed k p es (err e) = refl
finish-closed k p es fault = refl

returns-closed :
    (c : Status) (p : InPacket) (es : List Event)
    → is_open (returns c p []) ≡ false
    → is_open (returns c p es) ≡ false
returns-closed (ok u) p es e = e
returns-closed (err x) p es e = refl
returns-closed fault p es e = refl

-- The rest of the run, after a step
abbrev pub after : Link → List ℕ → Step → Step × List ℕ
after k bs (more p) = run k p bs
after k bs (complete p) = (complete p, bs)
after k bs (refused c p) = (refused c p, bs)

step-IsRun :
    (k : Link) (n : ℕ) (es : List Event) (bs : List ℕ) (r : Read) (s : Step)
    → bytes es ≡ bs
    → r ≡ resume k s es
    → IsGoing s
    → ((p : InPacket) → p.command ≢ 0 → IsBetween p → IsRun k (run k p bs) (drive k (suc n) p es))
    → IsRun k (after k bs s) (if is_open r then drive k n r.packet r.rest else r)
unfolding drive
step-IsRun k n es bs r (more p) same e (c, b) ih = rw e (ih p c b)
step-IsRun k n es bs r (complete p) same e going ih =
    rw (e, finish-closed k p es (k.handle p)) (refl, refl, refl, same)
step-IsRun k n es bs r (refused c p) same e going ih =
    rw (e, returns-closed c p es going) (refl, refl, refl, same)

pub run-after :
    (k : Link) (p : InPacket) (b : ℕ) (bs : List ℕ) (s : Step)
    → feed k b p ≡ s
    → run k p (b ∷ bs) ≡ after k bs s
unfolding run
run-after k p b bs (more q) e = rw (run, e) refl
run-after k p b bs (complete q) e = rw (run, e) refl
run-after k p b bs (refused c q) e = rw (run, e) refl

IsHead-after : (p : InPacket) (bs : List ℕ) → p.command ≢ 0 → IsHead p bs
IsHead-after p [] c = tt
IsHead-after p (b ∷ bs) c = λ z. absurd (c z)

-- On a connection that is open, for a packet between two bytes (or none yet), when the socket hands over
-- bytes with any pauses (EAGAIN or EINTR) in any places, and the command byte is not 0: as many calls of
-- `packet__read` as there are pauses, and one more, come to what the machine comes to that takes one
-- byte at a time: the same packet handed on, the same code and the same bytes left, or the same
-- incomplete packet.
pub drive-IsRun :
    (k : Link) (es : List Event) (n : ℕ) (p : InPacket)
    → IsOpen k
    → IsBetween p
    → IsHead p (bytes es)
    → ArePauses es
    → pauses es < n
    → IsRun k (run k p (bytes es)) (drive k n p es)
unfolding bytes pauses run drive
drive-IsRun k [] n p o b h a lt = rw (drive-idle k n p o b) (refl, refl, refl, refl)
drive-IsRun k (byte x ∷ es) zero p o b h a lt = absurd (omega (arith, lt))
drive-IsRun k (byte x ∷ es) (suc n) p o b h a lt =
    rw (run-after k p x (bytes es) (feed k x p) refl) (
      step-IsRun k n es (bytes es) (read k p (byte x ∷ es)) (feed k x p) refl
        (read-resume k x p es o b h) (feed-IsGoing k x p b h)
        (λ q c b'. drive-IsRun k es (suc n) q o b' (IsHead-after q (bytes es) c) a lt))
drive-IsRun k (halt again ∷ es) zero p o b h a lt = absurd (omega (arith, lt))
drive-IsRun k (halt again ∷ es) (suc n) p o b h a lt =
    rw (drive-pause k n again p es o b refl refl) (drive-IsRun k es n p o b h a (omega (arith, lt)))
drive-IsRun k (halt interrupted ∷ es) zero p o b h a lt = absurd (omega (arith, lt))
drive-IsRun k (halt interrupted ∷ es) (suc n) p o b h a lt =
    rw (drive-pause k n interrupted p es o b refl refl)
      (drive-IsRun k es n p o b h a (omega (arith, lt)))
drive-IsRun k (halt eof ∷ es) n p o b h a lt = absurd a
drive-IsRun k (halt reset ∷ es) n p o b h a lt = absurd a
drive-IsRun k (halt failed ∷ es) n p o b h a lt = absurd a
