-- ===== src/Frame/Fed.antt =====
-- lib/packet_dimq.c: a byte at the front of what the socket has leads to where the machine goes.
use dimq.Result.{nomem, Status, Result, ok, err, fault}
use dimq.Prelude.{
  ap, ◌∙◌, ltb, leb, ◌==◌, sym, Bool-cases, List, [], ◌∷◌, ℕ, ◌≡◌, ◌≢◌, inl, inr, refl, arith, true,
  false,
}
use dimq.Frame.{
  InPacket, Event, byte, halt, Link, Read, read, length_loop, payload_loop, finish, returns,
  add_length, counted, negated, is_in_length, is_too_long, measured, check_length, allocate,
  after_command, read_payload,
}
use dimq.Frame.Feed.{Step, more, complete, refused, go_on, start_payload, feed_length, IsMeasuring}

abbrev pub IsOpen : Link → Type 0
IsOpen k = (k.has_sock ≡ true) × (k.is_pending ≡ false)

-- `packet__read` from where the machine is
abbrev pub resume : Link → Step → List Event → Read
resume k (more p) es = read k p es
resume k (complete p) es = finish k p es
resume k (refused c p) es = returns c p es

payload_loop-done :
    (k : Link) (p : InPacket) (es : List Event)
    → (p.to_process == 0) ≡ true
    → payload_loop k p es ≡ finish k p es
unfolding payload_loop
payload_loop-done k p [] t = rw t refl
payload_loop-done k p (byte b ∷ es) t = rw t refl
payload_loop-done k p (halt h ∷ es) t = rw t refl

pub read-after :
    (k : Link) (p : InPacket) (es : List Event)
    → IsOpen k
    → p.command ≢ 0
    → read k p es ≡ after_command k p es
unfolding read
read-after k p es (sock, ready) c =
    let t : (p.command == 0) ≡ false = ground (arith, c) in rw (read, sock, ready, t) refl

pub payload_loop-go_on :
    (k : Link) (p : InPacket) (es : List Event)
    → IsOpen k
    → p.command ≢ 0
    → is_in_length p ≡ false
    → payload_loop k p es ≡ resume k (go_on p) es
payload_loop-go_on k p es open_link c l = elim (Bool-cases (p.to_process == 0)) [
  | inl t ↦ payload_loop-done k p es t ∙ rw t refl
  | inr t ↦ sym (rw t (read-after k p es open_link c ∙ rw l refl))
]

-- The tests and the allocation change no more than `to_process`.
allocate-same :
    (k : Link) (p q : InPacket)
    → allocate k p ≡ ok q
    → (q.command ≡ p.command) × (q.remaining_count ≡ p.remaining_count)
allocate-same k p q e = elim (Bool-cases (ltb 0 p.remaining_length)) [
  | inl t ↦ elim (Bool-cases k.malloc) [
    | inl u ↦
        let e' : ◌≡◌ {A = Result InPacket} (ok (record p { to_process = p.remaining_length }))
            (ok q) =
          rw (t, u) at e in
        let same : record p { to_process = p.remaining_length } ≡ q = cc in
        (ap (λ r. r.command) (sym same), ap (λ r. r.remaining_count) (sym same))
    | inr u ↦ let e' : ◌≡◌ {A = Result InPacket} (err nomem) (ok q) = rw (t, u) at e in cc
  ]
  | inr t ↦
      let e' : ◌≡◌ {A = Result InPacket} (ok p) (ok q) = rw t at e in
      let same : p ≡ q = cc in
      (ap (λ r. r.command) (sym same), ap (λ r. r.remaining_count) (sym same))
]

pub measured-same :
    (k : Link) (p q : InPacket)
    → measured k p ≡ ok q
    → (q.command ≡ p.command) × (q.remaining_count ≡ p.remaining_count)
measured-same k p q e = go (check_length k p) e
  where
    go :
        (c : Status)
        → elim c [ ok u ↦ allocate k p | err x ↦ err x | fault ↦ fault ] ≡ ok q
        → (q.command ≡ p.command) × (q.remaining_count ≡ p.remaining_count)
    go (ok u) h = allocate-same k p q h
    go (err x) h = cc
    go fault h = cc

read_payload-resume :
    (k : Link) (p : InPacket) (r : Result InPacket) (es : List Event)
    → IsOpen k
    → p.command ≢ 0
    → is_in_length p ≡ false
    → ((q : InPacket)
        → r ≡ ok q
        → (q.command ≡ p.command) × (q.remaining_count ≡ p.remaining_count))
    → read_payload k p r es ≡ resume k (start_payload p r) es
read_payload-resume k p (ok q) es open_link c l same =
    let (command, count) = same q refl in
    payload_loop-go_on k q es open_link (λ e. c (sym command ∙ e)) (rw count l)
read_payload-resume k p (err e) es open_link c l same = refl
read_payload-resume k p fault es open_link c l same = refl

-- The sign of the count in the middle of a length and at its end
pub is_in_length-measuring : (p : InPacket) → IsMeasuring p → is_in_length p ≡ true
is_in_length-measuring p (inl e) = rw e refl
is_in_length-measuring p (inr (lo, hi)) = ground (arith, lo)

pub counted-IsMeasuring :
    (p : InPacket) → IsMeasuring p → is_too_long (counted p) ≡ false → IsMeasuring (counted p)
counted-IsMeasuring p (inl e) short = inr (omega (arith, e), omega (arith, e))
counted-IsMeasuring p (inr (lo, hi)) short =
    inr (ground (arith, lo, hi, short), omega (arith, lo, hi))

pub counted-positive :
    (p : InPacket) (b : ℕ)
    → IsMeasuring p
    → is_too_long (counted p) ≡ false
    → is_in_length (negated (add_length b (counted p))) ≡ false
counted-positive p b (inl e) short = rw e refl
counted-positive p b (inr (lo, hi)) short = ground (arith, lo, hi, short)

pub length_loop-resume :
    (k : Link) (b : ℕ) (p : InPacket) (es : List Event)
    → IsOpen k
    → p.command ≢ 0
    → IsMeasuring p
    → length_loop k p (byte b ∷ es) ≡ resume k (feed_length k b p) es
unfolding length_loop
length_loop-resume k b p es open_link c m =
    let p' = add_length b (counted p) in
    elim (Bool-cases (is_too_long (counted p))) [
      | inl t ↦ rw t refl
      | inr t ↦ rw t (elim (Bool-cases (leb 128 b)) [
        | inl u ↦
            let inside = is_in_length-measuring p' (counted-IsMeasuring p m t) in
            rw u (sym (read-after k p' es open_link c ∙ rw inside refl))
        | inr u ↦ rw u (
            read_payload-resume k (negated p') (measured k (negated p')) es open_link c
              (counted-positive p b m t) (λ q e. measured-same k (negated p') q e))
      ])
    ]
