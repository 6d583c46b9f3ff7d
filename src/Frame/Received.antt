-- ===== src/Frame/Received.antt =====
-- lib/packet_dimq.c: a packet with the header of `packet__alloc` comes out of `packet__read` as it went in.
use dimq.Frame.Stepped.{IsHead}
use dimq.Frame.Digits.{payload-run, encode-run, IsMeasured}
use dimq.Frame.Feed.{
  IsRun, drive, pauses, bytes, ArePauses, more, complete, start_payload, feed, run,
}
use dimq.Frame.Driven.{drive-IsRun, after, run-after}
use dimq.Prelude.{
  subst, sym, ltb, ap, ◌∙◌, ◌/◌, ◌==◌, length, List, [], ◌∷◌, ◌++◌, ℕ, ◌≡◌, ◌≢◌, ◌<◌, inl, refl,
  arith, true, false, not, ◌&&◌, some,
}
use dimq.Frame.Sized.{alloc-header}
use dimq.Frame.Fed.{IsOpen}
use dimq.Frame.{allocate, Event, InPacket, Link, measured, check_length, cleaned}
use dimq.Frame.Alloc.{alloc, OutPacket, encode}
use dimq.Result.{Status, Result, ok, err, fault, success}

measured-allowed :
    (k : Link) (q : InPacket) → check_length k q ≡ success → measured k q ≡ allocate k q
measured-allowed k q e =
    ap
      (λ (c : Status). elim c as (λ r. Result InPacket) [
        | ok u ↦ allocate k q
        | err x ↦ err x
        | fault ↦ fault
      ])
      e

-- A packet of a payload as long as the remaining length says
frame-run :
    (k : Link) (q : InPacket) (payload rest : List ℕ)
    → k.malloc ≡ true
    → check_length k q ≡ success
    → IsMeasured q.command (length payload) q
    → q.command ≢ 0
    → (f : InPacket) × (after k (payload ++ rest) (start_payload q (measured k q))
        ≡ (complete f, rest))
      × (f.command ≡ q.command)
      × (f.remaining_length ≡ length payload)
      × (f.payload ≡ payload)
frame-run k q [] rest malloc allowed (c, len, l, empty, todo) nonzero =
    let t : ltb 0 q.remaining_length ≡ false = ground (arith, len) in
    let made : measured k q ≡ ok q = measured-allowed k q allowed ∙ rw t refl in
    (q, rw (made, todo) refl, refl, len, empty)
frame-run k q (b ∷ bs) rest malloc allowed (c, len, l, empty, todo) nonzero =
    let p = record q { to_process = q.remaining_length } in
    let t : ltb 0 q.remaining_length ≡ true = ground (arith, len) in
    let u : (q.remaining_length == 0) ≡ false = ground (arith, len) in
    let f = record p { to_process = 0; payload = p.payload ++ (b ∷ bs) } in
    let filled : start_payload q (measured k q) ≡ more p =
      let made : measured k q ≡ ok p = measured-allowed k q allowed ∙ rw (t, malloc) refl in
      rw made (rw u refl) in
    (
      f,
      ap (after k (b ∷ (bs ++ rest))) filled ∙ payload-run k b bs rest p nonzero l len,
      refl,
      len,
      ap (λ (x : List ℕ). x ++ (b ∷ bs)) empty,
    )

-- The command is what the connection waits for, and its length is allowed.
abbrev pub IsAllowed : Link → ℕ → ℕ → Type 0
IsAllowed k c n =
    ((k.must_connect && not (c / 16 == 1)) ≡ false)
    × (check_length k (record cleaned { command = c; remaining_length = n }) ≡ success)
    × (k.malloc ≡ true)

packet-run :
    (k : Link) (c : ℕ) (payload rest : List ℕ)
    → c ≢ 0
    → length payload < 268435456
    → IsAllowed k c (length payload)
    → (f : InPacket) × (run k cleaned (c ∷ (encode 5 (length payload) ++ (payload ++ rest)))
        ≡ (complete f, rest))
      × (f.command ≡ c)
      × (f.remaining_length ≡ length payload)
      × (f.payload ≡ payload)
unfolding feed
packet-run k c payload rest nonzero lt (connect, allowed, malloc) =
    let n = length payload in
    let (q, e, (command, len, l, empty, todo)) = encode-run k c n (payload ++ rest) nonzero lt in
    let ok_length : check_length k q ≡ success =
      ap (λ (x : ℕ × ℕ). check_length k (record cleaned { command = x.0; remaining_length = x.1 }))
        (λ i. (command i, len i))
      ∙ allowed in
    let (f, filled, fc, flen, fpay) =
      frame-run k q payload rest malloc ok_length (refl, len, l, empty, todo)
        (λ z. nonzero (sym command ∙ z)) in
    (
      f,
      run-after k cleaned c (encode 5 n ++ (payload ++ rest))
            (more (record cleaned { command = c })) (rw (feed, connect) refl)
          ∙ e
          ∙ filled,
      fc ∙ command,
      flen,
      fpay,
    )

-- On a connection that is open: where `packet__alloc` made a packet for a command that is not 0 and a
-- payload, and the bytes of its header and the payload come in, with any pauses (EAGAIN or EINTR) in any
-- places and any bytes behind, and the command is allowed with this length and there is memory, as many
-- calls of `packet__read` as there are pauses, and one more, hand exactly this packet to
-- `handle__packet`, return what that returns, and leave the bytes behind it and an empty packet.
pub read-alloc :
    (k : Link) (c : ℕ) (payload rest : List ℕ) (out : OutPacket) (es : List Event) (calls : ℕ)
    → IsOpen k
    → c ≢ 0
    → IsAllowed k c (length payload)
    → length payload < 268435456
    → alloc true c (length payload) ≡ ok out
    → ArePauses es
    → bytes es ≡ out.header ++ (payload ++ rest)
    → pauses es < calls
    → (f : InPacket) × ((drive k calls cleaned es).handled ≡ some f)
      × (f.command ≡ c)
      × (f.remaining_length ≡ length payload)
      × (f.payload ≡ payload)
      × ((drive k calls cleaned es).code ≡ k.handle f)
      × ((drive k calls cleaned es).packet ≡ cleaned)
      × (bytes (drive k calls cleaned es).rest ≡ rest)
read-alloc k c payload rest out es calls open_link nonzero allowed lt made pause same enough =
    let n = length payload in
    let header : out.header ≡ c ∷ encode 5 n = alloc-header c n out lt made in
    let came : bytes es ≡ c ∷ (encode 5 n ++ (payload ++ rest)) =
      same ∙ ap (λ (h : List ℕ). h ++ (payload ++ rest)) header in
    let (f, e, fc, flen, fpay) = packet-run k c payload rest nonzero lt allowed in
    let head : IsHead cleaned (bytes es) =
      subst (λ bs. IsHead cleaned bs) (sym came) (λ z. nonzero) in
    let ran = drive-IsRun k es calls cleaned open_link (inl (refl, refl)) head pause enough in
    let (code, packet, handled, left) =
      subst (λ r. IsRun k r (drive k calls cleaned es)) (ap (run k cleaned) came ∙ e) ran in
    (f, handled, fc, flen, fpay, code, packet, left)
