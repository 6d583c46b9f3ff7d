-- ===== src/Frame/Stepped.antt =====
-- lib/packet_dimq.c: one byte or one pause at the front of what the socket has.
use dimq.Frame.{
  payload_code, halt_code, InPacket, Event, byte, halt, Halt, Link, read, length_loop, payload_loop,
  returns, add_payload, after_command, read_command,
}
use dimq.Prelude.{
  ap, ◌∙◌, ◌/◌, ◌==◌, sym, Bool-cases, List, [], ◌∷◌, ℕ, ◌≡◌, ◌≢◌, inl, inr, refl, arith, true,
  false, not, ◌&&◌,
}
use dimq.Result.{success}
use dimq.Frame.Feed.{go_on, feed_length, feed_command, feed, IsBetween}
use dimq.Frame.Fed.{
  IsOpen, resume, read-after, length_loop-resume, payload_loop-go_on, is_in_length-measuring,
}

-- The command byte is not 0, which the code takes for no command.
abbrev pub IsHead : InPacket → List ℕ → Type 0
IsHead p [] = Unit {0}
IsHead p (b ∷ bs) = p.command ≡ 0 → b ≢ 0

pub command-resume :
    (k : Link) (b : ℕ) (p : InPacket) (es : List Event)
    → IsOpen k
    → b ≢ 0
    → read_command k p (byte b ∷ es) ≡ resume k (feed_command k b p) es
command-resume k b p es open_link nonzero =
    elim (Bool-cases (k.must_connect && not (b / 16 == 1))) [
      | inl t ↦ rw t refl
      | inr t ↦ rw t (sym (read-after k (record p { command = b }) es open_link nonzero))
    ]

pub read-before :
    (k : Link) (p : InPacket) (es : List Event)
    → IsOpen k
    → p.command ≡ 0
    → read k p es ≡ read_command k p es
unfolding read
read-before k p es (sock, ready) c =
    let t : (p.command == 0) ≡ true = ground (arith, c) in rw (read, sock, ready, t) refl

pub read-resume :
    (k : Link) (b : ℕ) (p : InPacket) (es : List Event)
    → IsOpen k
    → IsBetween p
    → (p.command ≡ 0 → b ≢ 0)
    → read k p (byte b ∷ es) ≡ resume k (feed k b p) es
unfolding feed payload_loop
read-resume k b p es (sock, ready) (inl (c, n)) nonzero =
    let t : (p.command == 0) ≡ true = ground (arith, c) in
    let fed : feed k b p ≡ feed_command k b p = rw (feed, t) refl in
    read-before k p (byte b ∷ es) (sock, ready) c
    ∙ command-resume k b p es (sock, ready) (nonzero c)
    ∙ ap (λ s. resume k s es) (sym fed)
read-resume k b p es (sock, ready) (inr (c, inl m)) nonzero =
    let t : (p.command == 0) ≡ false = ground (arith, c) in
    let inside = is_in_length-measuring p m in
    let fed : feed k b p ≡ feed_length k b p = rw (feed, t, inside) refl in
    read-after k p (byte b ∷ es) (sock, ready) c
    ∙ rw inside (length_loop-resume k b p es (sock, ready) c m)
    ∙ ap (λ s. resume k s es) (sym fed)
read-resume k b p es (sock, ready) (inr (c, inr (l, todo))) nonzero =
    let t : (p.command == 0) ≡ false = ground (arith, c) in
    let u : (p.to_process == 0) ≡ false = ground (arith, todo) in
    let fed : feed k b p ≡ go_on (add_payload b p) = rw (feed, t, l) refl in
    let taken : after_command k p (byte b ∷ es) ≡ payload_loop k (add_payload b p) es =
      rw (l, payload_loop, u) refl in
    read-after k p (byte b ∷ es) (sock, ready) c
    ∙ taken
    ∙ payload_loop-go_on k (add_payload b p) es (sock, ready) c l
    ∙ ap (λ s. resume k s es) (sym fed)

-- A pause leaves the packet as it is.
pub read-pause :
    (k : Link) (h : Halt) (p : InPacket) (es : List Event)
    → IsOpen k
    → IsBetween p
    → halt_code h ≡ success
    → payload_code h ≡ success
    → read k p (halt h ∷ es) ≡ returns success p es
unfolding read length_loop payload_loop
read-pause k h p es (sock, ready) (inl (c, n)) e e' =
    let t : (p.command == 0) ≡ true = ground (arith, c) in rw (read, sock, ready, t, e) refl
read-pause k h p es (sock, ready) (inr (c, inl m)) e e' =
    let t : (p.command == 0) ≡ false = ground (arith, c) in
    rw (read, sock, ready, t, is_in_length-measuring p m, length_loop, e) refl
read-pause k h p es (sock, ready) (inr (c, inr (l, todo))) e e' =
    let t : (p.command == 0) ≡ false = ground (arith, c) in
    let u : (p.to_process == 0) ≡ false = ground (arith, todo) in
    rw (read, sock, ready, t, l, payload_loop, u, e') refl

pub read-idle :
    (k : Link) (p : InPacket) → IsOpen k → IsBetween p → read k p [] ≡ returns success p []
unfolding read length_loop payload_loop
read-idle k p (sock, ready) (inl (c, n)) =
    let t : (p.command == 0) ≡ true = ground (arith, c) in rw (read, sock, ready, t) refl
read-idle k p (sock, ready) (inr (c, inl m)) =
    let t : (p.command == 0) ≡ false = ground (arith, c) in
    rw (read, sock, ready, t, is_in_length-measuring p m, length_loop) refl
read-idle k p (sock, ready) (inr (c, inr (l, todo))) =
    let t : (p.command == 0) ≡ false = ground (arith, c) in
    let u : (p.to_process == 0) ≡ false = ground (arith, todo) in
    rw (read, sock, ready, t, l, payload_loop, u) refl
