-- ===== src/Frame/Feed.antt =====
-- lib/packet_dimq.c: `packet__read`, called as often as there is something to read, against a machine
-- that takes one byte at a time.
use dimq.Prelude.{
  ◌==◌, ◌/◌, leb, if◌then◌else◌, List, [], ◌∷◌, ℕ, zero, suc, ◌≡◌, ◌≢◌, ◌<◌, ◌⊎◌, Bool, true, false,
  not, ◌&&◌, Option, none, some,
}
use dimq.Result.{Status, Result, ok, err, fault, success, protocol, malformed_packet}
use dimq.Frame.{
  InPacket, Event, byte, halt, again, interrupted, eof, reset, failed, Link, Read, read, returns,
  add_payload, add_length, counted, negated, is_in_length, is_too_long, measured, cleaned,
}

-- What a byte leads to: a packet that goes on, one that is complete, or a code
pub data Step : Type 0 where
  more : InPacket → Step
  complete : InPacket → Step
  refused : Status → InPacket → Step

abbrev pub go_on : InPacket → Step
go_on p = if p.to_process == 0 then complete p else more p

abbrev pub start_payload : InPacket → Result InPacket → Step
start_payload p (ok p') = go_on p'
start_payload p (err e) = refused (err e) p
start_payload p fault = refused fault p

abbrev pub feed_length : Link → ℕ → InPacket → Step
feed_length k b p =
    let p' = add_length b (counted p) in
    if is_too_long (counted p)
    then refused (err malformed_packet) (counted p)
    else if leb 128 b
    then more p'
    else start_payload (negated p') (measured k (negated p'))

abbrev pub feed_command : Link → ℕ → InPacket → Step
feed_command k b p =
    let p' = record p { command = b } in
    if k.must_connect && not (b / 16 == 1) then refused (err protocol) p' else more p'

-- The machine: a byte of the command, of the length or of the payload
unfoldable pub feed : Link → ℕ → InPacket → Step
feed k b p =
    if p.command == 0
    then feed_command k b p
    else if is_in_length p
    then feed_length k b p
    else go_on (add_payload b p)

-- A packet as it is between two bytes: nothing is read, or a part of the length, or a part of the payload
abbrev pub IsMeasuring : InPacket → Type 0
IsMeasuring p = (p.remaining_count ≡ 0) ⊎ ((251 < p.remaining_count) × (p.remaining_count < 256))

abbrev pub IsFilling : InPacket → Type 0
IsFilling p = (is_in_length p ≡ false) × (p.to_process ≢ 0)

abbrev pub IsBetween : InPacket → Type 0
IsBetween p =
    ((p.command ≡ 0) × (p.remaining_count ≡ 0)) ⊎ ((p.command ≢ 0) × (IsMeasuring p ⊎ IsFilling p))

-- Calls of `packet__read` as long as they succeed and no packet is complete, at most so many
abbrev pub has_packet : Option InPacket → Bool
has_packet none = false
has_packet (some p) = true

abbrev pub is_open : Read → Bool
is_open r = elim r.code [ ok u ↦ not (has_packet r.handled) | err e ↦ false | fault ↦ false ]

unfoldable pub drive : Link → ℕ → InPacket → List Event → Read
drive k zero p es = returns success p es
drive k (suc n) p es =
    let r = read k p es in let rest = drive k n r.packet r.rest in if is_open r then rest else r

-- What the machine comes to on these bytes, and the bytes that are left
unfoldable pub run : Link → InPacket → List ℕ → Step × List ℕ
run k p [] = (more p, [])
run k p (b ∷ bs) = elim (feed k b p) [
  | more p' ↦ run k p' bs
  | complete p' ↦ (complete p', bs)
  | refused c p' ↦ (refused c p', bs)
]

-- The bytes among the events, and the number of pauses
unfoldable pub bytes : List Event → List ℕ
bytes [] = []
bytes (byte b ∷ es) = b ∷ bytes es
bytes (halt h ∷ es) = bytes es

unfoldable pub pauses : List Event → ℕ
pauses [] = 0
pauses (byte b ∷ es) = pauses es
pauses (halt h ∷ es) = suc (pauses es)

-- Nothing but bytes and pauses: EAGAIN and EINTR
abbrev pub ArePauses : List Event → Type 0
ArePauses [] = Unit {0}
ArePauses (byte b ∷ es) = ArePauses es
ArePauses (halt again ∷ es) = ArePauses es
ArePauses (halt interrupted ∷ es) = ArePauses es
ArePauses (halt eof ∷ es) = ⊥
ArePauses (halt reset ∷ es) = ⊥
ArePauses (halt failed ∷ es) = ⊥

-- What the calls leave is what the machine came to.
abbrev pub IsRun : Link → Step × List ℕ → Read → Type 0
IsRun k (more p, bs) r =
    (r.code ≡ success) × (r.packet ≡ p) × (r.handled ≡ none) × (bytes r.rest ≡ bs)
IsRun k (complete p, bs) r =
    (r.code ≡ k.handle p) × (r.packet ≡ cleaned) × (r.handled ≡ some p) × (bytes r.rest ≡ bs)
IsRun k (refused c p, bs) r =
    (r.code ≡ c) × (r.packet ≡ p) × (r.handled ≡ none) × (bytes r.rest ≡ bs)
