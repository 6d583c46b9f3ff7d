-- ===== src/Frame.antt =====
-- lib/packet_dimq.c: packets as they come from the network. The answers of the socket, of the allocator
-- and of `handle__packet` are parameters. The broker's variant.
use dimq.Result.{
  Err, Status, Result, ok, err, fault, success, conn_lost, errno, no_conn, protocol,
  malformed_packet, oversize_packet, nomem,
}
use dimq.Prelude.{
  List, [], ◌∷◌, ◌++◌, ℕ, zero, suc, ◌+◌, ◌-◌, ◌*◌, ◌/◌, ◌%◌, ◌==◌, Bool, true, false, not, ◌&&◌,
  ◌||◌, ltb, leb, Option, none, some, if◌then◌else◌,
}
pub mod Feed
pub mod Fed
pub mod Driven
pub mod Stepped
pub mod Alloc
pub mod Received
pub mod Digits
pub mod Sized
pub mod Write
pub mod Unsent
pub mod Queued
pub mod Sends
mod Tests

-- `struct dimq__packet`, for what comes in. `remaining_count` is kept modulo 2^8. Of the payload the
-- bytes that were read are kept; `pos` is their number.
pub record InPacket : Type 0 where
  pub command : ℕ
  pub remaining_count : ℕ
  pub remaining_mult : ℕ
  pub remaining_length : ℕ
  pub to_process : ℕ
  pub payload : List ℕ

-- `packet__cleanup`
abbrev pub cleaned : InPacket
cleaned = record {
  command = 0;
  remaining_count = 0;
  remaining_mult = 1;
  remaining_length = 0;
  to_process = 0;
  payload = [];
}

-- What the socket has when there is no byte: EAGAIN, EINTR, the end, ECONNRESET, another error
pub data Halt : Type 0 where
  again interrupted eof reset failed : Halt

-- What the socket hands over, in its order. A read of several bytes is taken as so many reads of one.
pub data Event : Type 0 where
  byte : ℕ → Event
  halt : Halt → Event

-- What `packet__read` reads of `struct dimq` and of the configuration; `must_connect` is for a client
-- that is no bridge and in the state dimq_cs_connected.
pub record Link : Type 0 where
  pub has_sock : Bool
  pub is_pending : Bool
  pub must_connect : Bool
  pub is_mqtt5 : Bool
  pub max_packet_size : ℕ
  pub malloc : Bool
  pub handle : InPacket → Status

-- What a call leaves, and the packet that was handed to `handle__packet`
pub record Read : Type 0 where
  pub code : Status
  pub packet : InPacket
  pub rest : List Event
  pub handled : Option InPacket

abbrev pub returns : Status → InPacket → List Event → Read
returns code p es = record { code = code; packet = p; rest = es; handled = none }

-- The code for a read of one byte
abbrev pub halt_code : Halt → Status
halt_code again = success
halt_code interrupted = success
halt_code eof = err conn_lost
halt_code reset = err conn_lost
halt_code failed = err errno

-- The code for a read of the payload, where the end is not looked for: `errno` is 0 there
abbrev pub payload_code : Halt → Status
payload_code again = success
payload_code interrupted = success
payload_code eof = err errno
payload_code reset = err conn_lost
payload_code failed = err errno

-- All data of the packet is read.
abbrev pub finish : Link → InPacket → List Event → Read
finish k p es = record { code = k.handle p; packet = cleaned; rest = es; handled = some p }

abbrev pub add_payload : ℕ → InPacket → InPacket
add_payload b p = record p { to_process = p.to_process - 1; payload = p.payload ++ (b ∷ []) }

-- The loop on `to_process`
unfoldable pub payload_loop : Link → InPacket → List Event → Read
payload_loop k p [] = if p.to_process == 0 then finish k p [] else returns success p []
payload_loop k p (byte b ∷ es) =
    let more = payload_loop k (add_payload b p) es in
    if p.to_process == 0 then finish k p (byte b ∷ es) else more
payload_loop k p (halt h ∷ es) =
    if p.to_process == 0 then finish k p (halt h ∷ es) else returns (payload_code h) p es

-- The `switch` on the kind of the packet
abbrev pub is_length_allowed : ℕ → Bool → ℕ → Bool
is_length_allowed kind is_mqtt5 len =
    if kind == 1
    then leb len 100000
    else if kind == 4 || kind == 5 || kind == 6 || kind == 7 || kind == 11
    then is_mqtt5 || len == 2
    else if kind == 12 || kind == 13
    then len == 0
    else if kind == 14
    then is_mqtt5 || len == 0
    else true

-- What is tested of a length. Before the code for a packet that is too large, a client of version 5 is
-- sent a DISCONNECT.
abbrev pub check_length : Link → InPacket → Status
check_length k p =
    if not (is_length_allowed (p.command / 16) k.is_mqtt5 p.remaining_length)
    then err malformed_packet
    else if ltb 0 k.max_packet_size && ltb k.max_packet_size (p.remaining_length + 1)
    then err oversize_packet
    else success

-- The payload is allocated where there is one.
abbrev pub allocate : Link → InPacket → Result InPacket
allocate k p =
    if ltb 0 p.remaining_length
    then (if k.malloc then ok (record p { to_process = p.remaining_length }) else err nomem)
    else ok p

-- The packet once its length is read
abbrev pub measured : Link → InPacket → Result InPacket
measured k p = elim (check_length k p) [ ok u ↦ allocate k p | err e ↦ err e | fault ↦ fault ]

abbrev pub read_payload : Link → InPacket → Result InPacket → List Event → Read
read_payload k p (ok p') es = payload_loop k p' es
read_payload k p (err e) es = returns (err e) p es
read_payload k p fault es = returns fault p es

abbrev pub counted : InPacket → InPacket
counted p = record p { remaining_count = (p.remaining_count + 255) % 256 }

-- `remaining_count < -4`
abbrev pub is_too_long : InPacket → Bool
is_too_long p = leb 128 p.remaining_count && ltb p.remaining_count 252

abbrev pub add_length : ℕ → InPacket → InPacket
add_length b p = record p {
  remaining_length = (p.remaining_length + b % 128 * p.remaining_mult) % 4294967296;
  remaining_mult = p.remaining_mult * 128 % 4294967296;
}

abbrev pub negated : InPacket → InPacket
negated p = record p { remaining_count = (256 - p.remaining_count) % 256 }

-- The loop that reads the remaining length, and what follows it
unfoldable pub length_loop : Link → InPacket → List Event → Read
length_loop k p [] = returns success p []
length_loop k p (byte b ∷ es) =
    let p' = add_length b (counted p) in
    let more = length_loop k p' es in
    if is_too_long (counted p)
    then returns (err malformed_packet) (counted p) es
    else if leb 128 b
    then more
    else read_payload k (negated p') (measured k (negated p')) es
length_loop k p (halt h ∷ es) = returns (halt_code h) p es

-- `remaining_count <= 0`
abbrev pub is_in_length : InPacket → Bool
is_in_length p = p.remaining_count == 0 || leb 128 p.remaining_count

abbrev pub after_command : Link → InPacket → List Event → Read
after_command k p es = if is_in_length p then length_loop k p es else payload_loop k p es

-- The command byte
abbrev pub read_command : Link → InPacket → List Event → Read
read_command k p [] = returns success p []
read_command k p (byte b ∷ es) =
    let p' = record p { command = b } in
    if k.must_connect && not (b / 16 == 1)
    then returns (err protocol) p' es
    else after_command k p' es
read_command k p (halt h ∷ es) = returns (halt_code h) p es

-- `packet__read`
unfoldable pub read : Link → InPacket → List Event → Read
read k p es =
    if not k.has_sock
    then returns (err no_conn) p es
    else if k.is_pending
    then returns success p es
    else if p.command == 0
    then read_command k p es
    else after_command k p es
