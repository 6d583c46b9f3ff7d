-- ===== src/Frame/Tests.antt =====
-- Runs of the reader of packets on concrete bytes, and instances of what is proved.
use dimq.Frame.Stepped.{IsHead}
use dimq.Frame.Queued.{queue-IsWrote}
use dimq.Frame.Write.{send, send_all, write, Answer, wrote, stuck, Queue, queue}
use dimq.Frame.{
  payload_loop, length_loop, InPacket, Event, byte, halt, again, interrupted, Link, cleaned, read,
}
use dimq.Frame.Feed.{pauses, drive, run, bytes, IsRun}
use dimq.Frame.Driven.{drive-IsRun}
use dimq.Result.{ok, err, success, payload_size, protocol}
use dimq.Packet.{varint_bytes}
use dimq.Prelude.{
  List, [], ◌∷◌, ◌++◌, ℕ, ◌+◌, ◌≡◌, ◌≤◌, ◌<◌, inl, refl, Bool, true, false, Option, none, some,
  arith, length,
}
use dimq.Frame.Alloc.{encode, OutPacket, alloc}
use dimq.Frame.Sized.{alloc_bounds}
use dimq.Packet.Format.{format_varint}
use dimq.Frame.Received.{read-alloc}
use dimq.Frame.Unsent.{IsExactQueue, IsWrote, unsent}
use dimq.Frame.Sends.{AreTaken, queue_completes}

abbrev link : Link
link = record {
  has_sock = true;
  is_pending = false;
  must_connect = false;
  is_mqtt5 = true;
  max_packet_size = 0;
  malloc = true;
  handle = λ (p : InPacket). success;
}

-- A PUBACK in three pieces, and the first byte of another packet
abbrev pieces : List Event
pieces =
    byte 64 ∷ (halt again ∷ (byte 2 ∷ (byte 0 ∷ (halt interrupted ∷ (byte 9 ∷ (byte 192 ∷ []))))))

abbrev puback : OutPacket
puback = record { header = 64 ∷ 2 ∷ []; packet_length = 4; pos = 2 }

abbrev payload_of : Option InPacket → List ℕ
payload_of none = []
payload_of (some p) = p.payload

pieces_run : payload_of (drive link 3 cleaned pieces).handled ≡ 0 ∷ 9 ∷ []
unfolding drive read length_loop payload_loop
pieces_run = refl

-- A client that has not sent CONNECT
stranger_run : (read (record link { must_connect = true }) cleaned pieces).code ≡ err protocol
unfolding read
stranger_run = refl

-- The first byte of a packet with 300 bytes is followed by two digits.
alloc_run :
    alloc true 48 300 ≡ ok (record { header = 48 ∷ 172 ∷ 2 ∷ []; packet_length = 303; pos = 3 })
unfolding alloc encode
alloc_run = refl

pieces_enough : pauses pieces < 3
unfolding pauses
pieces_enough = omega arith

pieces-IsHead : IsHead cleaned (bytes pieces)
unfolding bytes
pieces-IsHead e = λ z. ground (arith, z)

drive-IsRun_example : IsRun link (run link cleaned (bytes pieces)) (drive link 3 cleaned pieces)
drive-IsRun_example =
    drive-IsRun link pieces 3 cleaned (refl, refl) (inl (refl, refl)) pieces-IsHead tt pieces_enough

puback_made : alloc true 64 2 ≡ ok puback
unfolding alloc encode
puback_made = refl

pieces-bytes : bytes pieces ≡ puback.header ++ ((0 ∷ 9 ∷ []) ++ (192 ∷ []))
unfolding bytes
pieces-bytes = refl

read-alloc_example :
    (f : InPacket) × ((drive link 3 cleaned pieces).handled ≡ some f)
    × (f.command ≡ 64)
    × (f.remaining_length ≡ 2)
    × (f.payload ≡ 0 ∷ 9 ∷ [])
    × ((drive link 3 cleaned pieces).code ≡ success)
    × ((drive link 3 cleaned pieces).packet ≡ cleaned)
    × (bytes (drive link 3 cleaned pieces).rest ≡ 192 ∷ [])
read-alloc_example =
    read-alloc link 64 (0 ∷ 9 ∷ []) (192 ∷ []) puback pieces 3 (refl, refl) (λ e. ground (arith, e))
      (refl, refl, refl) (omega arith) puback_made tt pieces-bytes pieces_enough

alloc_bounds_example :
    (300 < 268435456
      → (out : OutPacket) × (alloc true 48 300 ≡ ok out)
        × (out.header ≡ 48 ∷ format_varint 300)
        × (length out.header ≡ 1 + varint_bytes 300)
        × (out.packet_length ≡ 300 + length out.header)
        × (out.pos ≡ length out.header))
    × (268435456 ≤ 300 → (malloc : Bool) → alloc malloc 48 300 ≡ err payload_size)
alloc_bounds_example = alloc_bounds 48 300 (omega arith)

-- The socket takes one byte twice, then none for a while.
abbrev slow : List Answer
slow = wrote 1 ∷ (wrote 1 ∷ (stuck again ∷ []))

-- A packet of which one byte is sent, and nothing behind it
abbrev begun : Queue
begun = record {
  current_out_packet = some (record { payload = 192 ∷ 0 ∷ []; pos = 1; to_process = 1 });
  out_packet = [];
  out_packet_count = 0;
}

begun-IsExactQueue : IsExactQueue begun
begun-IsExactQueue = (omega arith, tt, omega arith)

slow_run : (queue true false slow (208 ∷ 0 ∷ []) 2 begun).bytes ≡ 0 ∷ 208 ∷ []
unfolding queue write send_all send
slow_run = refl

queue-IsWrote_example :
    IsWrote (unsent begun ++ (208 ∷ 0 ∷ [])) (queue true false slow (208 ∷ 0 ∷ []) 2 begun)
queue-IsWrote_example = queue-IsWrote true false slow (208 ∷ 0 ∷ []) begun begun-IsExactQueue

abbrev steady : List Answer
steady = wrote 1 ∷ (wrote 1 ∷ (wrote 5 ∷ []))

steady-AreTaken : AreTaken steady
steady-AreTaken = (omega arith, (omega arith, (omega arith, tt)))

queue_completes_example :
    ((queue true false steady (208 ∷ 0 ∷ []) 2 begun).code ≡ success)
    × ((queue true false steady (208 ∷ 0 ∷ []) 2 begun).bytes ≡ 0 ∷ 208 ∷ 0 ∷ [])
    × ((queue true false steady (208 ∷ 0 ∷ []) 2 begun).queue
        ≡ record { current_out_packet = none; out_packet = []; out_packet_count = 0 })
queue_completes_example =
    queue_completes steady (208 ∷ 0 ∷ []) begun begun-IsExactQueue steady-AreTaken (omega arith)
