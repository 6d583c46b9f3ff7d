-- ===== src/Packet/Tests.antt =====
-- Runs of the packet readers and writers on concrete bytes.
use dimq.Packet.Safe.{read_varint_canonical, read_string_sound}
use dimq.Prelude.{◌++◌, ◌^◌, arith, ◌<◌, ◌≢◌, length, replicate, ℕ, ◌≡◌, refl, List, [], ◌∷◌, true}
use dimq.Packet.Format.{format_varint, format_binary}
use dimq.Utf8.Sound.{Encodes}
use dimq.Packet.RoundTrip.{read_varint-write_varint, read_string-write_string, reopened}
use dimq.Result.{fault, success, ok, err, malformed_packet}
use dimq.Packet.{
  write_string, varint_bytes, copy_in, assert_room, write_byte, write_varint_loop, write_varint,
  Packet, read_varint, varint_loop, next, need, read_string, read_binary, binary_body, check_string,
  malloc, copy_out, read_uint16,
}
use dimq.Utf8.Spec.{encode, encode_all}
use dimq.Packet.Parse.{unread}
use dimq.Utf8.{check_codepoint, continuation, lead, character, characters, validate_utf8}

-- A packet as received: every byte of the payload belongs to it.
abbrev received : List ℕ → Packet
received bytes = record {
  payload = bytes;
  remaining_length = length bytes;
  packet_length = length bytes;
  pos = 0;
  heap = λ _. true;
}

abbrev blank : ℕ → Packet
blank n = record {
  payload = replicate n 0;
  remaining_length = n;
  packet_length = n;
  pos = 0;
  heap = λ _. true;
}

varint_300 : (read_varint (received (0xAC ∷ 2 ∷ 9 ∷ []))).0 ≡ ok (300, 2)
unfolding read_varint varint_loop next
varint_300 = refl

varint_overlong : (read_varint (received (0x80 ∷ 0 ∷ []))).0 ≡ err malformed_packet
unfolding read_varint varint_loop next
varint_overlong = refl

string_hi : (read_string (received (0 ∷ 2 ∷ b'h' ∷ b'i' ∷ []))).0 ≡ ok (b'h' ∷ b'i' ∷ [])
unfolding read_string read_binary binary_body check_string malloc copy_out read_uint16 next need
    validate_utf8 characters character lead continuation check_codepoint
string_hi = refl

wrote_300 : (write_varint 300 (blank 3)).1.payload ≡ 0xAC ∷ 2 ∷ 0 ∷ []
unfolding write_varint write_varint_loop write_byte assert_room copy_in
wrote_300 = refl

read_varint-write_varint_example :
    ((write_varint 300 (blank 4)).0 ≡ success)
    × ((read_varint (reopened (blank 4) (write_varint 300 (blank 4)).1)).0
        ≡ ok (300, varint_bytes 300))
unfolding varint_bytes
read_varint-write_varint_example =
    read_varint-write_varint 300 (blank 4) (omega arith) (omega arith) (omega arith)

read_string-write_string_example :
    ((write_string (b'h' ∷ b'i' ∷ []) (blank 8)).0 ≡ success)
    × ((read_string (reopened (blank 8) (write_string (b'h' ∷ b'i' ∷ []) (blank 8)).1)).0
        ≡ ok (b'h' ∷ b'i' ∷ []))
unfolding encode_all encode
read_string-write_string_example =
    read_string-write_string (b'h' ∷ b'i' ∷ []) (blank 8) (omega arith)
      (b'h' ∷ b'i' ∷ [], ground arith, refl) (omega arith) (omega arith) refl

abbrev hi_packet : Packet
hi_packet = received (0 ∷ 2 ∷ b'h' ∷ b'i' ∷ 7 ∷ [])

read_string_sound_example :
    ((read_string hi_packet).0 ≢ fault)
    × ((s : List ℕ) (q : Packet)
        → read_string hi_packet ≡ (ok s, q)
        → Encodes s
          × (length s < 2 ^ 16)
          × (unread hi_packet ≡ format_binary s ++ unread q)
          × (q.payload ≡ hi_packet.payload))
unfolding unread
read_string_sound_example = read_string_sound hi_packet (omega arith) (omega arith)

read_varint_canonical_example :
    ((read_varint hi_packet).0 ≢ fault)
    × ((w n : ℕ) (q : Packet)
        → read_varint hi_packet ≡ (ok (w, n), q)
        → (w < 2 ^ 28)
          × (unread hi_packet ≡ format_varint w ++ unread q)
          × (n ≡ length (format_varint w))
          × (q.payload ≡ hi_packet.payload))
unfolding unread
read_varint_canonical_example = read_varint_canonical hi_packet (omega arith) (omega arith)
