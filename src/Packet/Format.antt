-- ===== src/Packet/Format.antt =====
-- The MQTT data representations (section 1.5 of the standard) as byte lists: what a field is
-- written as, and how it is parsed from the front of a list.
use dimq.Result.{Status, ok, err, fault, malformed_packet, malformed_utf8, nomem}
use dimq.Prelude.{
  some, ◌&&◌, ◌==◌, ◌++◌, ℕ, suc, zero, ◌+◌, ◌*◌, ◌/◌, ◌%◌, List, [], ◌∷◌, take, drop, length, ltb,
  if◌then◌else◌,
}
use dimq.Utf8.{validate_utf8}
use dimq.Packet.Parse.{chain, Parse}
use dimq.Word.{u16, u32}

unfoldable pub format_uint16 : ℕ → List ℕ
format_uint16 w = (w / 256 % 256) ∷ (w % 256) ∷ []

unfoldable pub format_uint32 : ℕ → List ℕ
format_uint32 w = (w / 16777216 % 256) ∷ (w / 65536 % 256) ∷ (w / 256 % 256) ∷ (w % 256) ∷ []

-- Seven bits a byte, lowest group first, the top bit set on every byte but the last.
unfoldable pub format_varint : ℕ → List ℕ
format_varint w =
    if ltb w 128
    then w ∷ []
    else if ltb w 16384
    then (w % 128 + 128) ∷ (w / 128) ∷ []
    else if ltb w 2097152
    then (w % 128 + 128) ∷ (w / 128 % 128 + 128) ∷ (w / 16384) ∷ []
    else (w % 128 + 128) ∷ (w / 128 % 128 + 128) ∷ (w / 16384 % 128 + 128) ∷ (w / 2097152) ∷ []

-- Binary data and strings: the length as two bytes, then the bytes.
unfoldable pub format_binary : List ℕ → List ℕ
format_binary bs = format_uint16 (length bs) ++ bs

unfoldable pub parse_byte : Parse ℕ
parse_byte [] h = err malformed_packet
parse_byte (b ∷ bs) h = ok (b, bs, h)

unfoldable pub parse_uint16 : Parse ℕ
parse_uint16 (a ∷ b ∷ bs) h = ok (u16 (a * 256 + b), bs, h)
parse_uint16 _ h = err malformed_packet

unfoldable pub parse_uint32 : Parse ℕ
parse_uint32 (a ∷ b ∷ c ∷ d ∷ bs) h = ok (u32 (((a * 256 + b) * 256 + c) * 256 + d), bs, h)
parse_uint32 _ h = err malformed_packet

unfoldable pub varint_digits : ℕ → ℕ → ℕ → ℕ → Parse (ℕ × ℕ)
varint_digits zero acc mult count bs h = err malformed_packet
varint_digits (suc k) acc mult count [] h = err malformed_packet
varint_digits (suc k) acc mult count (b ∷ bs) h =
    let acc' = u32 (acc + b % 128 * mult) in
    let more = varint_digits k acc' (u32 (mult * 128)) (count + 1) bs h in
    if b / 128 % 2 == 1
    then more
    else if ltb 1 (count + 1) && b == 0
    then err malformed_packet
    else ok ((acc', count + 1), bs, h)

unfoldable pub parse_varint : Parse (ℕ × ℕ)
parse_varint = varint_digits 4 0 1 0

-- The bytes of a field, when their number is known; one answer of the allocator unless it is empty.
unfoldable pub parse_body : ℕ → Parse (List ℕ)
parse_body n bs h =
    if n == 0
    then ok ([], bs, h)
    else if ltb (length bs) n
    then err malformed_packet
    else if h 0
    then ok (take n bs, drop n bs, λ i. h (suc i))
    else err nomem

unfoldable pub parse_binary : Parse (List ℕ)
parse_binary = chain parse_uint16 parse_body

abbrev pub parse_valid : List ℕ → Status → Parse (List ℕ)
parse_valid str (ok _) bs h = ok (str, bs, h)
parse_valid str (err _) bs h = err malformed_utf8
parse_valid str fault bs h = fault

-- A field that is not empty must be UTF-8 text.
unfoldable pub parse_text : List ℕ → Parse (List ℕ)
parse_text str bs h =
    if length str == 0
    then ok (str, bs, h)
    else parse_valid str (validate_utf8 (some (str ++ 0 ∷ [])) (length str)) bs h

unfoldable pub parse_string : Parse (List ℕ)
parse_string = chain parse_binary parse_text
