-- ===== src/Packet.antt =====
-- lib/packet_datatypes.c: the fields of MQTT packets, read from and written to the payload of a
-- `struct dimq__packet` (lib/dimq_internal.h). A read or write outside the payload, and an `assert`
-- that fails, is a `fault`. A pointer and its length are one list, and NULL is the empty list.
use dimq.Result.{Status, Err, Result, ok, err, fault, malformed_packet, malformed_utf8, nomem}
use dimq.Word.{u16, u8, u32, shr, low_bits, has_bit, msb, lsb}
pub mod Parse
pub mod Basic
pub mod Format
pub mod Read
pub mod Laws
pub mod Write
pub mod RoundTrip
pub mod Safe
mod Tests
use dimq.Prelude.{
  ℕ, zero, suc, ◌+◌, ◌*◌, ◌/◌, ◌%◌, ◌==◌, Bool, ◌&&◌, ltb, leb, List, [], ◌∷◌, ◌++◌, none, some,
  get_elem?, set, length, take, drop, if◌then◌else◌,
}
use dimq.Utf8.{validate_utf8}

-- The answers that the allocator gives to the calls to come: a parameter of every run.
abbrev pub Heap : Type 0
Heap = ℕ → Bool

pub record Packet : Type 0 where
  pub payload : List ℕ
  pub remaining_length : ℕ
  pub packet_length : ℕ
  pub pos : ℕ
  pub heap : Heap

abbrev pub M : Type 0 → Type 0
M A = Packet → Result A × Packet

abbrev pub bind : {A B : Type 0} → Result A × Packet → (A → M B) → Result B × Packet
bind (ok a, p) f = f a p
bind (err e, p) f = (err e, p)
bind (fault, p) f = (fault, p)

infixl 5 ◌>>=◌ ◌>>◌
abbrev pub ◌>>=◌ : {A B : Type 0} → M A → (A → M B) → M B
◌>>=◌ m f p = bind (m p) f

abbrev pub ◌>>◌ : {B : Type 0} → M (Unit {0}) → M B → M B
◌>>◌ m k p = bind (m p) (λ _. k)

abbrev pub return : {A : Type 0} → A → M A
return a p = (ok a, p)

abbrev pub fail : {A : Type 0} → Err → M A
fail e p = (err e, p)

-- `return dimq_ERR_MALFORMED_PACKET` unless `n` more bytes belong to the packet. `pos` and `n` are
-- added as uint32_t.
unfoldable pub need : ℕ → M (Unit {0})
need n p =
    if ltb p.remaining_length (u32 (p.pos + n)) then (err malformed_packet, p) else (ok tt, p)

-- `packet->payload[packet->pos]; packet->pos++`
unfoldable pub next : M ℕ
next p = elim (get_elem? p.payload p.pos) [
  | none ↦ (fault, p)
  | some b ↦ (ok b, record p { pos = p.pos + 1 })
]

unfoldable pub read_byte : M ℕ
read_byte = do need 1; next

-- `memcpy` of `count` bytes from the payload
unfoldable pub copy_out : ℕ → M (List ℕ)
copy_out count p =
    if leb (p.pos + count) (length p.payload)
    then (ok (take count (drop p.pos p.payload)), record p { pos = p.pos + count })
    else (fault, p)

unfoldable pub read_bytes : ℕ → M (List ℕ)
read_bytes count = do need count; copy_out count

unfoldable pub read_uint16 : M ℕ
read_uint16 = do need 2; m ← next; l ← next; return (u16 (m * 256 + l))

-- `for(i=0; i<4; i++)`: `k` rounds are left.
unfoldable pub uint32_loop : ℕ → ℕ → M ℕ
uint32_loop zero val = return val
uint32_loop (suc k) val = do b ← next; uint32_loop k (u32 (val * 256 + b))

unfoldable pub read_uint32 : M ℕ
read_uint32 = do need 4; uint32_loop 4 0

-- The value and the number of its bytes; `k` of the four rounds are left.
unfoldable pub varint_loop : ℕ → ℕ → ℕ → ℕ → M (ℕ × ℕ)
varint_loop zero lword mult lbytes p = (err malformed_packet, p)
varint_loop (suc k) lword mult lbytes p =
    let more = bind (next p) (λ byte.
      let lword' = u32 (lword + low_bits byte 7 * mult) in
      let again = varint_loop k lword' (u32 (mult * 128)) (lbytes + 1) in
      if has_bit byte 7
      then again
      else if ltb 1 (lbytes + 1) && byte == 0
      then fail malformed_packet
      else return (lword', lbytes + 1)) in
    if ltb p.pos p.remaining_length then more else (err malformed_packet, p)

unfoldable pub read_varint : M (ℕ × ℕ)
read_varint = varint_loop 4 0 1 0

-- `dimq__malloc`, as one answer of the allocator
unfoldable pub malloc : M (Unit {0})
malloc p =
    let p' = record p { heap = λ i. p.heap (suc i) } in
    if p.heap 0 then (ok tt, p') else (err nomem, p')

-- An empty field gives NULL, which is the empty list here, with no call of the allocator.
unfoldable pub binary_body : ℕ → M (List ℕ)
binary_body slen =
    let body = (do need slen; malloc; copy_out slen) in if slen == 0 then return [] else body

unfoldable pub read_binary : M (List ℕ)
read_binary = do slen ← read_uint16; binary_body slen

-- Any code but success frees the string.
abbrev pub keep_valid : List ℕ → Status → M (List ℕ)
keep_valid str (ok _) = return str
keep_valid str (err _) = fail malformed_utf8
keep_valid str fault = λ p. (fault, p)

-- The copy is NUL-terminated, and so is what `dimq_validate_utf8` reads.
unfoldable pub check_string : List ℕ → M (List ℕ)
check_string str =
    if length str == 0
    then return str
    else keep_valid str (validate_utf8 (some (str ++ 0 ∷ [])) (length str))

unfoldable pub read_string : M (List ℕ)
read_string = do str ← read_binary; check_string str

-- `assert(packet->pos+n <= packet->packet_length)`
unfoldable pub assert_room : ℕ → M (Unit {0})
assert_room n p = if leb (u32 (p.pos + n)) p.packet_length then (ok tt, p) else (fault, p)

abbrev pub set_all : List ℕ → ℕ → List ℕ → List ℕ
set_all payload i [] = payload
set_all payload i (b ∷ bs) = set_all (set payload i b) (i + 1) bs

-- `memcpy` into the payload
unfoldable pub copy_in : List ℕ → M (Unit {0})
copy_in bs p =
    if leb (p.pos + length bs) (length p.payload)
    then (ok tt, record p { payload = set_all p.payload p.pos bs; pos = p.pos + length bs })
    else (fault, p)

unfoldable pub write_byte : ℕ → M (Unit {0})
write_byte byte = do assert_room 1; copy_in (byte ∷ [])

unfoldable pub write_bytes : List ℕ → M (Unit {0})
write_bytes bytes = do assert_room (length bytes); copy_in bytes

unfoldable pub write_uint16 : ℕ → M (Unit {0})
write_uint16 word = do write_byte (msb word); write_byte (lsb word)

unfoldable pub write_string : List ℕ → M (Unit {0})
write_string str = do write_uint16 (u16 (length str)); write_bytes str

unfoldable pub write_uint32 : ℕ → M (Unit {0})
write_uint32 word = do
  write_byte (u8 (shr word 24))
  write_byte (u8 (shr word 16))
  write_byte (u8 (shr word 8))
  write_byte (u8 word)

-- `do … while(word > 0 && count < 5)`: after this round `k` more may follow, so `count` is then 5 - k.
unfoldable pub write_varint_loop : ℕ → ℕ → M (Unit {0})
write_varint_loop zero word = fail malformed_packet
write_varint_loop (suc k) word =
    let word' = word / 128 in
    let more = write_varint_loop k word' in
    do
      write_byte (if ltb 0 word' then word % 128 + 128 else word % 128)
      (if ltb 0 word' then more else if k == 0 then fail malformed_packet else return tt)

unfoldable pub write_varint : ℕ → M (Unit {0})
write_varint word = write_varint_loop 5 word

unfoldable pub varint_bytes : ℕ → ℕ
varint_bytes word =
    if ltb word 128
    then 1
    else if ltb word 16384
    then 2
    else if ltb word 2097152
    then 3
    else if ltb word 268435456
    then 4
    else 5
