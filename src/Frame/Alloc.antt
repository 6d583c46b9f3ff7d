-- ===== src/Frame/Alloc.antt =====
-- lib/packet_dimq.c: the fixed header of a packet that is sent, and the limit on its size.
use dimq.Result.{Status, Result, ok, err, success, payload_size, nomem, oversize_packet}
use dimq.Prelude.{
  List, [], ◌∷◌, ℕ, zero, suc, ◌+◌, ◌/◌, ◌%◌, ◌==◌, Bool, ltb, length, if◌then◌else◌,
}
use dimq.Packet.{varint_bytes}

-- The loop of `packet__alloc`, where so many bytes are free
unfoldable pub encode : ℕ → ℕ → List ℕ
encode zero r = []
encode (suc n) r =
    let rest = encode n (r / 128) in
    if ltb 0 (r / 128) then (r % 128 + 128) ∷ rest else r % 128 ∷ []

-- What `packet__alloc` sets: the first bytes of the payload, `packet_length` and `pos`
pub record OutPacket : Type 0 where
  pub header : List ℕ
  pub packet_length : ℕ
  pub pos : ℕ

-- `packet__alloc`, for the command and the remaining length of the packet; `malloc` is what
-- `dimq__malloc` answers
unfoldable pub alloc : Bool → ℕ → ℕ → Result OutPacket
alloc malloc command remaining_length =
    let digits = encode 5 remaining_length in
    if length digits == 5
    then err payload_size
    else if malloc
    then ok (record {
      header = command ∷ digits;
      packet_length = (remaining_length + 1 + length digits) % 4294967296;
      pos = 1 + length digits;
    })
    else err nomem

-- `packet__check_oversize`
unfoldable pub check_oversize : ℕ → ℕ → Status
check_oversize maximum_packet_size remaining_length =
    if maximum_packet_size == 0
    then success
    else if ltb maximum_packet_size
        ((remaining_length + varint_bytes remaining_length) % 4294967296)
    then err oversize_packet
    else success
