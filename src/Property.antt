-- ===== src/Property.antt =====
-- lib/property_dimq.c: the property lists of MQTT v5 packets (`struct mqtt5__property`), read from a
-- packet, written to one, measured, checked and built. A list of properties is a `List`, in order.
pub mod Ids
pub mod Kinds
pub mod Check
pub mod Parse
pub mod Parsed
pub mod Lists
pub mod Total
pub mod ReadAll
pub mod Written
pub mod ReadBack
pub mod Names
pub mod Named
pub mod Commands
pub mod Build
pub mod Built
pub mod Access
pub mod Accessed
mod Tests
pub mod Format
use dimq.Property.Kinds.{
  unsupported, text_pair, text, binary, variable, four_bytes, two_bytes, write_kind, read_kind,
  byte, varint, str, length_kind, i8, i32, i16, bin, Value, Property, Kind,
}
use dimq.Packet.{
  write_bytes, read_binary, write_string, read_string, write_uint32, read_uint32, write_uint16,
  varint_bytes, read_uint16, write_varint, write_byte, read_varint, read_byte, malloc, bind, M,
  Packet, ◌>>=◌, ◌>>◌, return, fail,
}
use dimq.Property.Check.{check_all}
use dimq.Word.{u32}
use dimq.Prelude.{
  ℕ, zero, suc, ◌+◌, ◌-◌, ◌%◌, ◌^◌, ◌==◌, Bool, true, false, List, [], ◌∷◌, ltb, length,
  if◌then◌else◌,
}
use dimq.Result.{Result, ok, err, fault, malformed_packet, inval, Status}

-- `*len -= n` on a uint32_t
abbrev pub minus32 : ℕ → ℕ → ℕ
minus32 len n = (len + 2 ^ 32 - n) % 2 ^ 32

-- A property as `property__read` fills it in: all else is zero.
abbrev pub received : ℕ → Value → Property
received identifier value = record {
  identifier = identifier;
  value = value;
  name = [];
  client_generated = false;
}

-- The `switch` of `property__read`; `len` is what is left of the property length.
unfoldable pub read_value : Kind → ℕ → ℕ → M (ℕ × Property)
read_value byte n len = do b ← read_byte; return (minus32 len 1, received n (i8 b))
read_value two_bytes n len = do w ← read_uint16; return (minus32 len 2, received n (i16 w))
read_value four_bytes n len = do w ← read_uint32; return (minus32 len 4, received n (i32 w))
read_value variable n len = do
  (w, count) ← read_varint
  return (minus32 len count, received n (varint w))
read_value text n len = do
  s ← read_string
  return (minus32 (minus32 len 2) (length s), received n (str s))
read_value binary n len = do
  s ← read_binary
  return (minus32 (minus32 len 2) (length s), received n (bin s))
read_value text_pair n len = do
  s1 ← read_string
  s2 ← read_string
  return (
    minus32 (minus32 (minus32 (minus32 len 2) (length s1)) 2) (length s2),
    record { identifier = n; value = str s2; name = s1; client_generated = false },
  )
read_value unsupported n len = fail malformed_packet

unfoldable pub read_property : ℕ → M (ℕ × Property)
read_property len = do (n, count) ← read_varint; read_value (read_kind n) n (minus32 len 1)

-- `while(proplen > 0)`: `fuel` bounds the rounds.
unfoldable pub read_properties : ℕ → ℕ → M (List Property)
read_properties zero len = λ p. (fault, p)
read_properties (suc fuel) len =
    let round = (do
      malloc
      (len', prop) ← read_property len
      props ← read_properties fuel len'
      return (prop ∷ props)) in
    if len == 0 then return [] else round

abbrev pub lift : Status → M (Unit {0})
lift code p = (code, p)

-- Every property takes a byte of the packet at least, so `remaining_length` rounds and one for the
-- last test are enough.
unfoldable pub read_all : ℕ → M (List Property)
read_all command p = bind (read_varint p) λ (proplen, count). do
  props ← read_properties (suc p.remaining_length) proplen
  lift (check_all command props)
  return props

-- Reading a member of the union that was not set last is a `fault`.
abbrev pub the_i8 : Value → (ℕ → M (Unit {0})) → M (Unit {0})
the_i8 (i8 v) k = k v
the_i8 _ k = λ p. (fault, p)

abbrev pub the_i16 : Value → (ℕ → M (Unit {0})) → M (Unit {0})
the_i16 (i16 v) k = k v
the_i16 _ k = λ p. (fault, p)

abbrev pub the_i32 : Value → (ℕ → M (Unit {0})) → M (Unit {0})
the_i32 (i32 v) k = k v
the_i32 _ k = λ p. (fault, p)

abbrev pub the_varint : Value → (ℕ → M (Unit {0})) → M (Unit {0})
the_varint (varint v) k = k v
the_varint _ k = λ p. (fault, p)

abbrev pub the_bin : Value → (List ℕ → M (Unit {0})) → M (Unit {0})
the_bin (bin v) k = k v
the_bin _ k = λ p. (fault, p)

abbrev pub the_str : Value → (List ℕ → M (Unit {0})) → M (Unit {0})
the_str (str v) k = k v
the_str _ k = λ p. (fault, p)

-- The `switch` of `property__write`.
unfoldable pub write_value : Kind → Property → M (Unit {0})
write_value byte prop = the_i8 prop.value write_byte
write_value two_bytes prop = the_i16 prop.value write_uint16
write_value four_bytes prop = the_i32 prop.value write_uint32
write_value variable prop = the_varint prop.value write_varint
write_value text prop = the_str prop.value write_string
write_value binary prop = the_bin prop.value λ v. do write_uint16 (length v); write_bytes v
write_value text_pair prop = do write_string prop.name; the_str prop.value write_string
write_value unsupported prop = fail inval

unfoldable pub write_property : Property → M (Unit {0})
write_property prop = do write_varint prop.identifier; write_value (write_kind prop.identifier) prop

unfoldable pub write_properties : List Property → M (Unit {0})
write_properties [] = return tt
write_properties (prop ∷ props) = do write_property prop; write_properties props

-- The `switch` of `property__get_length`, on the member that the identifier stands for.
unfoldable pub value_length : Kind → Property → Result ℕ
value_length byte prop = ok 2
value_length two_bytes prop = ok 3
value_length four_bytes prop = ok 5
value_length variable prop = elim prop.value [
  | varint v ↦ ok (
      if ltb v 128
      then 2
      else if ltb v 16384
      then 3
      else if ltb v 2097152
      then 4
      else if ltb v 268435456
      then 5
      else 0)
  | _ ↦ fault
]
value_length binary prop = elim prop.value [ bin v ↦ ok (3 + length v) | _ ↦ fault ]
value_length text prop = elim prop.value [ str v ↦ ok (3 + length v) | _ ↦ fault ]
value_length text_pair prop = elim prop.value [
  | str v ↦ ok (5 + length v + length prop.name)
  | _ ↦ fault
]
value_length unsupported prop = ok 0

unfoldable pub get_length : Property → Result ℕ
get_length prop = value_length (length_kind prop.identifier) prop

-- The sum, as an unsigned int.
unfoldable pub sum_lengths : ℕ → List Property → Result ℕ
sum_lengths len [] = ok len
sum_lengths len (prop ∷ props) = elim (get_length prop) [
  | ok n ↦ sum_lengths (u32 (len + n)) props
  | err e ↦ err e
  | fault ↦ fault
]

unfoldable pub get_length_all : List Property → Result ℕ
get_length_all props = sum_lengths 0 props

unfoldable pub get_remaining_length : List Property → Result ℕ
get_remaining_length props = elim (get_length_all props) [
  | ok proplen ↦ ok (u32 (proplen + varint_bytes proplen))
  | err e ↦ err e
  | fault ↦ fault
]

abbrev pub of_result : {A : Type 0} → Result A → M A
of_result r p = (r, p)

unfoldable pub write_all : List Property → Bool → M (Unit {0})
write_all props write_len =
    let with_len = (do
      n ← of_result (get_length_all props)
      write_varint n
      write_properties props) in
    if write_len then with_len else write_properties props
