-- ===== src/Property/Parse.antt =====
-- The parser that `property__read` and its loop stand for, and that they refine it.
use dimq.Property.Kinds.{
  unsupported, text_pair, binary, text, variable, four_bytes, two_bytes, byte, bin, str, varint,
  i32, i16, i8, read_kind, Property, Kind,
}
use dimq.Packet.Read.{
  fail-Refines, read_binary-Refines, read_string-Refines, read_uint32-Refines, read_uint16-Refines,
  return-Refines, read_varint-Refines, read_byte-Refines, Refines-if,
}
use dimq.Packet.Format.{
  parse_binary, parse_string, parse_uint32, parse_uint16, parse_varint, parse_byte,
}
use dimq.Packet.{read_binary, read_string, read_uint32, read_uint16, malloc, read_varint, read_byte}
use dimq.Packet.Basic.{malloc-Refines, parse_malloc}
use dimq.Property.{received, minus32, read_value, read_property, read_properties}
use dimq.Prelude.{ℕ, zero, suc, ◌==◌, false, List, [], ◌∷◌, length, if◌then◌else◌}
use dimq.Result.{ok, err, fault, malformed_packet}
use dimq.Packet.Parse.{Parse, Refines, chain, Refines-bind}

abbrev pub done : {A : Type 0} → A → Parse A
done a bs h = ok (a, bs, h)

unfoldable pub parse_value : Kind → ℕ → ℕ → Parse (ℕ × Property)
parse_value byte n len = chain parse_byte λ b. done (minus32 len 1, received n (i8 b))
parse_value two_bytes n len = chain parse_uint16 λ w. done (minus32 len 2, received n (i16 w))
parse_value four_bytes n len = chain parse_uint32 λ w. done (minus32 len 4, received n (i32 w))
parse_value variable n len =
    chain parse_varint λ (w, count). done (minus32 len count, received n (varint w))
parse_value text n len =
    chain parse_string λ s. done (minus32 (minus32 len 2) (length s), received n (str s))
parse_value binary n len =
    chain parse_binary λ s. done (minus32 (minus32 len 2) (length s), received n (bin s))
parse_value text_pair n len = chain parse_string λ s1. chain parse_string λ s2. done (
  minus32 (minus32 (minus32 (minus32 len 2) (length s1)) 2) (length s2),
  record { identifier = n; value = str s2; name = s1; client_generated = false },
)
parse_value unsupported n len = λ bs h. err malformed_packet

unfoldable pub parse_property : ℕ → Parse (ℕ × Property)
parse_property len = chain parse_varint λ (n, count). parse_value (read_kind n) n (minus32 len 1)

unfoldable pub parse_properties : ℕ → ℕ → Parse (List Property)
parse_properties zero len bs h = fault
parse_properties (suc fuel) len bs h =
    let round =
      chain parse_malloc
        (λ _.
          chain (parse_property len)
            λ (len', prop). chain (parse_properties fuel len') λ props. done (prop ∷ props))
        bs h in
    if len == 0 then ok ([], bs, h) else round

abbrev pub parse_round : ℕ → ℕ → Parse (List Property)
parse_round fuel len = chain parse_malloc λ _.
    chain (parse_property len)
      λ (len', prop). chain (parse_properties fuel len') λ props. done (prop ∷ props)

read_value-Refines : (k : Kind) (n len : ℕ) → Refines (read_value k n len) (parse_value k n len)
unfolding read_value parse_value
read_value-Refines byte n len =
    Refines-bind read_byte parse_byte _ _ read_byte-Refines λ b. return-Refines {A = ℕ × Property} _
read_value-Refines two_bytes n len =
    Refines-bind read_uint16 parse_uint16 _ _ read_uint16-Refines
      λ w. return-Refines {A = ℕ × Property} _
read_value-Refines four_bytes n len =
    Refines-bind read_uint32 parse_uint32 _ _ read_uint32-Refines
      λ w. return-Refines {A = ℕ × Property} _
read_value-Refines variable n len =
    Refines-bind read_varint parse_varint _ _ read_varint-Refines
      λ w. return-Refines {A = ℕ × Property} _
read_value-Refines text n len =
    Refines-bind read_string parse_string _ _ read_string-Refines
      λ s. return-Refines {A = ℕ × Property} _
read_value-Refines binary n len =
    Refines-bind read_binary parse_binary _ _ read_binary-Refines
      λ s. return-Refines {A = ℕ × Property} _
read_value-Refines text_pair n len =
    Refines-bind read_string parse_string _ _ read_string-Refines λ s1.
      Refines-bind read_string parse_string _ _ read_string-Refines
        λ s2. return-Refines {A = ℕ × Property} _
read_value-Refines unsupported n len = fail-Refines (ℕ × Property) malformed_packet

pub read_property-Refines : (len : ℕ) → Refines (read_property len) (parse_property len)
unfolding read_property parse_property
read_property-Refines len =
    Refines-bind read_varint parse_varint _ _ read_varint-Refines
      λ (n, count). read_value-Refines (read_kind n) n (minus32 len 1)

pub read_properties-Refines :
    (fuel len : ℕ) → Refines (read_properties fuel len) (parse_properties fuel len)
unfolding read_properties parse_properties
read_properties-Refines zero len = λ p r. tt
read_properties-Refines (suc fuel) len =
    Refines-if (len == 0) _ _ (done []) (parse_round fuel len) (return-Refines []) (
      Refines-bind malloc parse_malloc _ _ malloc-Refines λ _.
        Refines-bind (read_property len) (parse_property len) _ _ (read_property-Refines len)
          λ (len', prop).
            Refines-bind (read_properties fuel len') (parse_properties fuel len') _ _
              (read_properties-Refines fuel len') λ props. return-Refines (prop ∷ props))
