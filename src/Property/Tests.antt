-- ===== src/Property/Tests.antt =====
-- Runs of the property readers and writers on concrete properties.
use dimq.Property.Kinds.{varint, i16, i8, Property, i32, str, read_kind, length_kind}
use dimq.Property.Ids.{
  topic_alias, one_of, payload_format_indicator, cmd_publish, user_property,
  message_expiry_interval,
}
use dimq.Prelude.{◌↔◌, some, false, ◌≡◌, ◌≢◌, ◌+◌, refl, List, [], ◌∷◌, replicate, true, arith, map}
use dimq.Packet.RoundTrip.{reopened}
use dimq.Result.{success, ok, fault, ◌>>=◌}
use dimq.Packet.Format.{format_varint, format_uint32, format_uint16, format_binary}
use dimq.Property.Format.{AllFit, format_properties, format_property, format_value}
use dimq.Utf8.Spec.{encode, encode_all}
use dimq.Packet.Parse.{unread}
use dimq.Property.ReadAll.{read_all_sound, Accepted}
use dimq.Property.Built.{FitsAfter, add_values-FitsAfter}
use dimq.Property.Build.{add_byte, add_int16, add_int32, add_varint, add_binary, built}
use dimq.Property.Accessed.{accessors-ne-fault, read-add_values}
use dimq.Property.Access.{
  property_read_byte, property_read_int16, property_read_int32, property_read_varint,
  property_read_binary, property_read_string, property_read_string_pair,
}
use dimq.Property.Commands.{carried, check_command_iff}
use dimq.Property.ReadBack.{read_all-write_all, as_received, plenty}
use dimq.Property.Written.{get_remaining_length-write_all}
use dimq.Property.Check.{check_all, check_value, check_command, has_identifier}
use dimq.Property.{
  read_all, write_all, get_length_all, get_remaining_length, sum_lengths, get_length, value_length,
}
use dimq.Packet.{Packet, varint_bytes}

-- A property list of two bytes, and one byte behind it.
abbrev indicator_packet : Packet
indicator_packet = record {
  payload = 2 ∷ 1 ∷ 1 ∷ 9 ∷ [];
  remaining_length = 4;
  packet_length = 4;
  pos = 0;
  heap = plenty;
}

abbrev blank : Packet
blank = record {
  payload = replicate 32 0;
  remaining_length = 0;
  packet_length = 32;
  pos = 0;
  heap = plenty;
}

abbrev two_properties : List Property
two_properties =
    record {
      identifier = message_expiry_interval;
      value = i32 60;
      name = [];
      client_generated = true;
    }
    ∷ record {
      identifier = user_property;
      value = str (b'v' ∷ []);
      name = b'n' ∷ [];
      client_generated = true;
    }
    ∷ []

read_all_sound_example :
    ((read_all cmd_publish indicator_packet).0 ≢ fault)
    × ((props : List Property) (q : Packet)
        → read_all cmd_publish indicator_packet ≡ (ok props, q)
        → Accepted cmd_publish (unread indicator_packet) props (unread q)
          × (q.payload ≡ indicator_packet.payload))
unfolding unread
read_all_sound_example = read_all_sound cmd_publish indicator_packet (omega arith) (omega arith)

two_fit : AllFit two_properties
unfolding read_kind encode_all encode
two_fit = (
  omega arith,
  (
    (omega arith, (b'v' ∷ [], ground arith, refl), omega arith, (b'n' ∷ [], ground arith, refl)),
    tt,
  ),
)

get_remaining_length-write_all_example :
    ((write_all two_properties true blank).0 ≡ success)
    × ((write_all two_properties true blank).1.pos ≡ 0 + 13)
unfolding format_properties format_property format_value read_kind format_binary format_uint16
    format_uint32 format_varint get_remaining_length get_length_all sum_lengths get_length
    value_length length_kind varint_bytes
get_remaining_length-write_all_example =
    get_remaining_length-write_all two_properties blank 13 two_fit (omega arith) refl (omega arith)

read_all-write_all_example :
    ((write_all two_properties true blank).0 ≡ success)
    × ((read_all cmd_publish (reopened blank (write_all two_properties true blank).1)).0
        ≡ ok (map as_received two_properties))
unfolding format_properties format_property format_value read_kind format_binary format_uint16
    format_uint32 format_varint check_all check_value check_command has_identifier
read_all-write_all_example =
    read_all-write_all cmd_publish two_properties blank two_fit refl (omega arith) (omega arith)
      (omega arith) refl

check_command_iff_example :
    (check_command cmd_publish payload_format_indicator ≡ success)
    ↔ (one_of payload_format_indicator (carried cmd_publish) ≡ true)
check_command_iff_example =
    check_command_iff cmd_publish payload_format_indicator refl (λ e. absurd (omega arith))

add_values-FitsAfter_example :
    FitsAfter (add_byte (some two_properties) payload_format_indicator 1 plenty)
    × FitsAfter (add_int16 (some two_properties) payload_format_indicator 2 plenty)
    × FitsAfter (add_int32 (some two_properties) payload_format_indicator 3 plenty)
    × FitsAfter (add_varint (some two_properties) payload_format_indicator 4 plenty)
    × FitsAfter (add_binary (some two_properties) payload_format_indicator (5 ∷ []) plenty)
add_values-FitsAfter_example =
    add_values-FitsAfter two_properties payload_format_indicator 1 2 3 4 (5 ∷ []) plenty two_fit
      (omega arith) (omega arith) (omega arith) (omega arith)

abbrev indicator : Property
indicator = built payload_format_indicator (i8 1) []

accessors-ne-fault_example :
    (property_read_byte two_properties user_property false ≢ fault)
    × (property_read_int16 two_properties user_property false ≢ fault)
    × (property_read_int32 two_properties user_property false ≢ fault)
    × (property_read_varint two_properties user_property false ≢ fault)
    × (property_read_binary two_properties user_property false plenty ≢ fault)
    × (property_read_string two_properties user_property false plenty ≢ fault)
    × (property_read_string_pair two_properties user_property false plenty ≢ fault)
accessors-ne-fault_example = accessors-ne-fault two_properties user_property false plenty two_fit

read-add_values_example :
    ((add_byte (some two_properties) topic_alias 7 plenty >>= λ qs.
    property_read_byte qs topic_alias false)
      ≡ (add_byte (some two_properties) topic_alias 7 plenty >>= λ qs.
          ok (some (7, built topic_alias (i8 7) [], []))))
    × ((add_int16 (some two_properties) topic_alias 7 plenty >>= λ qs.
          property_read_int16 qs topic_alias false)
        ≡ (add_int16 (some two_properties) topic_alias 7 plenty >>= λ qs.
            ok (some (7, built topic_alias (i16 7) [], []))))
    × ((add_int32 (some two_properties) topic_alias 7 plenty >>= λ qs.
          property_read_int32 qs topic_alias false)
        ≡ (add_int32 (some two_properties) topic_alias 7 plenty >>= λ qs.
            ok (some (7, built topic_alias (i32 7) [], []))))
    × ((add_varint (some two_properties) topic_alias 7 plenty >>= λ qs.
          property_read_varint qs topic_alias false)
        ≡ (add_varint (some two_properties) topic_alias 7 plenty >>= λ qs.
            ok (some (7, built topic_alias (varint 7) [], []))))
unfolding has_identifier
read-add_values_example = read-add_values two_properties topic_alias 7 plenty refl
