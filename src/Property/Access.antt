-- ===== src/Property/Access.antt =====
-- `dimq_property_read_*`: the value of a property that is searched by its identifier. The result is
-- `none` for NULL; otherwise it holds what is written to `*value`, for a `value` that is not NULL,
-- and the property with what follows it. NULL for `proplist` is the empty list.
use dimq.Property.Ids.{
  payload_format_indicator, message_expiry_interval, correlation_data, subscription_identifier,
  session_expiry_interval, server_keep_alive, authentication_data, request_problem_information,
  will_delay_interval, request_response_information, receive_maximum, topic_alias_maximum,
  topic_alias, maximum_qos, retain_available, user_property, maximum_packet_size,
  wildcard_sub_available, subscription_id_available, shared_sub_available, one_of,
}
use dimq.Property.Kinds.{Property, i8, i16, i32, varint, bin, str}
use dimq.Property.Build.{get_property, string_identifiers}
use dimq.Packet.{Heap}
use dimq.Prelude.{ℕ, ◌==◌, Bool, List, [], ◌∷◌, Option, none, some, if◌then◌else◌}
use dimq.Result.{Result, ok, fault}

abbrev pub Found : Type 0 → Type 0
Found A = Result (Option (A × Property × List Property))

-- The search, and then the rest of the function on what it found.
abbrev pub search :
    {A : Type 0}
    → Option (Property × List Property)
    → (Property → List Property → Found A)
    → Found A
search none k = ok none
search (some (p, rest)) k = k p rest

-- Reading a member of the union that was not set is a `fault`.
abbrev pub get_i8 : Property → List Property → Found ℕ
get_i8 p rest = elim p.value [ i8 v ↦ ok (some (v, p, rest)) | _ ↦ fault ]

abbrev pub get_i16 : Property → List Property → Found ℕ
get_i16 p rest = elim p.value [ i16 v ↦ ok (some (v, p, rest)) | _ ↦ fault ]

abbrev pub get_i32 : Property → List Property → Found ℕ
get_i32 p rest = elim p.value [ i32 v ↦ ok (some (v, p, rest)) | _ ↦ fault ]

abbrev pub get_varint : Property → List Property → Found ℕ
get_varint p rest = elim p.value [ varint v ↦ ok (some (v, p, rest)) | _ ↦ fault ]

-- `calloc` and `memcpy`
abbrev pub copy_bin : Bool → Property → List Property → Found (List ℕ)
copy_bin answer p rest =
    if answer then elim p.value [ bin v ↦ ok (some (v, p, rest)) | _ ↦ fault ] else ok none

abbrev pub copy_str : Bool → Property → List Property → Found (List ℕ)
copy_str answer p rest =
    if answer then elim p.value [ str v ↦ ok (some (v, p, rest)) | _ ↦ fault ] else ok none

abbrev pub copy_pair : Bool → Bool → Property → List Property → Found (List ℕ × List ℕ)
copy_pair first second p rest =
    if first
    then (if second
        then elim p.value [ str v ↦ ok (some ((p.name, v), p, rest)) | _ ↦ fault ]
        else ok none)
    else ok none

unfoldable pub property_read_byte : List Property → ℕ → Bool → Found ℕ
property_read_byte ps n skip_first = search (get_property ps n skip_first) λ p rest.
    if one_of p.identifier (
      payload_format_indicator ∷ request_problem_information ∷ request_response_information
      ∷ maximum_qos ∷ retain_available ∷ wildcard_sub_available ∷ subscription_id_available
      ∷ shared_sub_available ∷ [])
    then get_i8 p rest
    else ok none

unfoldable pub property_read_int16 : List Property → ℕ → Bool → Found ℕ
property_read_int16 ps n skip_first = search (get_property ps n skip_first) λ p rest.
    if one_of p.identifier
      (server_keep_alive ∷ receive_maximum ∷ topic_alias_maximum ∷ topic_alias ∷ [])
    then get_i16 p rest
    else ok none

unfoldable pub property_read_int32 : List Property → ℕ → Bool → Found ℕ
property_read_int32 ps n skip_first = search (get_property ps n skip_first) λ p rest.
    if one_of p.identifier (
      message_expiry_interval ∷ session_expiry_interval ∷ will_delay_interval ∷ maximum_packet_size
      ∷ [])
    then get_i32 p rest
    else ok none

unfoldable pub property_read_varint : List Property → ℕ → Bool → Found ℕ
property_read_varint ps n skip_first =
    search (get_property ps n skip_first)
      λ p rest. if p.identifier == subscription_identifier then get_varint p rest else ok none

unfoldable pub property_read_binary : List Property → ℕ → Bool → Heap → Found (List ℕ)
property_read_binary ps n skip_first heap = search (get_property ps n skip_first) λ p rest.
    if one_of p.identifier (correlation_data ∷ authentication_data ∷ [])
    then copy_bin (heap 0) p rest
    else ok none

unfoldable pub property_read_string : List Property → ℕ → Bool → Heap → Found (List ℕ)
property_read_string ps n skip_first heap =
    search (get_property ps n skip_first)
      λ p rest. if one_of p.identifier string_identifiers then copy_str (heap 0) p rest else ok none

-- The name and the value, for a `name` and a `value` that are not NULL.
unfoldable pub property_read_string_pair : List Property → ℕ → Bool → Heap → Found (List ℕ × List ℕ)
property_read_string_pair ps n skip_first heap =
    search (get_property ps n skip_first) λ p rest.
      if p.identifier == user_property then copy_pair (heap 0) (heap 1) p rest else ok none
