-- ===== src/Property/Build.antt =====
-- `dimq_property_add_*`: the constructors of property lists, and the searches of
-- `dimq_property_read_*`. `proplist` is NULL or points to the list; a C string ends at its first NUL,
-- is shorter than 2^31 bytes and is a list of its bytes, and NULL is `none`.
use dimq.Property.Ids.{
  payload_format_indicator, message_expiry_interval, content_type, response_topic, correlation_data,
  subscription_identifier, session_expiry_interval, assigned_client_identifier, server_keep_alive,
  authentication_method, authentication_data, request_problem_information, will_delay_interval,
  request_response_information, response_information, server_reference, reason_string,
  receive_maximum, topic_alias_maximum, topic_alias, maximum_qos, retain_available, user_property,
  maximum_packet_size, wildcard_sub_available, subscription_id_available, shared_sub_available,
  one_of,
}
use dimq.Property.Kinds.{Property, Value, i8, i16, i32, varint, bin, str}
use dimq.Packet.{Heap}
use dimq.Prelude.{
  ℕ, ◌+◌, ◌==◌, Bool, true, false, ltb, List, [], ◌∷◌, ◌++◌, Option, none, some, take, length,
  if◌then◌else◌,
}
use dimq.Result.{Result, Status, ok, err, fault, inval, nomem, malformed_utf8}
use dimq.Utf8.{validate_utf8}
use dimq.Word.{u16}

-- `property__add`
unfoldable pub add : List Property → Property → List Property
add [] prop = prop ∷ []
add (p ∷ ps) prop = p ∷ add ps prop

abbrev pub Proplist : Type 0
Proplist = Option (List Property)

abbrev pub built : ℕ → Value → List ℕ → Property
built identifier value name = record {
  identifier = identifier;
  value = value;
  name = name;
  client_generated = true;
}

-- `prop = dimq__calloc(…); if(!prop) return dimq_ERR_NOMEM;` and then `property__add`
abbrev pub allocate : Bool → List Property → Property → Result (List Property)
allocate answer ps prop = if answer then ok (add ps prop) else err nomem

unfoldable pub add_byte : Proplist → ℕ → ℕ → Heap → Result (List Property)
add_byte none identifier value heap = err inval
add_byte (some ps) identifier value heap =
    if one_of identifier (
      payload_format_indicator ∷ request_problem_information ∷ request_response_information
      ∷ maximum_qos ∷ retain_available ∷ wildcard_sub_available ∷ subscription_id_available
      ∷ shared_sub_available ∷ [])
    then allocate (heap 0) ps (built identifier (i8 value) [])
    else err inval

unfoldable pub add_int16 : Proplist → ℕ → ℕ → Heap → Result (List Property)
add_int16 none identifier value heap = err inval
add_int16 (some ps) identifier value heap =
    if one_of identifier
      (server_keep_alive ∷ receive_maximum ∷ topic_alias_maximum ∷ topic_alias ∷ [])
    then allocate (heap 0) ps (built identifier (i16 value) [])
    else err inval

unfoldable pub add_int32 : Proplist → ℕ → ℕ → Heap → Result (List Property)
add_int32 none identifier value heap = err inval
add_int32 (some ps) identifier value heap =
    if one_of identifier (
      message_expiry_interval ∷ session_expiry_interval ∷ will_delay_interval ∷ maximum_packet_size
      ∷ [])
    then allocate (heap 0) ps (built identifier (i32 value) [])
    else err inval

unfoldable pub add_varint : Proplist → ℕ → ℕ → Heap → Result (List Property)
add_varint none identifier value heap = err inval
add_varint (some ps) identifier value heap =
    if ltb 268435455 value
    then err inval
    else if identifier == subscription_identifier
    then allocate (heap 0) ps (built identifier (varint value) [])
    else err inval

-- `value` and `len`: the data is copied unless it is empty.
unfoldable pub add_binary : Proplist → ℕ → List ℕ → Heap → Result (List Property)
add_binary none identifier value heap = err inval
add_binary (some ps) identifier value heap =
    if one_of identifier (correlation_data ∷ authentication_data ∷ [])
    then (if heap 0
        then (if length value == 0
            then ok (add ps (built identifier (bin []) []))
            else allocate (heap 1) ps (built identifier (bin value) []))
        else err nomem)
    else err inval

-- The string as it is stored: `len` is cut to a uint16_t.
abbrev pub stored : List ℕ → List ℕ
stored value = take (u16 (length value)) value

-- `if(dimq_validate_utf8(value, len)) return dimq_ERR_MALFORMED_UTF8;`
abbrev pub unless_valid : Status → Result (List Property) → Result (List Property)
unless_valid (ok _) rest = rest
unless_valid (err _) rest = err malformed_utf8
unless_valid fault rest = fault

abbrev pub string_identifiers : List ℕ
string_identifiers =
    content_type ∷ response_topic ∷ assigned_client_identifier ∷ authentication_method
    ∷ response_information ∷ server_reference ∷ reason_string ∷ []

unfoldable pub add_string : Proplist → ℕ → Option (List ℕ) → Heap → Result (List Property)
add_string none identifier value heap = err inval
add_string (some ps) identifier none heap =
    if one_of identifier string_identifiers
    then allocate (heap 0) ps (built identifier (str []) [])
    else err inval
add_string (some ps) identifier (some value) heap =
    unless_valid (validate_utf8 (some (value ++ 0 ∷ [])) (length value)) (
      if one_of identifier string_identifiers
      then (if heap 0
          then (if ltb 0 (length value)
              then allocate (heap 1) ps (built identifier (str (stored value)) [])
              else ok (add ps (built identifier (str []) [])))
          else err nomem)
      else err inval)

-- A text with the length that is passed for it; NULL is not checked.
abbrev pub check_text : Option (List ℕ) → ℕ → Result (List Property) → Result (List Property)
check_text none len rest = rest
check_text (some text) len rest = unless_valid (validate_utf8 (some (text ++ 0 ∷ [])) len) rest

-- `dimq__strdup`, unless the string is NULL
abbrev pub copied : Option (List ℕ) → Bool → Bool
copied none answer = true
copied (some text) answer = answer

abbrev pub text_of : Option (List ℕ) → List ℕ
text_of none = []
text_of (some text) = stored text

abbrev pub text_length : Option (List ℕ) → ℕ
text_length none = 0
text_length (some text) = length text

abbrev pub next_answer : Option (List ℕ) → ℕ → ℕ
next_answer none i = i
next_answer (some text) i = i + 1

-- `slen_value` is 0 where the value is checked: it is never set.
unfoldable pub add_string_pair :
    Proplist → ℕ → Option (List ℕ) → Option (List ℕ) → Heap → Result (List Property)
add_string_pair none identifier name value heap = err inval
add_string_pair (some ps) identifier name value heap =
    if identifier == user_property
    then check_text name (text_length name) (
        check_text value 0 (
          if heap 0
          then (if copied name (heap 1)
              then (if copied value (heap (next_answer name 1))
                  then ok (add ps (built identifier (str (text_of value)) (text_of name)))
                  else err nomem)
              else err nomem)
          else err nomem))
    else err inval

-- `property__get_property`: the property, and what `next` of it points to.
unfoldable pub get_property : List Property → ℕ → Bool → Option (Property × List Property)
get_property [] identifier skip_first = none
get_property (p ∷ ps) identifier skip_first =
    let first = get_property ps identifier skip_first in
    let later = get_property ps identifier false in
    if p.identifier == identifier then (if skip_first then later else some (p, ps)) else first
