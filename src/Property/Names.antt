-- ===== src/Property/Names.antt =====
-- The names of the properties: `dimq_property_identifier_to_string` and `dimq_string_to_property_info`,
-- with `enum mqtt5_property_type` of include/mqtt_protocol.h. Texts are lists of bytes, NULL is `none`.
use dimq.Property.Ids.{
  assigned_client_identifier, authentication_data, authentication_method, content_type,
  correlation_data, maximum_packet_size, maximum_qos, message_expiry_interval,
  payload_format_indicator, reason_string, receive_maximum, request_problem_information,
  request_response_information, response_information, response_topic, retain_available,
  server_keep_alive, server_reference, session_expiry_interval, shared_sub_available,
  subscription_id_available, subscription_identifier, topic_alias, topic_alias_maximum,
  user_property, wildcard_sub_available, will_delay_interval,
}
use dimq.Prelude.{
  ℕ, ◌+◌, ◌==◌, Bool, true, false, ◌&&◌, leb, List, [], ◌∷◌, Option, none, some, if◌then◌else◌,
}
use dimq.Result.{Result, ok, err, inval}
use Prim.Native.String.{String}
use Prim.Native.Char.{code}

-- The bytes of a text in ASCII.
abbrev pub codes : String → List ℕ
codes String.[] = []
codes (String.◌∷◌ c s) = code c ∷ codes s

-- `tolower` in the C locale
abbrev pub lower : ℕ → ℕ
lower c = if leb 65 c && leb c 90 then c + 32 else c

-- `!strcasecmp(s, t)`
unfoldable pub same_name : List ℕ → List ℕ → Bool
same_name [] [] = true
same_name [] (d ∷ t) = false
same_name (c ∷ s) [] = false
same_name (c ∷ s) (d ∷ t) = lower c == lower d && same_name s t

abbrev pub type_byte : ℕ
type_byte = 1

abbrev pub type_int16 : ℕ
type_int16 = 2

abbrev pub type_int32 : ℕ
type_int32 = 3

abbrev pub type_varint : ℕ
type_varint = 4

abbrev pub type_binary : ℕ
type_binary = 5

abbrev pub type_string : ℕ
type_string = 6

abbrev pub type_string_pair : ℕ
type_string_pair = 7

unfoldable pub identifier_to_string : ℕ → Option (List ℕ)
identifier_to_string n =
    if n == payload_format_indicator
    then some (codes "payload-format-indicator")
    else if n == message_expiry_interval
    then some (codes "message-expiry-interval")
    else if n == content_type
    then some (codes "content-type")
    else if n == response_topic
    then some (codes "response-topic")
    else if n == correlation_data
    then some (codes "correlation-data")
    else if n == subscription_identifier
    then some (codes "subscription-identifier")
    else if n == session_expiry_interval
    then some (codes "session-expiry-interval")
    else if n == assigned_client_identifier
    then some (codes "assigned-client-identifier")
    else if n == server_keep_alive
    then some (codes "server-keep-alive")
    else if n == authentication_method
    then some (codes "authentication-method")
    else if n == authentication_data
    then some (codes "authentication-data")
    else if n == request_problem_information
    then some (codes "request-problem-information")
    else if n == will_delay_interval
    then some (codes "will-delay-interval")
    else if n == request_response_information
    then some (codes "request-response-information")
    else if n == response_information
    then some (codes "response-information")
    else if n == server_reference
    then some (codes "server-reference")
    else if n == reason_string
    then some (codes "reason-string")
    else if n == receive_maximum
    then some (codes "receive-maximum")
    else if n == topic_alias_maximum
    then some (codes "topic-alias-maximum")
    else if n == topic_alias
    then some (codes "topic-alias")
    else if n == maximum_qos
    then some (codes "maximum-qos")
    else if n == retain_available
    then some (codes "retain-available")
    else if n == user_property
    then some (codes "user-property")
    else if n == maximum_packet_size
    then some (codes "maximum-packet-size")
    else if n == wildcard_sub_available
    then some (codes "wildcard-subscription-available")
    else if n == subscription_id_available
    then some (codes "subscription-identifier-available")
    else if n == shared_sub_available
    then some (codes "shared-subscription-available")
    else none

unfoldable pub string_to_property_info : Option (List ℕ) → Result (ℕ × ℕ)
string_to_property_info none = err inval
string_to_property_info (some propname) =
    if same_name propname (codes "payload-format-indicator")
    then ok (payload_format_indicator, type_byte)
    else if same_name propname (codes "message-expiry-interval")
    then ok (message_expiry_interval, type_int32)
    else if same_name propname (codes "content-type")
    then ok (content_type, type_string)
    else if same_name propname (codes "response-topic")
    then ok (response_topic, type_string)
    else if same_name propname (codes "correlation-data")
    then ok (correlation_data, type_binary)
    else if same_name propname (codes "subscription-identifier")
    then ok (subscription_identifier, type_varint)
    else if same_name propname (codes "session-expiry-interval")
    then ok (session_expiry_interval, type_int32)
    else if same_name propname (codes "assigned-client-identifier")
    then ok (assigned_client_identifier, type_string)
    else if same_name propname (codes "server-keep-alive")
    then ok (server_keep_alive, type_int16)
    else if same_name propname (codes "authentication-method")
    then ok (authentication_method, type_string)
    else if same_name propname (codes "authentication-data")
    then ok (authentication_data, type_binary)
    else if same_name propname (codes "request-problem-information")
    then ok (request_problem_information, type_byte)
    else if same_name propname (codes "will-delay-interval")
    then ok (will_delay_interval, type_int32)
    else if same_name propname (codes "request-response-information")
    then ok (request_response_information, type_byte)
    else if same_name propname (codes "response-information")
    then ok (response_information, type_string)
    else if same_name propname (codes "server-reference")
    then ok (server_reference, type_string)
    else if same_name propname (codes "reason-string")
    then ok (reason_string, type_string)
    else if same_name propname (codes "receive-maximum")
    then ok (receive_maximum, type_int16)
    else if same_name propname (codes "topic-alias-maximum")
    then ok (topic_alias_maximum, type_int16)
    else if same_name propname (codes "topic-alias")
    then ok (topic_alias, type_int16)
    else if same_name propname (codes "maximum-qos")
    then ok (maximum_qos, type_byte)
    else if same_name propname (codes "retain-available")
    then ok (retain_available, type_byte)
    else if same_name propname (codes "user-property")
    then ok (user_property, type_string_pair)
    else if same_name propname (codes "maximum-packet-size")
    then ok (maximum_packet_size, type_int32)
    else if same_name propname (codes "wildcard-subscription-available")
    then ok (wildcard_sub_available, type_byte)
    else if same_name propname (codes "subscription-identifier-available")
    then ok (subscription_id_available, type_byte)
    else if same_name propname (codes "shared-subscription-available")
    then ok (shared_sub_available, type_byte)
    else err inval
