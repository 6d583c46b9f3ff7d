-- ===== src/Property/Kinds.antt =====
-- The property itself, and which member of its union each `switch` of lib/property_dimq.c takes.
use dimq.Property.Ids.{
  user_property, reason_string, server_reference, response_information, authentication_method,
  assigned_client_identifier, response_topic, authentication_data, correlation_data, content_type,
  subscription_identifier, maximum_packet_size, will_delay_interval, session_expiry_interval,
  message_expiry_interval, topic_alias, topic_alias_maximum, receive_maximum, server_keep_alive,
  shared_sub_available, subscription_id_available, wildcard_sub_available, retain_available,
  maximum_qos, request_response_information, request_problem_information, payload_format_indicator,
  one_of,
}
use dimq.Prelude.{ℕ, Bool, List, [], ◌∷◌, if◌then◌else◌}

-- `union value`, with the member that was set last. `none_set` is the state after `memset`.
pub data Value : Type 0 where
  none_set : Value
  i8 : ℕ → Value
  i16 : ℕ → Value
  i32 : ℕ → Value
  varint : ℕ → Value
  bin : List ℕ → Value
  str : List ℕ → Value

-- Text and binary data are lists of bytes; their `len` is the length.
pub record Property : Type 0 where
  pub identifier : ℕ
  pub value : Value
  pub name : List ℕ
  pub client_generated : Bool

-- What a `switch` on the identifier goes on to do.
pub data Kind : Type 0 where
  byte two_bytes four_bytes variable text binary text_pair unsupported : Kind

unfoldable pub read_kind : ℕ → Kind
read_kind n =
    if one_of n (
      payload_format_indicator ∷ request_problem_information ∷ request_response_information
      ∷ maximum_qos ∷ retain_available ∷ wildcard_sub_available ∷ subscription_id_available
      ∷ shared_sub_available ∷ [])
    then byte
    else if one_of n (server_keep_alive ∷ receive_maximum ∷ topic_alias_maximum ∷ topic_alias ∷ [])
    then two_bytes
    else if one_of n (
        message_expiry_interval ∷ session_expiry_interval ∷ will_delay_interval
        ∷ maximum_packet_size ∷ [])
    then four_bytes
    else if one_of n (subscription_identifier ∷ [])
    then variable
    else if one_of n (
        content_type ∷ response_topic ∷ assigned_client_identifier ∷ authentication_method
        ∷ response_information ∷ server_reference ∷ reason_string ∷ [])
    then text
    else if one_of n (authentication_data ∷ correlation_data ∷ [])
    then binary
    else if one_of n (user_property ∷ [])
    then text_pair
    else unsupported

unfoldable pub length_kind : ℕ → Kind
length_kind n =
    if one_of n (
      payload_format_indicator ∷ request_problem_information ∷ request_response_information
      ∷ maximum_qos ∷ retain_available ∷ wildcard_sub_available ∷ subscription_id_available
      ∷ shared_sub_available ∷ [])
    then byte
    else if one_of n (server_keep_alive ∷ receive_maximum ∷ topic_alias_maximum ∷ topic_alias ∷ [])
    then two_bytes
    else if one_of n (
        message_expiry_interval ∷ will_delay_interval ∷ maximum_packet_size
        ∷ session_expiry_interval ∷ [])
    then four_bytes
    else if one_of n (subscription_identifier ∷ [])
    then variable
    else if one_of n (correlation_data ∷ authentication_data ∷ [])
    then binary
    else if one_of n (
        content_type ∷ response_topic ∷ assigned_client_identifier ∷ authentication_method
        ∷ response_information ∷ server_reference ∷ reason_string ∷ [])
    then text
    else if one_of n (user_property ∷ [])
    then text_pair
    else unsupported

unfoldable pub write_kind : ℕ → Kind
write_kind n =
    if one_of n (
      payload_format_indicator ∷ request_problem_information ∷ request_response_information
      ∷ maximum_qos ∷ retain_available ∷ wildcard_sub_available ∷ subscription_id_available
      ∷ shared_sub_available ∷ [])
    then byte
    else if one_of n (server_keep_alive ∷ receive_maximum ∷ topic_alias_maximum ∷ topic_alias ∷ [])
    then two_bytes
    else if one_of n (
        message_expiry_interval ∷ session_expiry_interval ∷ will_delay_interval
        ∷ maximum_packet_size ∷ [])
    then four_bytes
    else if one_of n (subscription_identifier ∷ [])
    then variable
    else if one_of n (
        content_type ∷ response_topic ∷ assigned_client_identifier ∷ authentication_method
        ∷ response_information ∷ server_reference ∷ reason_string ∷ [])
    then text
    else if one_of n (authentication_data ∷ correlation_data ∷ [])
    then binary
    else if one_of n (user_property ∷ [])
    then text_pair
    else unsupported
