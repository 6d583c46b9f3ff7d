-- ===== src/Property/Check.antt =====
-- `dimq_property_check_command` and `dimq_property_check_all`.
use dimq.Property.Ids.{
  topic_alias_maximum, cmd_unsubscribe, reason_string, server_reference, will_delay_interval,
  response_information, server_keep_alive, assigned_client_identifier, cmd_auth,
  authentication_data, authentication_method, cmd_disconnect, cmd_connack, cmd_connect, topic_alias,
  session_expiry_interval, receive_maximum, cmd_subscribe, subscription_identifier,
  maximum_packet_size, shared_sub_available, cmd_will, subscription_id_available, cmd_publish,
  wildcard_sub_available, correlation_data, retain_available, response_topic, maximum_qos,
  content_type, request_response_information, message_expiry_interval, user_property,
  request_problem_information, payload_format_indicator, one_of,
}
use dimq.Prelude.{true, false, ℕ, ◌==◌, not, ltb, Bool, List, [], ◌∷◌, if◌then◌else◌}
use dimq.Property.Kinds.{i8, i32, i16, Property, Value}
use dimq.Result.{Status, success, err, fault, guard, protocol, duplicate_property, ◌>>◌}

unfoldable pub check_command : ℕ → ℕ → Status
check_command command identifier =
    if one_of identifier (
      payload_format_indicator ∷ message_expiry_interval ∷ content_type ∷ response_topic
      ∷ correlation_data ∷ [])
    then guard (one_of command (cmd_publish ∷ cmd_will ∷ [])) protocol
    else if one_of identifier (subscription_identifier ∷ [])
    then guard (one_of command (cmd_publish ∷ cmd_subscribe ∷ [])) protocol
    else if one_of identifier (session_expiry_interval ∷ [])
    then guard (one_of command (cmd_connect ∷ cmd_connack ∷ cmd_disconnect ∷ [])) protocol
    else if one_of identifier (authentication_method ∷ authentication_data ∷ [])
    then guard (one_of command (cmd_connect ∷ cmd_connack ∷ cmd_auth ∷ [])) protocol
    else if one_of identifier (
        assigned_client_identifier ∷ server_keep_alive ∷ response_information ∷ maximum_qos
        ∷ retain_available ∷ wildcard_sub_available ∷ subscription_id_available
        ∷ shared_sub_available ∷ [])
    then guard (one_of command (cmd_connack ∷ [])) protocol
    else if one_of identifier (will_delay_interval ∷ [])
    then guard (one_of command (cmd_will ∷ [])) protocol
    else if one_of identifier (request_problem_information ∷ request_response_information ∷ [])
    then guard (one_of command (cmd_connect ∷ [])) protocol
    else if one_of identifier (server_reference ∷ [])
    then guard (one_of command (cmd_connack ∷ cmd_disconnect ∷ [])) protocol
    else if one_of identifier (reason_string ∷ [])
    then guard
        (not (one_of command (cmd_connect ∷ cmd_publish ∷ cmd_subscribe ∷ cmd_unsubscribe ∷ [])))
        protocol
    else if one_of identifier (receive_maximum ∷ topic_alias_maximum ∷ maximum_packet_size ∷ [])
    then guard (one_of command (cmd_connect ∷ cmd_connack ∷ [])) protocol
    else if one_of identifier (topic_alias ∷ [])
    then guard (one_of command (cmd_publish ∷ [])) protocol
    else if one_of identifier (user_property ∷ [])
    then success
    else err protocol

abbrev pub check_i8 : Value → Status
check_i8 (i8 v) = if ltb 1 v then err protocol else success
check_i8 _ = fault

abbrev pub check_i32 : Value → Status
check_i32 (i32 v) = if v == 0 then err protocol else success
check_i32 _ = fault

abbrev pub check_i16 : Value → Status
check_i16 (i16 v) = if v == 0 then err protocol else success
check_i16 _ = fault

-- The validity checks on the value. Reading a member of the union that was not set is a `fault`.
unfoldable pub check_value : Property → Status
check_value p =
    if one_of p.identifier (
      request_problem_information ∷ payload_format_indicator ∷ request_response_information
      ∷ maximum_qos ∷ retain_available ∷ wildcard_sub_available ∷ subscription_id_available
      ∷ shared_sub_available ∷ [])
    then check_i8 p.value
    else if one_of p.identifier (maximum_packet_size ∷ [])
    then check_i32 p.value
    else if one_of p.identifier (receive_maximum ∷ topic_alias ∷ [])
    then check_i16 p.value
    else success

-- `while(tail)`: is there a later property with this identifier?
unfoldable pub has_identifier : ℕ → List Property → Bool
has_identifier n [] = false
has_identifier n (p ∷ ps) = if n == p.identifier then true else has_identifier n ps

abbrev pub check_duplicate : Property → List Property → Status
check_duplicate p ps =
    if p.identifier == user_property
    then success
    else if has_identifier p.identifier ps
    then err duplicate_property
    else success

unfoldable pub check_all : ℕ → List Property → Status
unfolding check_value check_command has_identifier
check_all command [] = success
check_all command (p ∷ ps) =
    let rest = check_all command ps in
    do check_value p; check_command command p.identifier; check_duplicate p ps; rest
