-- ===== src/Property/Named.antt =====
-- Names and numbers of properties are inverse, and the types agree with what is read.
use dimq.Property.Ids.{
  payload_format_indicator, message_expiry_interval, content_type, response_topic, correlation_data,
  subscription_identifier, session_expiry_interval, assigned_client_identifier, server_keep_alive,
  authentication_method, authentication_data, request_problem_information, will_delay_interval,
  request_response_information, response_information, server_reference, reason_string,
  receive_maximum, topic_alias_maximum, topic_alias, maximum_qos, retain_available, user_property,
  maximum_packet_size, wildcard_sub_available, subscription_id_available, shared_sub_available,
  one_of,
}
use dimq.Property.Names.{
  lower, same_name, identifier_to_string, string_to_property_info, type_byte, type_int16,
  type_int32, type_varint, type_binary, type_string, type_string_pair,
}
use dimq.Property.Kinds.{
  Kind, read_kind, byte, two_bytes, four_bytes, variable, binary, text, text_pair, unsupported,
}
use dimq.Property.Commands.{AllOf, member-AllOf}
use dimq.Prelude.{ℕ, ◌≡◌, true, List, [], ◌∷◌, map, some, arith, refl}
use dimq.Result.{ok}

abbrev pub known : List ℕ
known =
    payload_format_indicator ∷ message_expiry_interval ∷ content_type ∷ response_topic
    ∷ correlation_data ∷ subscription_identifier ∷ session_expiry_interval
    ∷ assigned_client_identifier ∷ server_keep_alive ∷ authentication_method ∷ authentication_data
    ∷ request_problem_information ∷ will_delay_interval ∷ request_response_information
    ∷ response_information ∷ server_reference ∷ reason_string ∷ receive_maximum
    ∷ topic_alias_maximum ∷ topic_alias ∷ maximum_qos ∷ retain_available ∷ user_property
    ∷ maximum_packet_size ∷ wildcard_sub_available ∷ subscription_id_available
    ∷ shared_sub_available ∷ []

-- The type that the reader of properties gives to a value.
abbrev pub type_of : Kind → ℕ
type_of byte = type_byte
type_of two_bytes = type_int16
type_of four_bytes = type_int32
type_of variable = type_varint
type_of text = type_string
type_of binary = type_binary
type_of text_pair = type_string_pair
type_of unsupported = 0

-- The name of a property stands for it, with the type that it is read as.
abbrev pub Named : ℕ → Type 0
Named n =
    (s : List ℕ) × (identifier_to_string n ≡ some s)
    × (string_to_property_info (some s) ≡ ok (n, type_of (read_kind n)))

every-Named : AllOf Named known
unfolding identifier_to_string string_to_property_info same_name read_kind
every-Named = (
  (_, refl, refl),
  (
    (_, refl, refl),
    (
      (_, refl, refl),
      (
        (_, refl, refl),
        (
          (_, refl, refl),
          (
            (_, refl, refl),
            (
              (_, refl, refl),
              (
                (_, refl, refl),
                (
                  (_, refl, refl),
                  (
                    (_, refl, refl),
                    (
                      (_, refl, refl),
                      (
                        (_, refl, refl),
                        (
                          (_, refl, refl),
                          (
                            (_, refl, refl),
                            (
                              (_, refl, refl),
                              (
                                (_, refl, refl),
                                (
                                  (_, refl, refl),
                                  (
                                    (_, refl, refl),
                                    (
                                      (_, refl, refl),
                                      (
                                        (_, refl, refl),
                                        (
                                          (_, refl, refl),
                                          (
                                            (_, refl, refl),
                                            (
                                              (_, refl, refl),
                                              (
                                                (_, refl, refl),
                                                (
                                                  (_, refl, refl),
                                                  ((_, refl, refl), ((_, refl, refl), tt)),
                                                ),
                                              ),
                                            ),
                                          ),
                                        ),
                                      ),
                                    ),
                                  ),
                                ),
                              ),
                            ),
                          ),
                        ),
                      ),
                    ),
                  ),
                ),
              ),
            ),
          ),
        ),
      ),
    ),
  ),
)

-- Every identifier of `enum mqtt5_property` has a name; `dimq_string_to_property_info` maps the name
-- back to the identifier, and gives the type with which `property__read` reads the property.
pub string_to_property_info-identifier_to_string :
    (n : ℕ)
    → one_of n known ≡ true
    → (s : List ℕ) × (identifier_to_string n ≡ some s)
      × (string_to_property_info (some s) ≡ ok (n, type_of (read_kind n)))
string_to_property_info-identifier_to_string n h = member-AllOf Named known every-Named n h

same_name-lower : (s t : List ℕ) → same_name (map lower s) t ≡ same_name s t
unfolding same_name
same_name-lower [] t = refl
same_name-lower (c ∷ s) [] = refl
same_name-lower (c ∷ s) (d ∷ t) =
    let twice : lower (lower c) ≡ lower c = ground arith in rw (twice, same_name-lower s t) refl

-- `dimq_string_to_property_info` does not tell capital letters from small ones.
pub string_to_property_info-lower :
    (s : List ℕ) → string_to_property_info (some (map lower s)) ≡ string_to_property_info (some s)
unfolding string_to_property_info
string_to_property_info-lower s = simp (same_name-lower s)
