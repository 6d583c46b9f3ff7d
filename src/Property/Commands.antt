-- ===== src/Property/Commands.antt =====
-- Which properties a packet may carry, by packet, as sections 3.1 to 3.15 of the MQTT v5 standard
-- list them.
use dimq.Prelude.{
  inr, ==_iff, sym, subst, inl, Bool-cases, ℕ, true, ◌≡◌, ◌↔◌, List, [], ◌∷◌, arith, if◌then◌else◌,
  ◌==◌, ◌≢◌,
}
use dimq.Property.Ids.{
  payload_format_indicator, message_expiry_interval, content_type, response_topic, correlation_data,
  subscription_identifier, session_expiry_interval, assigned_client_identifier, server_keep_alive,
  authentication_method, authentication_data, request_problem_information, will_delay_interval,
  request_response_information, response_information, server_reference, reason_string,
  receive_maximum, topic_alias_maximum, topic_alias, maximum_qos, retain_available, user_property,
  maximum_packet_size, wildcard_sub_available, subscription_id_available, shared_sub_available,
  cmd_connect, cmd_connack, cmd_publish, cmd_subscribe, cmd_unsubscribe, cmd_disconnect, cmd_auth,
  cmd_will, one_of,
}
use dimq.Property.Check.{check_command}
use dimq.Result.{success}

-- The packets that answer: PUBACK, PUBREC, PUBREL, PUBCOMP, SUBACK and UNSUBACK.
abbrev pub answers : List ℕ
answers = 0x40 ∷ 0x50 ∷ 0x60 ∷ 0x70 ∷ 0x90 ∷ 0xB0 ∷ []

abbrev pub carried : ℕ → List ℕ
carried command =
    if command == cmd_connect
    then session_expiry_interval ∷ receive_maximum ∷ maximum_packet_size ∷ topic_alias_maximum
      ∷ request_response_information ∷ request_problem_information ∷ user_property
      ∷ authentication_method ∷ authentication_data ∷ []
    else if command == cmd_will
    then will_delay_interval ∷ payload_format_indicator ∷ message_expiry_interval ∷ content_type
      ∷ response_topic ∷ correlation_data ∷ user_property ∷ []
    else if command == cmd_connack
    then session_expiry_interval ∷ receive_maximum ∷ maximum_qos ∷ retain_available
      ∷ maximum_packet_size ∷ assigned_client_identifier ∷ topic_alias_maximum ∷ reason_string
      ∷ user_property ∷ wildcard_sub_available ∷ subscription_id_available ∷ shared_sub_available
      ∷ server_keep_alive ∷ response_information ∷ server_reference ∷ authentication_method
      ∷ authentication_data ∷ []
    else if command == cmd_publish
    then payload_format_indicator ∷ message_expiry_interval ∷ topic_alias ∷ response_topic
      ∷ correlation_data ∷ user_property ∷ subscription_identifier ∷ content_type ∷ []
    else if command == cmd_subscribe
    then subscription_identifier ∷ user_property ∷ []
    else if command == cmd_unsubscribe
    then user_property ∷ []
    else if command == cmd_disconnect
    then session_expiry_interval ∷ reason_string ∷ user_property ∷ server_reference ∷ []
    else if command == cmd_auth
    then authentication_method ∷ authentication_data ∷ reason_string ∷ user_property ∷ []
    else if one_of command answers
    then reason_string ∷ user_property ∷ []
    else []

abbrev pub commands : List ℕ
commands =
    cmd_connect ∷ cmd_will ∷ cmd_connack ∷ cmd_publish ∷ cmd_subscribe ∷ cmd_unsubscribe
    ∷ cmd_disconnect ∷ cmd_auth ∷ answers

abbrev Agree : ℕ → Type 0
Agree command =
    (n : ℕ)
    → n ≢ reason_string
    → (check_command command n ≡ success) ↔ (one_of n (carried command) ≡ true)

connect-Agree : Agree cmd_connect
unfolding check_command
connect-Agree n k = ground arith

will-Agree : Agree cmd_will
unfolding check_command
will-Agree n k = ground arith

connack-Agree : Agree cmd_connack
unfolding check_command
connack-Agree n k = ground arith

publish-Agree : Agree cmd_publish
unfolding check_command
publish-Agree n k = ground arith

subscribe-Agree : Agree cmd_subscribe
unfolding check_command
subscribe-Agree n k = ground arith

unsubscribe-Agree : Agree cmd_unsubscribe
unfolding check_command
unsubscribe-Agree n k = ground arith

disconnect-Agree : Agree cmd_disconnect
unfolding check_command
disconnect-Agree n k = ground arith

auth-Agree : Agree cmd_auth
unfolding check_command
auth-Agree n k = ground arith

answer_40-Agree : Agree 0x40
unfolding check_command
answer_40-Agree n k = ground arith

answer_50-Agree : Agree 0x50
unfolding check_command
answer_50-Agree n k = ground arith

answer_60-Agree : Agree 0x60
unfolding check_command
answer_60-Agree n k = ground arith

answer_70-Agree : Agree 0x70
unfolding check_command
answer_70-Agree n k = ground arith

answer_90-Agree : Agree 0x90
unfolding check_command
answer_90-Agree n k = ground arith

answer_b0-Agree : Agree 0xB0
unfolding check_command
answer_b0-Agree n k = ground arith

abbrev pub AllOf : (ℕ → Type 0) → List ℕ → Type 0
AllOf P [] = Unit
AllOf P (c ∷ cs) = P c × AllOf P cs

pub member-AllOf : (P : ℕ → Type 0) (cs : List ℕ) → AllOf P cs → (c : ℕ) → one_of c cs ≡ true → P c
member-AllOf P [] all c h = cc
member-AllOf P (d ∷ cs) all c h = elim (Bool-cases (c == d)) [
  | inl t ↦ subst P (sym ((==_iff c d).0 t)) all.0
  | inr t ↦ member-AllOf P cs all.1 c (rw t at h)
]

-- For every packet that has properties, and for the properties of a will, `dimq_property_check_command`
-- accepts an identifier, other than that of a reason string, exactly where the standard lists it.
pub check_command_iff :
    (command n : ℕ)
    → one_of command commands ≡ true
    → n ≢ reason_string
    → (check_command command n ≡ success) ↔ (one_of n (carried command) ≡ true)
check_command_iff command n h = member-AllOf Agree commands every command h n
  where
    every : AllOf Agree commands
    every = (
      connect-Agree,
      (
        will-Agree,
        (
          connack-Agree,
          (
            publish-Agree,
            (
              subscribe-Agree,
              (
                unsubscribe-Agree,
                (
                  disconnect-Agree,
                  (
                    auth-Agree,
                    (
                      answer_40-Agree,
                      (
                        answer_50-Agree,
                        (
                          answer_60-Agree,
                          (answer_70-Agree, (answer_90-Agree, (answer_b0-Agree, tt))),
                        ),
                      ),
                    ),
                  ),
                ),
              ),
            ),
          ),
        ),
      ),
    )
