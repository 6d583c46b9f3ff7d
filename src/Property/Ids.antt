-- ===== src/Property/Ids.antt =====
-- The values of `enum mqtt5_property` and the commands of include/mqtt_protocol.h.
use dimq.Prelude.{ℕ, ◌==◌, ◌||◌, Bool, false, List, [], ◌∷◌}

abbrev pub payload_format_indicator : ℕ
payload_format_indicator = 1

abbrev pub message_expiry_interval : ℕ
message_expiry_interval = 2

abbrev pub content_type : ℕ
content_type = 3

abbrev pub response_topic : ℕ
response_topic = 8

abbrev pub correlation_data : ℕ
correlation_data = 9

abbrev pub subscription_identifier : ℕ
subscription_identifier = 11

abbrev pub session_expiry_interval : ℕ
session_expiry_interval = 17

abbrev pub assigned_client_identifier : ℕ
assigned_client_identifier = 18

abbrev pub server_keep_alive : ℕ
server_keep_alive = 19

abbrev pub authentication_method : ℕ
authentication_method = 21

abbrev pub authentication_data : ℕ
authentication_data = 22

abbrev pub request_problem_information : ℕ
request_problem_information = 23

abbrev pub will_delay_interval : ℕ
will_delay_interval = 24

abbrev pub request_response_information : ℕ
request_response_information = 25

abbrev pub response_information : ℕ
response_information = 26

abbrev pub server_reference : ℕ
server_reference = 28

abbrev pub reason_string : ℕ
reason_string = 31

abbrev pub receive_maximum : ℕ
receive_maximum = 33

abbrev pub topic_alias_maximum : ℕ
topic_alias_maximum = 34

abbrev pub topic_alias : ℕ
topic_alias = 35

abbrev pub maximum_qos : ℕ
maximum_qos = 36

abbrev pub retain_available : ℕ
retain_available = 37

abbrev pub user_property : ℕ
user_property = 38

abbrev pub maximum_packet_size : ℕ
maximum_packet_size = 39

abbrev pub wildcard_sub_available : ℕ
wildcard_sub_available = 40

abbrev pub subscription_id_available : ℕ
subscription_id_available = 41

abbrev pub shared_sub_available : ℕ
shared_sub_available = 42

-- `case A: case B: …`, and the tests `x == A || x == B …`
abbrev pub one_of : ℕ → List ℕ → Bool
one_of x [] = false
one_of x (c ∷ cs) = x == c || one_of x cs

abbrev pub cmd_connect : ℕ
cmd_connect = 0x10

abbrev pub cmd_connack : ℕ
cmd_connack = 0x20

abbrev pub cmd_publish : ℕ
cmd_publish = 0x30

abbrev pub cmd_subscribe : ℕ
cmd_subscribe = 0x80

abbrev pub cmd_unsubscribe : ℕ
cmd_unsubscribe = 0xA0

abbrev pub cmd_disconnect : ℕ
cmd_disconnect = 0xE0

abbrev pub cmd_auth : ℕ
cmd_auth = 0xF0

abbrev pub cmd_will : ℕ
cmd_will = 0x100
