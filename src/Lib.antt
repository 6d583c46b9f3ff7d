-- ===== src/Lib.antt =====
-- A model of DimQ, an MQTT 5.0, 3.1.1 and 3.1 broker and client library in C, and what is proved of it.
--
-- The library (lib/) and the broker (src/) share the codec of control packets: the framing layer
-- hands a packet with its payload to a handler, the handler reads fields with lib/packet_datatypes.c,
-- which validates text with lib/utf8_dimq.c, and property lists with lib/property_dimq.c, which is
-- made of the same readers; what is sent is measured first and then written with the writers of the
-- same files. Both check topics with lib/util_topic.c. The broker keeps the subscriptions in a tree
-- whose levels are those of the filters, and looks up the subscribers of a topic in it. The client keeps
-- what it sent with QoS 1 or 2 until it is acknowledged, and no more in flight than the quota allows.
-- The broker keeps each message once, with a count of the references from the lists of its clients, and
-- limits what is in flight to a client. Modelled are the framing, the codec, the topics, the tree, the
-- client's queue, the broker's messages, and the lists of sessions and wills that are due:
--
--   Result     include/dimq.h, the error codes, and a result with a `fault`
--   Word       the masks and shifts of unsigned C types
--   Utf8       lib/utf8_dimq.c, dimq_validate_utf8
--   Packet     lib/packet_datatypes.c, packet__read_* and packet__write_*, on struct dimq__packet of
--              lib/dimq_internal.h
--   Property   lib/property_dimq.c: property__read_all, property__write_all, the lengths, the
--              checks of dimq_property_check_all, dimq_property_add_*, dimq_property_read_* and
--              the names of properties
--   Topic      lib/util_topic.c, the checks dimq_pub_topic_check, dimq_sub_topic_check and their
--              variants with a length; Topic/Match is dimq_topic_matches_sub2, Topic/Levels the
--              relation of matching
--   Subs       src/subs.c: the tree of struct dimq__subhier; Subs/Tokens is src/topic_tok.c,
--              Subs/Search is sub__search, Subs/Join and Subs/Add are sub__add_leaf to
--              sub__add_context, Subs/Broker is sub__add and the lookup of sub__messages_queue,
--              Subs/Remove is sub__remove_recurse for plain subscriptions
--   Messages   lib/messages_dimq.c, with the quotas and dimq__mid_generate of lib/util_dimq.c and the
--              end of handle__pubackcomp of lib/handle_pubackcomp.c; Messages/Queue has what
--              handle__connack of lib/handle_connack.c does to msgs_out
--   Alias      lib/alias_dimq.c: the topic aliases of a connection
--   Database   src/database.c: the limits; Database/Store is the store of messages, Database/Send what
--              writes the messages in flight, Database/Out what acknowledgements do, the queue and
--              db__messages_delete, Database/Insert is db__message_insert, Database/Reset what a
--              reconnection does, Database/Incoming the messages that come from the client
--   Frame      lib/packet_dimq.c: packet__read as the broker has it; Frame/Alloc is packet__alloc and
--              packet__check_oversize, Frame/Write is packet__queue and packet__write
--   Expiry     src/session_expiry.c and src/will_delay.c: the clients whose session or will is due
--   Prelude    shared names, Boolean tests, lists
--
-- A function that changes a packet takes the packet and returns it with its result; every early
-- return is a branch. A pointer with a length is a list, NULL the empty list (where the code tells
-- NULL from empty, an option). A read or write outside an array, a failed assert, and a read of a
-- member of a union that was not set are a `fault`; in Database a read of a message that was freed is
-- `none`, and in Expiry a read of an item of the list that was freed. The allocator is a stream of
-- answers, or one answer, so that every failure of it is covered. C integers keep their width:
-- `% 2 ^ w` stands wherever the code can wrap; a time is a number. A hash table of uthash is the list
-- of its entries in the order of insertion, and a pointer to a node of the tree is its path. What
-- `subs__process` answers for a node, what `send__publish`, `send__pubrel` and `handle__packet` answer,
-- and what the socket hands over, are parameters. A pointer to a stored message is its db_id, one to
-- an item of the list of sessions is its context and a number.
--
-- Loops over a list are recursion on it. The loops on a fixed number of bytes count the rounds that are
-- left, as the code does. `read_properties` runs on fuel: every property takes at least one byte of the
-- packet, so remaining_length rounds and one for the last test are enough. `drive` of Frame/Feed calls
-- packet__read a number of times: as many calls as there are pauses, and one more, are enough.
--
-- Not modelled: what frees memory (but for the store of messages), logging, sockets, files, threads, the
-- handlers of packets and what they send, retained messages, contexts, bridges, persistence,
-- configuration, security, plugins, the connection and the API of the client, and the programs.
pub mod Alias
pub mod Database
pub mod Expiry
pub mod Frame
pub mod Messages
pub mod Packet
pub mod Prelude
pub mod Property
pub mod Result
pub mod Subs
pub mod Topic
pub mod Utf8
pub mod Word
