-- ===== src/Lib.antt =====
-- magicMqtt, an MQTT 3.1.1 broker in Go.
--
-- A connection's bytes are parsed into packets (encoding/), whose handlers (server/) keep a session
-- for every client (sessions/, with the table of unconfirmed publications of common/) and file
-- subscriptions and retained messages with the topic provider (topics/). What the connections share
-- is the board of blackboard/; a client that connects is asked for by auth/. The engine of core/
-- fills the board from its settings and starts and stops the listener.
--
-- Encoding.Varint is encoding/helper.go: `read_varint` is ReadVarint, `write_varint` WriteVarint.
-- Encoding.PType holds the packet types of encoding/constants.go, Encoding.Header is
-- encoding/message/fixedheader.go: `header_write_to` is writeTo, `header_decode` is decode.
-- Packet.X is the file encoding/message/x.go of the packet type X, with `decode` and `write_to` for
-- its methods and `spawn` for its constructor in mqtt.go; Packet.Connect holds will.go too. Message
-- is message.go with Parse and WriteMessageTo of mqtt.go (`parse`, `write_message_to`).
-- Encoding.Stream has what these use of a reader and a writer. A reader is the list of bytes that
-- it will still give; a decoder answers a result and what is left, and a result is a value, an
-- error, a panic, or `stuck`, which is no Go value: the model ran out of fuel. A writer is the list
-- of bytes written, and never fails. `binary.Read` at the end of a stream leaves its variable as it
-- was. How many bytes one call of Read hands over, and the spare capacity of the buffer of a
-- CONNECT, are left to the runtime: a parameter, the record `Runtime`.
--
-- Topics.Level is nextTopicLevel of topics/memtopics.go, Topics.Levels calls it on a whole topic.
-- Topics.Trie is the shape that snode and rnode share; Topics.Subscription has the methods of snode
-- (`sinsert`, `sremove`, `smatch`, `match_qos`), Topics.Retained those of rnode, Topics.Value the
-- subscribers and equal, and Topics.Memory the methods of memTopics, which topics/topics.go passes
-- on; Topics.Registry is the map of providers, and Topics.Manager is Manager, over a provider that
-- may have been closed. The map of a node is the list of its entries in the order of a walk over
-- it; Go walks in any order, so a statement about an order is about the order of that walk. A table
-- that gives the subscribers at every list of levels (`subs_at`) is the abstract view of the tree,
-- and a topic filter is related to the topics that it matches by `Matches`; the tree of retained
-- messages has such a table too (`message_at`).
--
-- Common.MessageTable is common/msgtable.go, Sessions.Session is sessions/session.go,
-- Sessions.Group is sessions/group.go, with the sessions on a heap; Sessions.StringMap has their
-- maps. The functions that a session is given are methods of a connection, so a session keeps the
-- connection, of a type that is a parameter, and the method that calls one answers whose method is
-- called. Every method is one step; those that take the mutex are so for each other.
--
-- Server is server/ with blackboard/. Server.State has the board and the connections: sessions,
-- subscriptions and connections are on heaps, named by numbers, and every session has a lock.
-- Server.Action is the way a goroutine works on that state: a stretch returns, panics, or is
-- `blocked` where it waits for ever, for what only itself could give, such as a lock that it holds,
-- or for room in a channel that nobody receives from. `on_session` and `update_session` are methods
-- of a session that take its lock, `with_session` and `change_session` those that do not
-- (RegisterMessage, UnRefMessage, WithClientID); `session_write` is WriteMessage, which holds the
-- lock while it sends to the connection.
-- Server.Publish, Connect, Subscribe, Close, Dispatch and Writer are the methods of
-- server/conBroker.go and the two goroutines of server/handler.go, under the methods' names
-- (`on_connect` is onConnect). Server.Step puts them together: an event is an accepted connection,
-- a turn of the goroutine that reads or of the one that writes, the timer, or a turn of a Close
-- that waits for messages; `Reached` is any sequence of them, of any number of connections. A
-- stretch between two events is one step, so two goroutines of Go that interleave inside one are
-- not told apart from one behind the other. A send on a full queue is blocked where neither the
-- goroutine that writes nor the loop of Close receives from it. Where one does, the send waits for
-- room: the queue holds what waits too, and the sender goes on, so a run in which the receiver ends
-- while a sender waits is not told apart from one in which it ends later. The statements that a
-- handler returns are about queues with room for all that it sends, where no send waits. A lock
-- that is taken between two events belongs to a goroutine that is blocked.
--
-- Server.Serve is the loop of Serve in server/tcpBroker.go, over a list of what the calls of Accept
-- give, and Server.Listener is network/listener.go. Server.Tcp is TCPBroker: `listen_and_serve` is
-- ListenAndServe, `loop_turn` and `wait_turn` are the turns of the goroutine of Serve,
-- `tcp_shutdown` is Shutdown up to its wait; `Running` is any interleaving of them with the ends of
-- connections. The package net is a parameter, the record `Net`.
--
-- Auth is auth/: `mysql_connect` is Connect of auth/authdb/authMysql.go and `mock_connect` that of
-- auth/mock.go. The query of the database and the cache are parameters, the record `Outside`; what
-- a cache keeps to is the record `IsCache`. Auth.New has New, Init, Setup and ACL, with files and
-- the database as parameters, the record `Files`. Core is Engine of core/engine.go: `start` is
-- Start, `shutdown` is Shutdown; what it calls outside is the record `System`, and what the
-- goroutines do to the broker while Shutdown waits is an argument.
--
-- Fuel: the loops of ReadVarint and WriteVarint have four rounds. Splitting a topic has the topic's
-- length for fuel, and each level takes a byte at least. The payload loops have the remaining
-- length, of which each round takes some, and the loop of Publish.decode has it too, since a Read
-- that does not fail hands over a byte at least.
--
-- Not modelled: the String methods, which build log text; the log, the identifiers and addresses of
-- connections, the deadlines and buffers of sockets; the locks of the topic provider, of which each
-- method is one step; the decoding of JSON, the watch for signals and the sockets, which are
-- libraries'; and vendor/, an outside library. Numbers of 64 bits, which lengths do not reach, do
-- not wrap around.
pub mod Prelude
pub mod Encoding
pub mod Packet
pub mod Message
pub mod Topics
pub mod Common
pub mod Sessions
pub mod Server
pub mod Auth
pub mod Core
pub mod Tests
