-- ===== src/Lib.antt =====
-- cIRC, an IRC server in C. A client's bytes go through these parts:
--
-- * `Conn_ReadStoreBuffer` (src/connection.c) reads into a connection's store of 512 bytes, and
--   `conn_read_message` (src/read_message.c) takes one message out of it: Connection, ReadMessage.
--   The older `read_message`, which unit tests call, reads from a descriptor itself: FdReader.
-- * `msgtok_r` (src/msgtok.c) cuts tokens out of the message in place, and `parse_message`
--   (src/parser.c) fills the message struct of include/irc.h. Msgtok, Irc, Parser.
-- * `Handler_HandleMessage` (src/handlers.c) runs the handler of the command on the state: the
--   server (src/server.c, include/server.h), the clients (src/client.c, include/client.h) and the
--   channels (src/channel.c, include/channel.h). World holds the state, Server, Client and Channel
--   the operations, and Handlers the handlers.
-- * The replies (src/replies.c, include/replies.h) are put in the queue of the client, and
--   `Client_TryEmptyBuffer` writes them. Replies, Sending.
-- * `Client_HandleRead` (src/client.c) is the loop over the messages of one read: HandleRead. The
--   events that the reactor hands on, and the states that they lead to, are in Serving.
-- * src/hashtable.c is a table with open addressing, beside the server, which uses GLib's tables:
--   Hashtable. src/reactor.c, src/config.c, src/log.c and src/vector.c are Reactor, Config, Log and
--   Vector.
-- * `main` (src/circ.c) reads the configuration and calls `start_server` (src/server.c), which reads
--   the message of the day (src/motd.c) and opens the socket (src/socket.c): Startup, Motd, Socket.
--
-- Representation. A buffer is a list of bytes, a pointer into it an index, and NULL is `none`. A
-- string ends at the first 0 or with its buffer. `GHashTable` and `GQueue` are GLib's: their
-- operations and the laws that GLib documents are the record `Glib`, an instance argument of all
-- that uses them, and Tests.Tables instantiates it with lists. The order in which a table is
-- iterated is left open. Pointers to clients and channels are indices into a heap, so that two
-- tables may point to the same struct. A run of a handler ends with a value and a state, or it
-- crashes: a read through NULL or a freed struct, a copy into an array that is too small, or an
-- unbounded `sprintf` of more than 513 bytes. The counters of the server wrap at 32 bits; the ids
-- of clients are not bounded. What is logged is left out. The calls of `write` and `close` are
-- kept in two logs, with their arguments: of `write` the descriptor, the text in the array and
-- the length, which for a text that `snprintf` has cut is more than the array holds. A step may
-- be a read for any client, also for one whose descriptor was closed, so the states reached by
-- steps are more than those of the server.
--
-- Bounds. The loop of `conn_read_message` runs two rounds, and more give the same result
-- (ReadMessage.Bounds). The loop of `Client_HandleRead` runs 258 rounds, and more give the
-- same result where `read` delivers no more than it is asked for: each message takes at least
-- two of at most 512 bytes out of the store (Buffers). The loops of the hash table run for a
-- number of rounds that is an argument; as many as there are slots are enough to insert and to
-- search (Hashtable.Ends, Hashtable.Searching), while the loop of `hashtable_remove` may not
-- end. Its sizes and hashes wrap at 64 bits. `Client_TryEmptyBuffer` runs one round for each
-- element of the queue. `read_message` needs two rounds more than there are inputs
-- (FdReader.Bounds). Decimal numbers have at most ten digits.
--
-- Not modelled: include/list.h and include/circlist.h, which nothing uses. What epoll,
-- `getopt`, `strtol`, `read`, the calls on a socket and those of <stdio.h> give are arguments.
--
-- Files. Base has the shared names: lists, strings and Boolean tests on native numbers.
-- Msgtok.Tokens, Msgtok.Line and Msgtok.Message, Parser.Encode, Parser.Commands and
-- Parser.Bounds, ReadMessage.Rounds, ReadMessage.Bounds and ReadMessage.Lines hold the proofs
-- about the bytes of a message. Client.Nicknames, Client.Registration, Server.Names,
-- Channel.Members, Sending.Draining, Handlers.Fragments, Log.Levels, Config.Options,
-- Vector.Pushes and Reactor.Dispatch are about single operations; Sending.Delivery,
-- Channel.Delivery and Handlers.Delivery about who gets a message. World.Keeps has the rules
-- for invariants of runs, World.Leads those for runs from one condition to another, and
-- World.Runs equations of runs. Frame has what each handler keeps, for any invariant that
-- allows certain operations; it is used for the invariants of all states that the server
-- reaches: Registry is about nicknames and clients, Directory about channels and their members,
-- Buffers about the store buffers, and Flushing about the queues of responses. Relaying puts
-- the parts together, from a read to the writes that it leads to. Membership compares JOIN and
-- PART with a relation of who is in which channel, and Closing is about connections that were
-- closed. Hashtable.Map has the table as a map, Hashtable.Counters its counters, Hashtable.Values what becomes of the
-- values, and Hashtable.Uses what holds of every table. Tests has sessions on the list tables
-- and the theorems at concrete inputs.
pub mod Base
pub mod Msgtok
pub mod Irc
pub mod Parser
pub mod Glib
pub mod Connection
pub mod World
pub mod Replies
pub mod Sending
pub mod Channel
pub mod Server
pub mod Client
pub mod Handlers
pub mod Hashtable
pub mod Log
pub mod Reactor
pub mod Config
pub mod Vector
pub mod Motd
pub mod Socket
pub mod Startup
pub mod ReadMessage
pub mod FdReader
pub mod HandleRead
pub mod Serving
pub mod Frame
pub mod Flushing
pub mod Directory
pub mod Relaying
pub mod Membership
pub mod Closing
pub mod Buffers
pub mod Registry
pub mod Tests
