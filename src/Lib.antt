-- ===== src/Lib.antt =====
-- lib_zdtm_sync synchronizes a Sharp Zaurus with a desktop over TCP. The desktop side is this C library:
-- it opens a connection to the device (RAY), is called back by it, and then exchanges messages. A
-- message is a header of 13 bytes, the size of its body, a type of three letters, a content and a
-- checksum. A general message is asked for by a request (RQST) and answered by an acknowledgement (ACK).
--
-- The parts, from the bottom up, and the files that model them:
--   src/zdtm_common.c, byte order: Bytes. src/zdtm_types.[ch] and the state: Env. The content structs of
--     src/zdtm_*_msg.h: Contents. The length and write functions of the requests (src/zdtm_r*_msg.c):
--     Requests, with Requests/Rdw for the todo items of RDW; the lengths of the other items:
--     Items/Length. The parse functions of the replies (src/zdtm_a*_msg.c): Replies and its children.
--   src/zdtm_msgs.[ch]: Message (struct, union, type codes), Msgs, Msgs/Prepare, Msgs/Parse.
--   src/zdtm_log.c: Log, Log/Dump; the names that are logged: Names.
--   src/zdtm_net.c: Net (sockets), Net/Send, Net/Recv, Net/Wrapped (the exchanges).
--   src/zdtm_proto.c: Proto (connecting, and `ask`, the exchange that most operations share),
--     Proto/Session, Proto/Time, Proto/Item; the parsing of items: Items and its children.
--   src/zdtm_sync.c: Sync and its children; Sync/Calls has the public interface as a type of calls, and the
--     states that calls in any order lead to.
-- Env/Valid says which environments are well-formed. A module KeepsEnv has the functions of a component
-- that leave the environment as it is, a module Valid those that change it and keep it well-formed.
-- The wire format is described a second time, without the code: the requests in Requests/Kinds, the
-- replies in Replies/Kinds with the lists, texts and parameters in Replies/Asy/Lists, Replies/Adi/Texts
-- and Replies/Adr/Params, a frame in Net/Recv/Frame, an exchange in Proto/Talk, a handshake in
-- Sync/Handshake, and the columns of an item in Items/Columns, Items/Todo/Columns, Items/Calendar/Columns
-- and Items/Address/Columns. The proofs stand in child modules named for what they are about.
-- An operation has the name of its C function without `zdtm_` or `_zdtm_`. The state that it changes is
-- Env.State: the environment zdtm_lib_env, the world outside, and the number of blocks that malloc gave
-- and that are not freed. A call (Run) returns a value in a new state, does what C leaves undefined
-- (fault: a read or a write outside an object, a union member that was not stored), or outlives the
-- bound of the model (spin). A result code is an integer; `negsuc n` is -(n + 1).
--
-- Parameters: Platform holds the calls of the C library and of the operating system and the byte order
-- of the host, as functions on the state of the world. What is assumed of them stands in named records:
-- AllocatesExactly, NeverFull, ReadsStream, Sends, TakesAll, Undisturbed, LogsApart, Prints for the
-- texts of snprintf, Connected for a host with its device, Reachable and Clock for the calls of a handshake.
-- Tests/Host, Tests/Log, Tests/Told and Tests/Obtained have instances.
--
-- Bounds: the receive loops have the bytes to read and one rounds, which is enough because each round
-- reads a byte. The send loop has `send_rounds` of the platform; a round more than the bytes to send is
-- enough where a send takes a byte. A byte is a number; a uint16_t and a uint32_t wrap where the code
-- lets them. sizeof of the structs in arrays is that of a 64-bit host.
--
-- Not modelled: src/zdtm_export.h and src/zdtm_gentypes.h (macros), testing/ (programs run by hand),
-- the Windows variants of the socket calls, the contents of a block between malloc and the first
-- write, and the addresses of blocks.
pub mod Prelude
pub mod Bytes
pub mod Run
pub mod Env
pub mod Platform
pub mod Contents
pub mod Requests
pub mod Message
pub mod Replies
pub mod Log
pub mod Msgs
pub mod Names
pub mod Net
pub mod Proto
pub mod Items
pub mod Sync
pub mod Tests
