-- ===== src/Relaying.antt =====
-- A PRIVMSG on its whole way: from the bytes that `read` delivers, through src/connection.c,
-- src/read_message.c, src/parser.c and src/handlers.c, to the bytes that `write` is given.
pub mod Turned
pub mod Handler
pub mod Message
pub mod Rooms
pub mod Nicknames
pub mod Reading
