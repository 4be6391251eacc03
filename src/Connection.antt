-- ===== src/Connection.antt =====
-- include/connection.h and src/connection.c: the buffers of a connection.
use circ.Base.{ℕ, ◌+◌, ◌-◌, Bool, Bytes, Option, none, some, ◌++◌, drop, length}
use circ.Irc.{irc_msg_size}

-- `struct conn_s`. Its queue `responses` is a field of `World.Client`, and `eagain` is never used.
pub record Conn : Type 0 where
  pub fd : ℕ
  pub discard_next : Bool
  pub total_read : ℕ
  pub message : Bytes
  pub store : Bytes

-- `Conn_ReadStoreBuffer`. The argument is what `read` delivers: `none` for -1, and else at most the
-- number of bytes that are asked for. `read` is given `conn->store`, so they go to its front.
unfoldable pub conn_read_store_buffer : Conn → Option Bytes → Option ℕ × Conn
conn_read_store_buffer conn none = (none, conn)
conn_read_store_buffer conn (some input) = (
  some (length input),
  record conn {
    store = input ++ drop (length input) conn.store;
    total_read = conn.total_read + length input;
  },
)

-- The third argument of that `read`.
abbrev pub read_room : Conn → ℕ
read_room conn = irc_msg_size - conn.total_read
