-- ===== src/HandleRead.antt =====
-- src/client.c: `Client_HandleRead`, which reads from a client's socket and handles what has come.
use circ.Base.{ℕ, zero, suc, Option, none, Bytes, ◌==◌, if◌then◌else◌}
use circ.Base.Int.{ℤ, pos, negsuc}
use circ.Client.{client_closed}
use circ.Connection.{Conn, conn_read_store_buffer}
use circ.Glib.{Glib}
use circ.Handlers.{handle_message}
use circ.Irc.{MessageType, IrcMessage}
use circ.Parser.{parse_message}
use circ.ReadMessage.{conn_read_message}
use circ.Sending.{client_try_empty_buffer}
use circ.World.{M, ◌>>=◌, ◌>>◌, pure, load_client, modify_client, maybe}

-- `memset(&message, 0, sizeof(irc_message_s))`
abbrev pub zero_message : IrcMessage
zero_message = record {
  type = MessageType.unknown;
  command = none;
  parse_err = 0;
  first = none;
  second = none;
  leave_all = 0;
}

module _ ⦃g : Glib⦄ where
  unfoldable pub set_conn : ℕ → Conn → M (Unit {0})
  set_conn client conn = modify_client client (λ c. record c { conn = conn })

  unfoldable pub run_handler : ℤ → ℕ → IrcMessage → M (Unit {0})
  run_handler (negsuc _) client message = pure tt
  run_handler (pos _) client message = do _ ← handle_message client message; pure tt

  -- The body of the loop: parse, handle, and write all the responses.
  unfoldable pub handle_one : ℕ → IrcMessage → M IrcMessage
  handle_one client message = do
    c ← load_client client
    let parsed = parse_message c.conn.message message
    set_conn client (record (c.conn) { message = parsed.buf })
    run_handler parsed.code client parsed.message
    client_try_empty_buffer client
    pure parsed.message

  -- `while (conn_read_message(conn))`, for a number of rounds. The struct is kept between rounds.
  unfoldable pub handle_all : ℕ → ℕ → IrcMessage → M (Unit {0})
  handle_all zero client message = pure tt
  handle_all (suc n) client message = do
    c ← load_client client
    let (found, conn) = conn_read_message c.conn
    set_conn client conn
    if found then (do next ← handle_one client message; handle_all n client next) else pure tt

  -- The result is CONN_RESULT_ERROR, 0 or CONN_RESULT_CLOSE. `input` is what `read` delivers.
  unfoldable pub read_and_handle : ℕ → ℕ → Option Bytes → M ℤ
  read_and_handle rounds client input = do
    c ← load_client client
    let (num_read, conn) = conn_read_store_buffer c.conn input
    set_conn client conn
    maybe num_read (pure (negsuc 0)) (λ n. do
      handle_all rounds client zero_message
      if n == 0 then (do client_closed client; pure (pos 1)) else pure (pos 0))

  -- The store holds at most 512 bytes, and a message takes at least 2 out of it.
  unfoldable pub client_handle_read : ℕ → Option Bytes → M ℤ
  unfolding read_and_handle
  client_handle_read client input = read_and_handle 258 client input
