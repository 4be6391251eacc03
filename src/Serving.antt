-- ===== src/Serving.antt =====
-- The events that the event loop hands to the server, src/client.c, from the state that
-- `start_server` of src/server.c leaves.
use circ.Base.{◌≤◌, length, ℕ, ◌≡◌, Bool, Option, none, some, [], Bytes}
use circ.Base.Int.{ℤ}
use circ.Client.{server_accept}
use circ.Glib.{Glib}
use circ.HandleRead.{client_handle_read}
use circ.Server.{start_server}
use circ.Connection.{read_room}
use circ.World.{Client, World, ok}

module _ ⦃g : Glib⦄ where
  -- No client, no channel, and nothing sent.
  unfoldable pub initial : Bytes → Option Bytes → World
  unfolding start_server
  initial hostname motd = record {
    server = start_server hostname motd;
    client_at = λ p. none;
    next_client = 1;
    channel_at = λ p. none;
    next_channel = 1;
    sent = [];
    closed = [];
  }

  -- `read` delivers no more bytes than it is asked for.
  abbrev pub Fits : World → ℕ → Option Bytes → Type 0
  Fits w client input =
      (c : Client)
      → w.client_at client ≡ some c
      → (bytes : Bytes) → input ≡ some bytes
      → length bytes ≤ read_room c.conn

  -- One event that returns: `Server_HandleReadEvent` and `Client_HandleReadEvent`. `input` is what
  -- `read` delivers; `watched` is whether the reactor takes the client's descriptor. A step can be a
  -- read for any client: epoll reports no descriptor that is closed, so the states of the server are
  -- among those that are reached by steps.
  pub data Step (w : World) : World → Type 0 where
    accepts :
        (fd : ℕ) (hostname : Bytes) (watched : Bool) (client : ℕ) (v : World)
        → server_accept fd hostname watched w ≡ ok client v
        → Step w v
    reads :
        (client : ℕ) (input : Option Bytes) (result : ℤ) (v : World)
        → Fits w client input
        → client_handle_read client input w ≡ ok result v
        → Step w v

  -- The states after any number of events.
  pub data Reaches (w : World) : World → Type 0 where
    start : Reaches w w
    next : {v u : World} → Reaches w v → Step v u → Reaches w u
