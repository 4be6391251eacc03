-- ===== src/Server.antt =====
-- src/server.c: the functions on `server_s`.
pub mod Names
use circ.Base.{ℕ, ◌+◌, ◌-◌, ◌%◌, ◌^◌, Option, none, Bytes, map, to_lower}
use circ.Channel.{channel_new}
use circ.Glib.{Glib}
use circ.World.{
  Server, M, ◌>>=◌, ◌>>◌, pure, get_server, modify_server, load_channel, store_channel,
}

-- `uint32_t` counters wrap.
abbrev pub count_up : ℕ → ℕ
count_up n = (n + 1) % 2 ^ 32

abbrev pub count_down : ℕ → ℕ
count_down n = (n + (2 ^ 32 - 1)) % 2 ^ 32

-- `for (c = name; *c; c++) *c = (char) tolower((int) *c)`
abbrev pub lower : Bytes → Bytes
lower = map to_lower

module _ ⦃g : Glib⦄ where
  -- The fields that `start_server` sets; the rest of `g_server` is zero.
  unfoldable pub start_server : Bytes → Option Bytes → Server
  start_server hostname motd = record {
    id_counter = 1;
    nicks = g.strings.new;
    clients = g.ints.new;
    channels = g.strings.new;
    hostname = hostname;
    motd = motd;
    n_users = 0;
    n_services = 0;
    n_unknown = 0;
    n_operators = 0;
    n_channels = 0;
  }

  unfoldable pub server_generate_id : M ℕ
  server_generate_id = do
    s ← get_server
    modify_server (λ s. record s { id_counter = s.id_counter + 1 })
    pure s.id_counter

  -- The caller's string is made lower case too: a caller that reads it again uses `lower name`.
  unfoldable pub server_get_channel : Bytes → M (Option ℕ)
  server_get_channel name = do s ← get_server; pure (g.strings.lookup s.channels (lower name))

  unfoldable pub server_create_channel : Bytes → ℕ → M ℕ
  server_create_channel name operator = do
    channel ← channel_new (lower name) operator
    modify_server (λ s. record s { channels = g.strings.insert s.channels (lower name) channel })
    pure channel

  unfoldable pub server_remove_channel : ℕ → M (Unit {0})
  server_remove_channel channel = do
    ch ← load_channel channel
    modify_server (λ s. record s { channels = g.strings.remove s.channels ch.name })
    store_channel channel none
