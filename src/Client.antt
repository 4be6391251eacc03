-- ===== src/Client.antt =====
-- src/client.c: registration, nicknames, AWAY, and the life of a client.
pub mod Nicknames
pub mod Registration
use circ.Base.{
  ℕ, Bool, true, false, not, ◌&&◌, Option, none, some, [], Bytes, length, take, replicate, ltb,
  if◌then◌else◌,
}
use circ.Base.Int.{ℤ, pos, negsuc}
use circ.Channel.{channel_verify_name, channel_join, channel_new, is_some}
use circ.Glib.{Glib, Response}
use circ.Irc.{nick_max_size, irc_msg_size}
use circ.Replies.{rpl_welcome, err_nickname_in_use}
use circ.Sending.{format}
use circ.Server.{count_up, count_down, lower, server_generate_id}
use circ.World.{
  Client, M, ◌>>=◌, ◌>>◌, pure, fault, get_server, modify_server, alloc_client, load_client,
  modify_client, store_client, maybe,
}
use circ.World.{close_fd}

module _ ⦃g : Glib⦄ where
  -- `Client_TryRegister`; the result is what is stored through `response`.
  unfoldable pub client_try_register : ℕ → M (Option Response)
  client_try_register client = do
    c ← load_client client
    if not c.registered && c.received_user && c.received_nick
        then (do
          modify_server (λ s. record s { clients = g.ints.insert s.clients c.client_id client })
          modify_client client (λ d. record d { registered = true })
          modify_server
              (λ s. record s { n_unknown = count_down s.n_unknown; n_users = count_up s.n_users })
          r ← format (rpl_welcome c)
          pure (some r))
        else pure none

  -- `strcpy(client->nickname, nick)`: the array has room for IRC_NICK_SIZE bytes and the NUL.
  unfoldable pub set_nickname : ℕ → Bytes → M (Unit {0})
  set_nickname client nick =
      if ltb nick_max_size (length nick)
      then fault
      else modify_client client (λ c. record c { nickname = nick; received_nick = true })

  -- `Client_TryChangeNick`: the response where it returns -1, and `none` where it returns 0.
  unfoldable pub client_try_change_nick : ℕ → Bytes → M (Option Response)
  client_try_change_nick client nick = do
    c ← load_client client
    s ← get_server
    if is_some (g.strings.lookup s.nicks nick)
        then (do r ← format (err_nickname_in_use c nick); pure (some r))
        else (do
          modify_server (λ v. record v {
            nicks =
                g.strings.insert
                  (if c.received_nick then g.strings.remove v.nicks c.nickname else v.nicks) nick
                  c.client_id;
          })
          set_nickname client nick
          pure none)

  unfoldable pub client_set_away : ℕ → Bytes → M (Unit {0})
  client_set_away client away_message =
      modify_client client
        (λ c. record c { away = true; away_message = take irc_msg_size away_message })

  unfoldable pub client_unset_away : ℕ → M (Unit {0})
  client_unset_away client = modify_client client (λ c. record c { away = false })

  -- `client_join_channel`, which no handler calls.
  unfoldable pub client_join_channel : ℕ → Bytes → M ℤ
  client_join_channel client name = elim (channel_verify_name (lower name)) [
    | negsuc _ ↦ pure (negsuc 0)
    | pos _ ↦ do
      s ← get_server
      maybe (g.strings.lookup s.channels (lower name))
          (do
            channel ← channel_new (lower name) client
            modify_server
                (λ v. record v { channels = g.strings.insert v.channels (lower name) channel })
            pure (pos 0))
          (λ channel. do channel_join channel client; pure (pos 0))
  ]

  abbrev no_bytes : Bytes
  no_bytes = replicate irc_msg_size 0

  -- What `calloc` and the assignments of `Server_HandleReadEvent` make of a client.
  unfoldable pub new_client : ℕ → ℕ → Bytes → Client
  new_client fd id hostname = record {
    registered = false;
    received_nick = false;
    received_user = false;
    client_id = id;
    conn = record {
      fd = fd;
      discard_next = false;
      total_read = 0;
      message = no_bytes;
      store = no_bytes;
    };
    responses = g.queues.new;
    nickname = [];
    username = [];
    hostname = hostname;
    fullname = [];
    away = false;
    away_message = [];
  }

  -- `Server_HandleReadEvent` once `accept` has given a descriptor. `watched` is whether
  -- `reactor_register_handler` succeeds; if not, the client is freed, and stays in the table.
  unfoldable pub server_accept : ℕ → Bytes → Bool → M ℕ
  unfolding new_client
  server_accept fd hostname watched = do
    client ← alloc_client
    id ← server_generate_id
    store_client client (some (new_client fd id hostname))
    modify_server (λ s. record s {
      n_unknown = count_up s.n_unknown;
      clients = g.ints.insert s.clients id client;
    })
    if watched then pure tt else store_client client none
    pure client

  -- The end of `Client_HandleRead` where `read` has returned 0.
  unfoldable pub client_closed : ℕ → M (Unit {0})
  client_closed client = do
    c ← load_client client
    close_fd c.conn.fd
    modify_server (λ s.
        if c.registered
        then record s { n_users = count_down s.n_users }
        else record s { n_unknown = count_down s.n_unknown })
