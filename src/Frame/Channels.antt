-- ===== src/Frame/Channels.antt =====
-- The operations on channels of src/channel.c and src/server.c, and the end of `handler_part`.
use circ.Base.{ℕ, Option, Bytes}
use circ.Channel.{channel_new, channel_join, channel_remove_member, channel_size, channel_set_topic}
use circ.Frame.{AllowsChannels}
use circ.Frame.Forward.{Keeps-format, Keeps-channel_sendall_join, Keeps-channel_sendall_part}
use circ.Glib.{Glib, Response}
use circ.Handlers.Rooms.{part_leave}
use circ.Sending.{client_send}
use circ.Server.{server_create_channel, server_remove_channel}
use circ.World.{Channel, Server, World, modify_server, store_channel, alloc_channel}
use circ.World.Keeps.{Keeps, run_rules}

module _ ⦃g : Glib⦄ {P : World → Type 0} (allows : AllowsChannels P) where
  Keeps-store_channel : (p : ℕ) (c : Option Channel) → Keeps P (store_channel p c)
  Keeps-store_channel = allows.channel

  Keeps-alloc_channel : Keeps P alloc_channel
  Keeps-alloc_channel = allows.new_channel

  Keeps-client_send : (target : ℕ) (r : Response) → Keeps P (client_send target r)
  Keeps-client_send = allows.send

  Keeps-set_channels :
      (f : Server → g.strings.Table) → Keeps P (modify_server (λ s. record s { channels = f s }))
  Keeps-set_channels = allows.channels

  ruleset sending_rules =
      (run_rules, Keeps-format, Keeps-client_send, Keeps-store_channel, Keeps-alloc_channel)

  Keeps-channel_new : (name : Bytes) (operator : ℕ) → Keeps P (channel_new name operator)
  unfolding channel_new
  Keeps-channel_new name operator = search sending_rules depth 9

  pub Keeps-channel_join : (channel client : ℕ) → Keeps P (channel_join channel client)
  unfolding channel_join
  Keeps-channel_join channel client =
      search (sending_rules, Keeps-channel_sendall_join (Keeps-client_send)) depth 9

  Keeps-channel_remove_member :
      (channel client : ℕ) → Keeps P (channel_remove_member channel client)
  unfolding channel_remove_member
  Keeps-channel_remove_member channel client = search sending_rules depth 9

  Keeps-channel_size : (channel : ℕ) → Keeps P (channel_size channel)
  unfolding channel_size
  Keeps-channel_size channel = search run_rules

  pub Keeps-channel_set_topic :
      (channel : ℕ) (topic : Bytes) → Keeps P (channel_set_topic channel topic)
  unfolding channel_set_topic
  Keeps-channel_set_topic channel topic = search sending_rules

  pub Keeps-server_create_channel :
      (name : Bytes) (operator : ℕ) → Keeps P (server_create_channel name operator)
  unfolding server_create_channel
  Keeps-server_create_channel name operator =
      search (run_rules, Keeps-channel_new, Keeps-set_channels) depth 9

  Keeps-server_remove_channel : (channel : ℕ) → Keeps P (server_remove_channel channel)
  unfolding server_remove_channel
  Keeps-server_remove_channel channel =
      search (run_rules, Keeps-store_channel, Keeps-set_channels) depth 9

  pub Keeps-part_leave :
      (client channel : ℕ) (text : Option Bytes) → Keeps P (part_leave client channel text)
  unfolding part_leave
  Keeps-part_leave client channel text =
      search
        (
          run_rules,
          Keeps-channel_sendall_part Keeps-client_send,
          Keeps-channel_remove_member,
          Keeps-channel_size,
          Keeps-server_remove_channel,
        )
        depth 15
