-- ===== src/Frame.antt =====
-- What the handlers of src/handlers.c may change: an invariant that a few operations keep is kept
-- by all of them.
pub mod Forward
pub mod Quiet
pub mod Channels
pub mod Replying
pub mod Rooms
pub mod Dispatch
pub mod Reads
use circ.Base.{ℕ, ◌≡◌, Bool, Option, none, some, Bytes}
use circ.Channel.{channel_join, channel_set_topic}
use circ.Client.{client_try_change_nick, client_try_register}
use circ.Connection.{Conn}
use circ.Glib.{Glib, Response}
use circ.Handlers.Rooms.{part_leave}
use circ.Sending.{enqueue, client_send}
use circ.Server.{server_create_channel}
use circ.World.{
  Client, Channel, Server, World, modify_server, modify_client, store_channel, alloc_channel, write,
}
use circ.World.Keeps.{Keeps}

module _ ⦃g : Glib⦄ where
  -- The id, the nickname and `receivedNick`.
  abbrev pub identity : Option Client → Option (ℕ × Bytes × Bool)
  identity none = none
  identity (some c) = some (c.client_id, c.nickname, c.received_nick)

  -- A connection without its message buffer.
  abbrev pub buffers : Conn → ℕ × Bool × ℕ × Bytes
  buffers c = (c.fd, c.discard_next, c.total_read, c.store)

  -- A write to a client that touches neither.
  abbrev pub SameClient : Client → Client → Type 0
  SameClient c d = (identity (some d) ≡ identity (some c)) × (buffers d.conn ≡ buffers c.conn)

  -- The invariant allows the writes that sending is made of.
  pub record AllowsSending (P : World → Type 0) : Type 0 where
    pub sent : (fd : ℕ) (r : Response) → Keeps P (write fd r)
    pub client :
        (p : ℕ) (f : Client → Client)
        → ((c : Client) → SameClient c (f c))
        → Keeps P (modify_client p f)

  -- The invariant allows the writes that the operations on channels are made of.
  pub record AllowsChannels (P : World → Type 0) : Type 0 where
    pub channels :
        (f : Server → g.strings.Table) → Keeps P (modify_server (λ s. record s { channels = f s }))
    pub channel : (p : ℕ) (c : Option Channel) → Keeps P (store_channel p c)
    pub new_channel : Keeps P alloc_channel
    pub send : (target : ℕ) (r : Response) → Keeps P (client_send target r)

  -- The invariant allows the writes that all operations are made of.
  pub record AllowsWrites (P : World → Type 0) : Type 0 where
    pub sending : AllowsSending P
    pub channels :
        (f : Server → g.strings.Table) → Keeps P (modify_server (λ s. record s { channels = f s }))
    pub channel : (p : ℕ) (c : Option Channel) → Keeps P (store_channel p c)
    pub new_channel : Keeps P alloc_channel
    pub rename : (client : ℕ) (nick : Bytes) → Keeps P (client_try_change_nick client nick)
    pub register : (client : ℕ) → Keeps P (client_try_register client)

  -- The invariant allows the operations that the handlers for the client `me` are made of.
  pub record Allows (P : World → Type 0) (me : ℕ) : Type 0 where
    pub client :
        (f : Client → Client)
        → ((c : Client) → SameClient c (f c) × ((f c).responses ≡ c.responses))
        → Keeps P (modify_client me f)
    pub queue : (r : Response) → Keeps P (enqueue me r)
    pub send : (target : ℕ) (r : Response) → Keeps P (client_send target r)
    pub rename : (nick : Bytes) → Keeps P (client_try_change_nick me nick)
    pub register : Keeps P (client_try_register me)
    pub create : (name : Bytes) → Keeps P (server_create_channel name me)
    pub join : (channel : ℕ) → Keeps P (channel_join channel me)
    pub leave : (channel : ℕ) (text : Option Bytes) → Keeps P (part_leave me channel text)
    pub topic : (channel : ℕ) (topic : Bytes) → Keeps P (channel_set_topic channel topic)
