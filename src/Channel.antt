-- ===== src/Channel.antt =====
-- src/channel.c. A channel is passed by its address.
pub mod Members
pub mod Delivery
use circ.Base.{
  ℕ, Bool, true, false, not, ◌||◌, Option, none, some, List, [], ◌∷◌, Bytes, length, take, get_or,
  ltb, ◌==◌, if◌then◌else◌,
}
use circ.Glib.{Glib, Response}
use circ.Base.Int.{ℤ, pos, negsuc}
use circ.Replies.Channels.{message_join, message_part, message_privmsg}
use circ.Sending.{format, client_send}
use circ.World.{M, alloc_channel, ◌>>=◌, ◌>>◌, pure, load_client, load_channel, store_channel}

abbrev pub channel_name_max : ℕ
channel_name_max = 50

abbrev pub channel_topic_max : ℕ
channel_topic_max = 255

abbrev pub is_some : Option ℕ → Bool
is_some none = false
is_some (some _) = true

-- `strcspn(name, "\x07\r\n,") != strlen(name)`
abbrev pub has_invalid : Bytes → Bool
has_invalid [] = false
has_invalid (c ∷ cs) = (c == 7 || c == b'\r' || c == b'\n' || c == b',') || has_invalid cs

unfoldable pub channel_verify_name : Bytes → ℤ
channel_verify_name name =
    let c = get_or name 0 0 in
    if ltb channel_name_max (length name)
    then negsuc 0
    else if not (c == b'&' || c == b'#' || c == b'+' || c == b'!')
    then negsuc 0
    else if has_invalid name
    then negsuc 0
    else pos 0

module _ ⦃g : Glib⦄ where
  -- The address is the next one that `calloc` gives.
  unfoldable pub channel_new : Bytes → ℕ → M ℕ
  channel_new name operator = do
    c ← load_client operator
    p ← alloc_channel
    store_channel p (
        some (record {
          name = take channel_name_max name;
          topic = [];
          members = g.ints.insert g.ints.new c.client_id operator;
          member_modes = g.ints.new;
        }))
    pure p

  -- `GPOINTER_TO_INT(key) == source`; a source below 0 is no member.
  abbrev pub is_source : ℤ → ℕ → Bool
  is_source (pos source) key = key == source
  is_source (negsuc _) key = false

  -- The loop over the members' entries. A member gets its own copy of the message.
  unfoldable pub forward : List (ℕ × ℕ) → Response → ℤ → M (Unit {0})
  forward [] message source = pure tt
  forward ((key, client) ∷ rest) message source = do
    if is_source source key then pure tt else client_send client message
    forward rest message source

  unfoldable pub channel_send_message : ℕ → Response → ℤ → M (Unit {0})
  unfolding forward
  channel_send_message channel message source = do
    c ← load_channel channel
    forward (g.ints.entries c.members) message source

  unfoldable pub channel_sendall_join : ℕ → ℕ → M (Unit {0})
  channel_sendall_join channel source = do
    c ← load_client source
    ch ← load_channel channel
    r ← format (message_join c ch.name)
    channel_send_message channel r (pos c.client_id)

  unfoldable pub channel_sendall_part : ℕ → ℕ → Option Bytes → M (Unit {0})
  channel_sendall_part channel source part_message = do
    c ← load_client source
    ch ← load_channel channel
    r ← format (message_part c ch.name part_message)
    channel_send_message channel r (pos c.client_id)

  unfoldable pub channel_sendall_privmsg : ℕ → ℕ → Bytes → M (Unit {0})
  channel_sendall_privmsg channel source contents = do
    c ← load_client source
    ch ← load_channel channel
    r ← format (message_privmsg c ch.name contents)
    channel_send_message channel r (pos c.client_id)

  -- Joining twice does nothing.
  unfoldable pub channel_join : ℕ → ℕ → M (Unit {0})
  channel_join channel client = do
    c ← load_client client
    ch ← load_channel channel
    if is_some (g.ints.lookup ch.members c.client_id) then pure tt else (do
      store_channel channel
          (some (record ch { members = g.ints.insert ch.members c.client_id client }))
      channel_sendall_join channel client)

  unfoldable pub channel_is_member : ℕ → ℕ → M Bool
  channel_is_member channel client = do
    c ← load_client client
    ch ← load_channel channel
    pure (is_some (g.ints.lookup ch.members c.client_id))

  unfoldable pub channel_remove_member : ℕ → ℕ → M (Unit {0})
  channel_remove_member channel client = do
    c ← load_client client
    ch ← load_channel channel
    store_channel channel (
        some (record ch {
          members = g.ints.remove ch.members c.client_id;
          member_modes = g.ints.remove ch.member_modes c.client_id;
        }))

  unfoldable pub channel_size : ℕ → M ℕ
  channel_size channel = do ch ← load_channel channel; pure (length (g.ints.entries ch.members))

  unfoldable pub channel_set_topic : ℕ → Bytes → M (Unit {0})
  channel_set_topic channel topic = do
    ch ← load_channel channel
    store_channel channel (some (record ch { topic = take channel_topic_max topic }))
