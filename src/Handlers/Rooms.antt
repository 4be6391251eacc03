-- ===== src/Handlers/Rooms.antt =====
-- src/handlers.c: the handlers for JOIN, PART, LIST, TOPIC and NAMES.
use circ.Base.{
  ℕ, Option, none, some, List, [], ◌∷◌, ◌++◌, Bytes, codes, length, ◌==◌, if◌then◌else◌,
}
use circ.Base.Int.{ℤ}
use circ.Channel.{
  channel_join, channel_sendall_part, channel_is_member, channel_remove_member, channel_size,
  channel_set_topic,
}
use circ.Glib.{Glib}
use circ.Handlers.Basic.{done, failed}
use circ.Irc.{IrcMessage, err_needmoreparams}
use circ.Replies.{err_need_more_params}
use circ.Replies.Channels.{
  message_join, rpl_topic, rpl_no_topic, rpl_nam_reply, rpl_end_of_names, err_no_such_channel,
  err_not_on_channel, rpl_list_start, rpl_list, rpl_list_end,
}
use circ.Sending.{push_reply}
use circ.Server.{lower, server_get_channel, server_create_channel, server_remove_channel}
use circ.World.{
  M, ◌>>=◌, ◌>>◌, pure, fault, get_server, load_client, load_channel, read_string, read_string?,
  lower_in_place, maybe,
}

-- A piece between commas, unless it is empty.
abbrev piece : Bytes → List Bytes → List Bytes
piece [] rest = rest
piece (c ∷ cs) rest = (c ∷ cs) ∷ rest

-- The strings that `strtok_r(s, ",", &save)` and its repeated calls return. A handler's changes to
-- one of them do not reach the next.
split_onto : Bytes → Bytes → List Bytes
split_onto acc [] = piece acc []
split_onto acc (c ∷ cs) =
    let rest = split_onto (if c == b',' then [] else acc ++ (c ∷ [])) cs in
    if c == b',' then piece acc rest else rest

unfoldable pub split_commas : Bytes → List Bytes
unfolding split_onto
split_commas s = split_onto [] s

module _ ⦃g : Glib⦄ where
  -- The nicknames that `Reply_RplNamReply` collects.
  unfoldable pub nicknames : List (ℕ × ℕ) → M (List Bytes)
  nicknames [] = pure []
  nicknames ((key, client) ∷ rest) = do
    c ← load_client client
    names ← nicknames rest
    pure (c.nickname ∷ names)

  unfoldable pub push_names : ℕ → ℕ → M (Unit {0})
  unfolding nicknames
  push_names client channel = do
    c ← load_client client
    s ← get_server
    ch ← load_channel channel
    names ← nicknames (g.ints.entries ch.members)
    push_reply client (rpl_nam_reply c s ch names)
    push_reply client (rpl_end_of_names c s ch)

  -- The channel of that name: joined, or made.
  unfoldable pub join_or_create : ℕ → Bytes → M ℕ
  join_or_create client name = do
    found ← server_get_channel name
    maybe found (server_create_channel (lower name) client)
        (λ channel. do channel_join channel client; pure channel)

  -- `if (strlen(channel->topic))`
  unfoldable pub push_topic : ℕ → ℕ → M (Unit {0})
  push_topic client channel = do
    c ← load_client client
    s ← get_server
    ch ← load_channel channel
    if length ch.topic == 0 then pure tt else push_reply client (rpl_topic c s ch)

  -- One round of the loop of `handler_join`.
  unfoldable pub join_one : ℕ → Bytes → M (Unit {0})
  unfolding join_or_create push_names
  join_one client name = do
    channel ← join_or_create client name
    c ← load_client client
    ch ← load_channel channel
    push_reply client (message_join c ch.name)
    push_topic client channel
    push_names client channel

  unfoldable pub join_all : ℕ → List Bytes → M (Unit {0})
  unfolding join_one
  join_all client [] = pure tt
  join_all client (name ∷ rest) = do join_one client name; join_all client rest

  -- `strtok_r` reads an uninitialised pointer where the list is NULL.
  unfoldable pub handler_join : ℕ → IrcMessage → M ℤ
  unfolding split_commas join_all
  handler_join client message = do
    c ← load_client client
    if message.parse_err == err_needmoreparams
        then (do push_reply client (err_need_more_params c (codes "JOIN")); pure failed)
        else (do
          channels ← read_string client message.first
          join_all client (split_commas channels)
          pure done)

  -- A member leaves; the channel is removed with its last member.
  unfoldable pub part_leave : ℕ → ℕ → Option Bytes → M ℤ
  part_leave client channel part_message = do
    channel_sendall_part channel client part_message
    channel_remove_member channel client
    size ← channel_size channel
    if size == 0 then server_remove_channel channel else pure tt
    pure done

  unfoldable pub part_found : ℕ → ℕ → IrcMessage → M ℤ
  unfolding part_leave
  part_found client channel message = do
    member ← channel_is_member channel client
    if member
        then (do text ← read_string? client message.second; part_leave client channel text)
        else (do
          c ← load_client client
          s ← get_server
          ch ← load_channel channel
          push_reply client (err_not_on_channel c s ch)
          pure failed)

  -- No look at `parse_err`.
  unfoldable pub handler_part : ℕ → IrcMessage → M ℤ
  unfolding part_found
  handler_part client message = do
    lower_in_place client message.first
    name ← read_string client message.first
    found ← server_get_channel name
    maybe found
        (do
          c ← load_client client
          s ← get_server
          push_reply client (err_no_such_channel c s name)
          pure failed)
        (λ channel. part_found client channel message)

  unfoldable pub push_list : ℕ → ℕ → M (Unit {0})
  push_list client channel = do
    c ← load_client client
    s ← get_server
    ch ← load_channel channel
    push_reply client (rpl_list c s ch)

  unfoldable pub list_all : ℕ → List (Bytes × ℕ) → M (Unit {0})
  list_all client [] = pure tt
  list_all client ((key, channel) ∷ rest) = do push_list client channel; list_all client rest

  unfoldable pub list_named : ℕ → List Bytes → M (Unit {0})
  list_named client [] = pure tt
  list_named client (name ∷ rest) = do
    found ← server_get_channel name
    maybe found (pure tt) (push_list client)
    list_named client rest

  unfoldable pub handler_list : ℕ → IrcMessage → M ℤ
  unfolding split_commas list_all list_named
  handler_list client message = do
    c ← load_client client
    s ← get_server
    push_reply client (rpl_list_start c s)
    maybe message.first (list_all client (g.strings.entries s.channels))
        (λ p. do channels ← read_string client (some p); list_named client (split_commas channels))
    push_reply client (rpl_list_end c s)
    pure done

  -- No topic in the message: tell the current one.
  unfoldable pub topic_query : ℕ → Bytes → Option ℕ → M ℤ
  topic_query client name none = do
    c ← load_client client
    s ← get_server
    push_reply client (err_no_such_channel c s name)
    pure failed
  topic_query client name (some channel) = do
    c ← load_client client
    s ← get_server
    ch ← load_channel channel
    push_reply client (if length ch.topic == 0 then rpl_no_topic c s ch else rpl_topic c s ch)
    pure done

  -- A topic: set it. A channel that is not there is a NULL that `channel_set_topic` writes to.
  unfoldable pub topic_set : Option ℕ → Bytes → M ℤ
  topic_set none topic = fault
  topic_set (some channel) topic = do channel_set_topic channel topic; pure done

  unfoldable pub handler_topic : ℕ → IrcMessage → M ℤ
  unfolding topic_query topic_set
  handler_topic client message = do
    c ← load_client client
    if message.parse_err == err_needmoreparams
        then (do push_reply client (err_need_more_params c (codes "TOPIC")); pure failed)
        else (do
          lower_in_place client message.first
          name ← read_string client message.first
          channel ← server_get_channel name
          topic ← read_string? client message.second
          maybe topic (topic_query client name channel) (topic_set channel))

  unfoldable pub names_all : ℕ → List Bytes → M (Unit {0})
  names_all client [] = pure tt
  names_all client (name ∷ rest) = do
    found ← server_get_channel name
    maybe found (pure tt) (push_names client)
    names_all client rest

  unfoldable pub handler_names : ℕ → IrcMessage → M ℤ
  unfolding split_commas names_all push_names
  handler_names client message = maybe message.first (pure done) (λ p. do
    channels ← read_string client (some p)
    names_all client (split_commas channels)
    pure done)
