-- ===== src/Handlers/Talk.antt =====
-- src/handlers.c: the handlers for PRIVMSG and AWAY.
use circ.Base.{ℕ, Bool, ◌||◌, some, Bytes, codes, get_or, ◌==◌, if◌then◌else◌}
use circ.Base.Int.{ℤ}
use circ.Channel.{channel_sendall_privmsg}
use circ.Client.{client_set_away, client_unset_away}
use circ.Glib.{Glib}
use circ.Handlers.Basic.{done, failed, find_nick, find_client}
use circ.Irc.{IrcMessage, err_norecipient, err_notexttosend}
use circ.Replies.{err_no_recipient, err_no_text_to_send, err_no_such_nick}
use circ.Replies.Channels.{message_privmsg, rpl_away, rpl_nowaway, rpl_unaway}
use circ.Sending.{format, push_reply, client_send}
use circ.World.{M, ◌>>=◌, ◌>>◌, pure, get_server, load_client, read_string, maybe}

-- `first` is the target's first byte.
abbrev pub names_channel : Bytes → Bool
names_channel target =
    let first = get_or target 0 0 in
    first == b'#' || first == b'+' || first == b'!' || first == b'&'

module _ ⦃g : Glib⦄ where
  -- To a channel. The name is looked up as it is written; an unknown channel gets no reply.
  unfoldable pub privmsg_channel : ℕ → Bytes → IrcMessage → M ℤ
  privmsg_channel client target message = do
    s ← get_server
    maybe (g.strings.lookup s.channels target) (pure done) (λ channel. do
      contents ← read_string client message.second
      channel_sendall_privmsg channel client contents
      pure done)

  -- To a client that was found: send, and tell the sender if the target is away.
  unfoldable pub privmsg_deliver : ℕ → ℕ → Bytes → IrcMessage → M ℤ
  privmsg_deliver client target name message = do
    c ← load_client client
    contents ← read_string client message.second
    r ← format (message_privmsg c name contents)
    client_send target r
    t ← load_client target
    s ← get_server
    me ← load_client client
    if t.away
        then (do push_reply client (rpl_away me s t.nickname t.away_message); pure done)
        else pure done

  unfoldable pub privmsg_nick : ℕ → Bytes → IrcMessage → M ℤ
  unfolding privmsg_deliver
  privmsg_nick client name message = do
    c ← load_client client
    id ← find_nick name
    if id == 0
        then (do push_reply client (err_no_such_nick c name); pure failed)
        else (do target ← find_client id; privmsg_deliver client target name message)

  unfoldable pub handler_privmsg : ℕ → IrcMessage → M ℤ
  unfolding privmsg_channel privmsg_nick
  handler_privmsg client message = do
    c ← load_client client
    if message.parse_err == err_norecipient
        then (do push_reply client (err_no_recipient c (codes "PRIVMSG")); pure failed)
        else if message.parse_err == err_notexttosend
        then (do push_reply client (err_no_text_to_send c); pure failed)
        else (do
          target ← read_string client message.first
          if names_channel target
              then privmsg_channel client target message
              else privmsg_nick client target message)

  unfoldable pub handler_away : ℕ → IrcMessage → M ℤ
  handler_away client message = do
    c ← load_client client
    s ← get_server
    maybe message.first (do client_unset_away client; push_reply client (rpl_unaway c s); pure done)
        (λ p. do
          text ← read_string client (some p)
          client_set_away client text
          push_reply client (rpl_nowaway c s)
          pure done)
