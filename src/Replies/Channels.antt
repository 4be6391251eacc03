-- ===== src/Replies/Channels.antt =====
-- src/replies.c: the replies about channels, the messages that are passed on, and those of AWAY.
use circ.Base.{Option, none, some, List, [], ◌∷◌, ◌++◌, Bytes, codes}
use circ.Glib.{Glib}
use circ.World.{Client, Server, Channel}
use circ.Replies.Decimal.{decimal}
use circ.Replies.{Reply, sprintf, snprintf}

module _ ⦃g : Glib⦄ where
  unfoldable pub message_privmsg : Client → Bytes → Bytes → Reply
  message_privmsg client msgtarget contents = sprintf (
      client.nickname
      ∷ codes "!"
      ∷ client.username
      ∷ codes "@"
      ∷ client.hostname
      ∷ codes " PRIVMSG "
      ∷ msgtarget
      ∷ codes " :"
      ∷ contents
      ∷ codes "\r\n"
      ∷ [])

  unfoldable pub message_join : Client → Bytes → Reply
  message_join client channel = snprintf (
      codes ":"
      ∷ client.nickname
      ∷ codes "!"
      ∷ client.username
      ∷ codes "@"
      ∷ client.hostname
      ∷ codes " JOIN "
      ∷ channel
      ∷ codes "\r\n"
      ∷ [])

  -- The part message, or the nickname where there is none.
  unfoldable pub part_text : Client → Option Bytes → Bytes
  part_text client none = client.nickname
  part_text client (some text) = text

  unfoldable pub message_part : Client → Bytes → Option Bytes → Reply
  message_part client channel part_message = snprintf (
      client.nickname
      ∷ codes "!"
      ∷ client.username
      ∷ codes "@"
      ∷ client.hostname
      ∷ codes " PART "
      ∷ channel
      ∷ codes " :"
      ∷ part_text client part_message
      ∷ codes "\r\n"
      ∷ [])

  unfoldable pub rpl_topic : Client → Server → Channel → Reply
  rpl_topic client server channel = snprintf (
      codes ":"
      ∷ server.hostname
      ∷ codes " 332 "
      ∷ client.nickname
      ∷ codes " "
      ∷ channel.name
      ∷ codes " :"
      ∷ channel.topic
      ∷ codes "\r\n"
      ∷ [])

  unfoldable pub rpl_no_topic : Client → Server → Channel → Reply
  rpl_no_topic client server channel = snprintf (
      codes ":"
      ∷ server.hostname
      ∷ codes " 331 "
      ∷ client.nickname
      ∷ codes " "
      ∷ channel.name
      ∷ codes " :No topic is set\r\n"
      ∷ [])

  -- The nicknames with a space between.
  unfoldable pub spaced : List Bytes → Bytes
  spaced [] = []
  spaced (s ∷ []) = s
  spaced (s ∷ t ∷ rest) = s ++ (codes " " ++ spaced (t ∷ rest))

  -- `sprintf` piece by piece. The nicknames are those of the members, in the order of iteration.
  unfoldable pub rpl_nam_reply : Client → Server → Channel → List Bytes → Reply
  rpl_nam_reply client server channel nicknames = sprintf (
      codes ":"
      ∷ server.hostname
      ∷ codes " 353 "
      ∷ client.nickname
      ∷ codes " "
      ∷ channel.name
      ∷ codes " :"
      ∷ spaced nicknames
      ∷ codes "\r\n"
      ∷ [])

  unfoldable pub rpl_end_of_names : Client → Server → Channel → Reply
  rpl_end_of_names client server channel = snprintf (
      codes ":"
      ∷ server.hostname
      ∷ codes " 366 "
      ∷ client.nickname
      ∷ codes " "
      ∷ channel.name
      ∷ codes " :End of NAMES list\r\n"
      ∷ [])

  unfoldable pub err_no_such_channel : Client → Server → Bytes → Reply
  err_no_such_channel client server channel_name = snprintf (
      codes ":"
      ∷ server.hostname
      ∷ codes " 403 "
      ∷ client.nickname
      ∷ codes " "
      ∷ channel_name
      ∷ codes " :No such channel\r\n"
      ∷ [])

  -- The source formats it as ERR_NOSUCHCHANNEL.
  unfoldable pub err_not_on_channel : Client → Server → Channel → Reply
  err_not_on_channel client server channel = snprintf (
      codes ":"
      ∷ server.hostname
      ∷ codes " 403 "
      ∷ client.nickname
      ∷ codes " "
      ∷ channel.name
      ∷ codes " :No such channel\r\n"
      ∷ [])

  unfoldable pub rpl_list_start : Client → Server → Reply
  rpl_list_start client server = snprintf (
      codes ":"
      ∷ server.hostname
      ∷ codes " 321 "
      ∷ client.nickname
      ∷ codes " Channel :Users Name\r\n"
      ∷ [])

  unfoldable pub rpl_list : Client → Server → Channel → Reply
  rpl_list client server channel = snprintf (
      codes ":"
      ∷ server.hostname
      ∷ codes " 322 "
      ∷ client.nickname
      ∷ codes " "
      ∷ channel.name
      ∷ codes " "
      ∷ decimal 1
      ∷ codes " :"
      ∷ channel.topic
      ∷ codes "\r\n"
      ∷ [])

  unfoldable pub rpl_list_end : Client → Server → Reply
  rpl_list_end client server = snprintf (
      codes ":"
      ∷ server.hostname
      ∷ codes " 323 "
      ∷ client.nickname
      ∷ codes " :End of /LIST\r\n"
      ∷ [])

  unfoldable pub rpl_unaway : Client → Server → Reply
  rpl_unaway client server = snprintf (
      codes ":"
      ∷ server.hostname
      ∷ codes " 305 "
      ∷ client.nickname
      ∷ codes " :You are no longer marked as being away\r\n"
      ∷ [])

  unfoldable pub rpl_nowaway : Client → Server → Reply
  rpl_nowaway client server = snprintf (
      server.hostname
      ∷ codes " 306 "
      ∷ client.nickname
      ∷ codes " :You have been marked as being away\r\n"
      ∷ [])

  unfoldable pub rpl_away : Client → Server → Bytes → Bytes → Reply
  rpl_away client server nick away_message = snprintf (
      codes ":"
      ∷ server.hostname
      ∷ codes " 301 "
      ∷ client.nickname
      ∷ codes " "
      ∷ nick
      ∷ codes " :"
      ∷ away_message
      ∷ codes "\r\n"
      ∷ [])
