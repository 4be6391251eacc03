-- ===== src/Parser/Commands.antt =====
-- src/parser.c: `parse_message` on whole messages, one theorem for each kind of command.
use circ.Base.{◌≤◌, ◌<◌, ◌≡◌, refl, [], ◌∷◌, ◌++◌, Bytes, codes, str_eq, length, arith}
use circ.Irc.{MessageType, IrcMessage, nick_max_size}
use circ.Msgtok.Line.{Last, IsMiddle, IsLast, last_text, line, word-IsMiddle}
use circ.Parser.{parse_message, message_type, parse_as}
use circ.Parser.Encode.{
  parse_message-command, Says, Holds, nick-Says, topic_query-Says, privmsg-Says, topic-Says,
  user-Says,
}

module _ (last : Last) (rest : Bytes) (m : IrcMessage) (h : IsLast last) where
  -- `PRIVMSG <target> <text>` is parsed with no error into its target and its text. The last
  -- parameter is a word, or any text with no NUL and no CR behind a colon; the others have no
  -- space, NUL or CR in them and no colon in front, and are not empty.
  pub parse_message-privmsg :
      (target : Bytes)
      → IsMiddle target
      → let r = parse_message (line (codes "PRIVMSG" ∷ target ∷ []) last rest) m in
        Says r MessageType.privmsg target × Holds r.buf r.message.second (last_text last)
  unfolding message_type str_eq parse_as
  parse_message-privmsg target ht =
      rw
        (parse_message-command (codes "PRIVMSG") (target ∷ []) last rest m
          (word-IsMiddle _ _ refl, (ht, tt)) h)
        (privmsg-Says (codes "PRIVMSG" ++ (0 ∷ [])) last rest _ h target ht)

  -- `TOPIC <channel> <topic>` is parsed with no error into its channel and its topic. The last
  -- parameter is a word, or any text with no NUL and no CR behind a colon; the others have no
  -- space, NUL or CR in them and no colon in front, and are not empty.
  pub parse_message-topic :
      (channel : Bytes)
      → IsMiddle channel
      → let r = parse_message (line (codes "TOPIC" ∷ channel ∷ []) last rest) m in
        Says r MessageType.topic channel × Holds r.buf r.message.second (last_text last)
  unfolding message_type str_eq parse_as
  parse_message-topic channel hc =
      rw
        (parse_message-command (codes "TOPIC") (channel ∷ []) last rest m
          (word-IsMiddle _ _ refl, (hc, tt)) h)
        (topic-Says (codes "TOPIC" ++ (0 ∷ [])) last rest _ h channel hc)

  -- `USER <user> <mode> <unused> <realname>` is parsed with no error into its user and its real
  -- name; the two parameters between are skipped. The last parameter is a word, or any text with
  -- no NUL and no CR behind a colon; the others have no space, NUL or CR in them and no colon in
  -- front, and are not empty.
  pub parse_message-user :
      (name mode unused : Bytes)
      → IsMiddle name
      → IsMiddle mode
      → IsMiddle unused
      → let r = parse_message (line (codes "USER" ∷ name ∷ mode ∷ unused ∷ []) last rest) m in
        Says r MessageType.user name × Holds r.buf r.message.second (last_text last)
  unfolding message_type str_eq parse_as
  parse_message-user name mode unused h1 h2 h3 =
      rw
        (parse_message-command (codes "USER") (name ∷ mode ∷ unused ∷ []) last rest m
          (word-IsMiddle _ _ refl, (h1, (h2, (h3, tt)))) h)
        (user-Says (codes "USER" ++ (0 ∷ [])) last rest _ h name mode unused h1 h2 h3)

  -- `NICK <nickname>` with a nickname of 1 to 9 bytes, which is a word or a text with no NUL and
  -- no CR behind a colon, is parsed with no error into the nickname.
  pub parse_message-nick :
      0 < length (last_text last)
      → length (last_text last) ≤ nick_max_size
      → Says
          (parse_message (line (codes "NICK" ∷ []) last rest) m)
          MessageType.nick
          (last_text last)
  unfolding message_type str_eq parse_as
  parse_message-nick filled short =
      rw (parse_message-command (codes "NICK") [] last rest m (word-IsMiddle _ _ refl, tt) h)
        (nick-Says (codes "NICK" ++ (0 ∷ [])) last rest _ h (ground arith) (ground arith))

  -- `TOPIC <channel>`, with a channel that is not empty and is a word or a text behind a colon,
  -- asks for the topic and carries none, but the struct's word for the topic keeps what the
  -- message before has left there.
  pub parse_message-topic_query :
      0 < length (last_text last)
      → let r = parse_message (line (codes "TOPIC" ∷ []) last rest) m in
        Says r MessageType.topic (last_text last) × (r.message.second ≡ m.second)
  unfolding message_type str_eq parse_as
  parse_message-topic_query filled =
      rw (parse_message-command (codes "TOPIC") [] last rest m (word-IsMiddle _ _ refl, tt) h)
        (topic_query-Says (codes "TOPIC" ++ (0 ∷ [])) last rest _ h (ground arith))
