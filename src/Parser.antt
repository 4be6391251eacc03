-- ===== src/Parser.antt =====
-- src/parser.c: `parse_message` and its parsers. The message struct is written in place and keeps
-- from the last message what a parser does not set, so it is an argument and a result. The tokens
-- stay in the buffer, and the struct holds their indices.
pub mod Encode
pub mod Bounds
pub mod Commands
use circ.Base.{
  ℕ, Bool, true, false, ◌||◌, Option, none, some, List, [], ◌∷◌, Bytes, Ptr, codes, string_at,
  str_eq, ltb, ◌==◌, if◌then◌else◌,
}
use circ.Base.Int.{ℤ, pos, negsuc}
use circ.Irc.{
  MessageType, IrcMessage, nick_max_size, err_norecipient, err_notexttosend, err_nonicknamegiven,
  err_erroneusnickname, err_needmoreparams,
}
use circ.Msgtok.{Token, msgtok_r}

-- The result of a parser, with the buffer and the struct after the call.
pub record Parsed : Type 0 where
  pub code : ℤ
  pub buf : Bytes
  pub message : IrcMessage

abbrev pub is_null : Ptr → Bool
is_null none = true
is_null (some _) = false

-- `tok == NULL || toklen == 0`
abbrev pub is_missing : Token → Bool
is_missing t = is_null t.tok || t.toklen == 0

-- `message->parse_err = err; return err;`
abbrev pub fail : Bytes → IrcMessage → ℕ → Parsed
fail buf m e = record { code = pos e; buf = buf; message = record m { parse_err = e } }

-- `return 0;`
abbrev pub done : Bytes → IrcMessage → Parsed
done buf m = record { code = pos 0; buf = buf; message = m }

unfoldable pub parse_message_nick : Bytes → IrcMessage → Ptr → Parsed
parse_message_nick buf message saveptr =
    let m = record message { type = MessageType.nick } in
    let t = msgtok_r buf none saveptr in
    if is_missing t
    then fail t.buf m err_nonicknamegiven
    else if ltb nick_max_size t.toklen
    then fail t.buf m err_erroneusnickname
    else done t.buf (record m { first = t.tok; parse_err = 0 })

unfoldable pub parse_message_user : Bytes → IrcMessage → Ptr → Parsed
parse_message_user buf message saveptr =
    let m = record message { type = MessageType.user } in
    let t = msgtok_r buf none saveptr in
    if is_missing t
    then fail t.buf m err_needmoreparams
    else (let m1 = record m { first = t.tok } in
        let mode = msgtok_r t.buf none t.saveptr in
        if is_null mode.tok
        then fail mode.buf m1 err_needmoreparams
        else (let unused = msgtok_r mode.buf none mode.saveptr in
            if is_null unused.tok
            then fail unused.buf m1 err_needmoreparams
            else (let real = msgtok_r unused.buf none unused.saveptr in
                if is_null real.tok
                then fail real.buf m1 err_needmoreparams
                else done real.buf (record m1 { second = real.tok; parse_err = 0 }))))

unfoldable pub parse_message_privmsg : Bytes → IrcMessage → Ptr → Parsed
parse_message_privmsg buf message saveptr =
    let m = record message { type = MessageType.privmsg } in
    let t = msgtok_r buf none saveptr in
    if is_missing t
    then fail t.buf m err_norecipient
    else (let m1 = record m { first = t.tok } in
        let text = msgtok_r t.buf none t.saveptr in
        if is_null text.tok
        then fail text.buf m1 err_notexttosend
        else done text.buf (record m1 { second = text.tok; parse_err = 0 }))

unfoldable pub parse_message_ping : Bytes → IrcMessage → Ptr → Parsed
parse_message_ping buf message saveptr = done buf (record message { type = MessageType.ping })

unfoldable pub parse_message_pong : Bytes → IrcMessage → Ptr → Parsed
parse_message_pong buf message saveptr = done buf (record message { type = MessageType.pong })

unfoldable pub parse_message_motd : Bytes → IrcMessage → Ptr → Parsed
parse_message_motd buf message saveptr = done buf (record message { type = MessageType.motd })

unfoldable pub parse_message_lusers : Bytes → IrcMessage → Ptr → Parsed
parse_message_lusers buf message saveptr = done buf (record message { type = MessageType.lusers })

-- `whois.mask` is the second word.
unfoldable pub parse_message_whois : Bytes → IrcMessage → Ptr → Parsed
parse_message_whois buf message saveptr =
    let t = msgtok_r buf none saveptr in
    done t.buf (record message { type = MessageType.whois; second = t.tok })

unfoldable pub parse_message_join : Bytes → IrcMessage → Ptr → Parsed
parse_message_join buf message saveptr =
    let m = record message { type = MessageType.join } in
    let t = msgtok_r buf none saveptr in
    elim t.tok [
      | none ↦ fail t.buf m err_needmoreparams
      | some p ↦
          if t.toklen == 0
          then fail t.buf m err_needmoreparams
          else if str_eq (string_at t.buf p) (codes "0")
          then done t.buf (record m { leave_all = 1 })
          else done t.buf (record m { first = some p; parse_err = 0 })
    ]

unfoldable pub parse_message_part : Bytes → IrcMessage → Ptr → Parsed
parse_message_part buf message saveptr =
    let m = record message { type = MessageType.part } in
    let t = msgtok_r buf none saveptr in
    if is_missing t
    then fail t.buf m err_needmoreparams
    else (let m1 = record m { first = t.tok } in
        let text = msgtok_r t.buf none t.saveptr in
        if is_missing text
        then done text.buf (record m1 { second = none; parse_err = 0 })
        else done text.buf (record m1 { second = text.tok; parse_err = 0 }))

unfoldable pub parse_message_list : Bytes → IrcMessage → Ptr → Parsed
parse_message_list buf message saveptr =
    let m = record message { type = MessageType.list } in
    let t = msgtok_r buf none saveptr in
    if is_missing t then done t.buf m else done t.buf (record m { first = t.tok; parse_err = 0 })

unfoldable pub parse_message_topic : Bytes → IrcMessage → Ptr → Parsed
parse_message_topic buf message saveptr =
    let m = record message { type = MessageType.topic } in
    let t = msgtok_r buf none saveptr in
    if is_missing t
    then fail t.buf m err_needmoreparams
    else (let m1 = record m { first = t.tok } in
        let text = msgtok_r t.buf none t.saveptr in
        if is_null text.tok
        then done text.buf (record m1 { parse_err = 0 })
        else done text.buf (record m1 { second = text.tok; parse_err = 0 }))

unfoldable pub parse_message_names : Bytes → IrcMessage → Ptr → Parsed
parse_message_names buf message saveptr =
    let t = msgtok_r buf none saveptr in
    done t.buf (record message { type = MessageType.names; first = t.tok })

unfoldable pub parse_message_away : Bytes → IrcMessage → Ptr → Parsed
parse_message_away buf message saveptr =
    let t = msgtok_r buf none saveptr in
    done t.buf (record message { type = MessageType.away; first = t.tok })

-- The ladder of `strcmp` in `parse_message`, on the command's text.
unfoldable pub message_type : Bytes → MessageType
unfolding str_eq
message_type s =
    if str_eq s (codes "NICK")
    then MessageType.nick
    else if str_eq s (codes "USER")
    then MessageType.user
    else if str_eq s (codes "PING")
    then MessageType.ping
    else if str_eq s (codes "PONG")
    then MessageType.pong
    else if str_eq s (codes "MOTD")
    then MessageType.motd
    else if str_eq s (codes "PRIVMSG")
    then MessageType.privmsg
    else if str_eq s (codes "LUSERS")
    then MessageType.lusers
    else if str_eq s (codes "WHOIS")
    then MessageType.whois
    else if str_eq s (codes "JOIN")
    then MessageType.join
    else if str_eq s (codes "PART")
    then MessageType.part
    else if str_eq s (codes "LIST")
    then MessageType.list
    else if str_eq s (codes "TOPIC")
    then MessageType.topic
    else if str_eq s (codes "NAMES")
    then MessageType.names
    else if str_eq s (codes "AWAY")
    then MessageType.away
    else MessageType.unknown

-- The parser that each branch of the ladder calls. No command is a NOTICE.
unfoldable pub parse_as : MessageType → Bytes → IrcMessage → Ptr → Parsed
parse_as MessageType.nick buf m p = parse_message_nick buf m p
parse_as MessageType.user buf m p = parse_message_user buf m p
parse_as MessageType.ping buf m p = parse_message_ping buf m p
parse_as MessageType.pong buf m p = parse_message_pong buf m p
parse_as MessageType.motd buf m p = parse_message_motd buf m p
parse_as MessageType.privmsg buf m p = parse_message_privmsg buf m p
parse_as MessageType.lusers buf m p = parse_message_lusers buf m p
parse_as MessageType.whois buf m p = parse_message_whois buf m p
parse_as MessageType.join buf m p = parse_message_join buf m p
parse_as MessageType.part buf m p = parse_message_part buf m p
parse_as MessageType.list buf m p = parse_message_list buf m p
parse_as MessageType.topic buf m p = parse_message_topic buf m p
parse_as MessageType.names buf m p = parse_message_names buf m p
parse_as MessageType.away buf m p = parse_message_away buf m p
parse_as _ buf m p = done buf (record m { type = MessageType.unknown })

-- `saveptr` is uninitialised before the first call; `msgtok_r` does not read it there.
unfoldable pub parse_message : Bytes → IrcMessage → Parsed
parse_message buf message =
    let t = msgtok_r buf (some 0) none in
    elim t.tok [
      | none ↦ record { code = negsuc 0; buf = t.buf; message = message }
      | some p ↦
          if t.toklen == 0
          then record { code = negsuc 0; buf = t.buf; message = message }
          else parse_as (message_type (string_at t.buf p)) t.buf
              (record message { command = some p }) t.saveptr
    ]
