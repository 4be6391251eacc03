-- ===== src/Replies.antt =====
-- src/replies.c and include/replies.h: the text of every reply. A reply is its text and whether it
-- is written by `snprintf` with the size of the buffer, or by `sprintf` with none.
pub mod Decimal
pub mod Channels
use circ.Base.{
  ℕ, ◌+◌, ◌%◌, ◌^◌, Bool, true, false, List, [], ◌∷◌, ◌++◌, Bytes, codes, if◌then◌else◌,
}
use circ.Glib.{Glib}
use circ.World.{Client, Server}
use Decimal.{decimal, decimal3, signed_decimal}

pub record Reply : Type 0 where
  pub bounded : Bool
  pub text : Bytes

-- The pieces of a format in a row.
abbrev pub concat : List Bytes → Bytes
concat [] = []
concat (s ∷ rest) = s ++ concat rest

abbrev pub sprintf : List Bytes → Reply
sprintf pieces = record { bounded = false; text = concat pieces }

abbrev pub snprintf : List Bytes → Reply
snprintf pieces = record { bounded = true; text = concat pieces }

module _ ⦃g : Glib⦄ where
  -- `NICK_OR_STAR(client)`
  unfoldable pub nick_or_star : Client → Bytes
  nick_or_star c = if c.received_nick then c.nickname else codes "*"

  unfoldable pub rpl_welcome : Client → Reply
  rpl_welcome client = sprintf (
      decimal3 1
      ∷ codes " "
      ∷ client.nickname
      ∷ codes " :Welcome to the Internet Relay Network "
      ∷ client.nickname
      ∷ codes "!"
      ∷ client.username
      ∷ codes "@"
      ∷ client.hostname
      ∷ codes "\r\n"
      ∷ [])

  unfoldable pub rpl_motd_start : Client → Bytes → Reply
  rpl_motd_start client server = sprintf (
      decimal 375
      ∷ codes " "
      ∷ nick_or_star client
      ∷ codes " :- "
      ∷ server
      ∷ codes " Message of the day - \r\n"
      ∷ [])

  unfoldable pub rpl_motd : Client → Bytes → Reply
  rpl_motd client part =
      sprintf
        (decimal 372 ∷ codes " " ∷ nick_or_star client ∷ codes " :- " ∷ part ∷ codes "\r\n" ∷ [])

  unfoldable pub rpl_end_of_motd : Client → Reply
  rpl_end_of_motd client =
      sprintf
        (decimal 376 ∷ codes " " ∷ nick_or_star client ∷ codes " :End of MOTD command\r\n" ∷ [])

  unfoldable pub err_no_such_nick : Client → Bytes → Reply
  err_no_such_nick client nick = sprintf (
      decimal 401
      ∷ codes " "
      ∷ nick_or_star client
      ∷ codes " "
      ∷ nick
      ∷ codes " :No such nick/channel\r\n"
      ∷ [])

  unfoldable pub err_no_motd : Client → Reply
  err_no_motd client =
      snprintf
        (decimal 422 ∷ codes " " ∷ nick_or_star client ∷ codes " :MOTD File is missing\r\n" ∷ [])

  unfoldable pub err_no_nickname_given : Client → Reply
  err_no_nickname_given client =
      sprintf (decimal 431 ∷ codes " " ∷ nick_or_star client ∷ codes " :No nickname given\r\n" ∷ [])

  unfoldable pub err_nickname_in_use : Client → Bytes → Reply
  err_nickname_in_use client failed_nick = sprintf (
      decimal 433
      ∷ codes " "
      ∷ nick_or_star client
      ∷ codes " "
      ∷ failed_nick
      ∷ codes " :Nickname is already in use\r\n"
      ∷ [])

  unfoldable pub err_need_more_params : Client → Bytes → Reply
  err_need_more_params client failed_command = sprintf (
      decimal 461
      ∷ codes " "
      ∷ nick_or_star client
      ∷ codes " "
      ∷ failed_command
      ∷ codes " :Not enough parameters\r\n"
      ∷ [])

  unfoldable pub err_no_recipient : Client → Bytes → Reply
  err_no_recipient client command = sprintf (
      decimal 411
      ∷ codes " "
      ∷ nick_or_star client
      ∷ codes " :No recipient given ("
      ∷ command
      ∷ codes ")\r\n"
      ∷ [])

  unfoldable pub err_no_text_to_send : Client → Reply
  err_no_text_to_send client =
      sprintf (decimal 412 ∷ codes " " ∷ nick_or_star client ∷ codes " :No text to send\r\n" ∷ [])

  -- LUSERS
  unfoldable pub rpl_luser_client : Client → Server → Reply
  rpl_luser_client client server = snprintf (
      codes "251 "
      ∷ client.nickname
      ∷ codes " :There are "
      ∷ signed_decimal server.n_users
      ∷ codes " users and "
      ∷ signed_decimal server.n_services
      ∷ codes " services on "
      ∷ decimal 1
      ∷ codes " servers\r\n"
      ∷ [])

  unfoldable pub rpl_luser_op : Client → Server → Reply
  rpl_luser_op client server = snprintf (
      codes "252 "
      ∷ client.nickname
      ∷ codes " "
      ∷ signed_decimal server.n_operators
      ∷ codes " :operator(s) online\r\n"
      ∷ [])

  unfoldable pub rpl_luser_unknown : Client → Server → Reply
  rpl_luser_unknown client server = snprintf (
      codes "253 "
      ∷ client.nickname
      ∷ codes " "
      ∷ signed_decimal server.n_unknown
      ∷ codes " :unknown connection(s)\r\n"
      ∷ [])

  unfoldable pub rpl_luser_channels : Client → Server → Reply
  rpl_luser_channels client server = snprintf (
      codes "254 "
      ∷ client.nickname
      ∷ codes " "
      ∷ signed_decimal server.n_channels
      ∷ codes " :channels formed\r\n"
      ∷ [])

  unfoldable pub rpl_luser_me : Client → Server → Reply
  rpl_luser_me client server = snprintf (
      codes "255 "
      ∷ client.nickname
      ∷ codes " :I have "
      ∷ signed_decimal ((server.n_users + server.n_unknown) % 2 ^ 32)
      ∷ codes " clients and "
      ∷ signed_decimal server.n_services
      ∷ codes " servers\r\n"
      ∷ [])

  -- WHOIS
  unfoldable pub rpl_whois_user : Client → Client → Reply
  rpl_whois_user client queried = snprintf (
      codes "311 "
      ∷ client.nickname
      ∷ codes " "
      ∷ queried.nickname
      ∷ codes " "
      ∷ queried.username
      ∷ codes " "
      ∷ queried.hostname
      ∷ codes " * :"
      ∷ queried.fullname
      ∷ codes "\r\n"
      ∷ [])

  unfoldable pub rpl_whois_server : Client → Client → Server → Reply
  rpl_whois_server client queried server = snprintf (
      codes "312 "
      ∷ client.nickname
      ∷ codes " "
      ∷ queried.nickname
      ∷ codes " "
      ∷ server.hostname
      ∷ codes " :cIRC, version 0.1\r\n"
      ∷ [])

  unfoldable pub rpl_end_of_whois : Client → Client → Reply
  rpl_end_of_whois client queried = snprintf (
      codes "318 "
      ∷ client.nickname
      ∷ codes " "
      ∷ queried.nickname
      ∷ codes " :End of WHOIS list\r\n"
      ∷ [])

  unfoldable pub err_already_registered : Client → Reply
  err_already_registered client =
      sprintf
        (decimal 462 ∷ codes " " ∷ client.nickname ∷ codes " :You may not reregister\r\n" ∷ [])

  unfoldable pub err_unknown_command : Client → Bytes → Reply
  err_unknown_command client unknown_command = sprintf (
      decimal 421
      ∷ codes " "
      ∷ nick_or_star client
      ∷ codes " "
      ∷ unknown_command
      ∷ codes " :Unknown command\r\n"
      ∷ [])

  -- No final CRLF in the source.
  unfoldable pub err_not_registered : Client → Reply
  err_not_registered client =
      sprintf
        (decimal 451 ∷ codes " " ∷ nick_or_star client ∷ codes " :You have not registered" ∷ [])

-- No client is named in a PONG.
unfoldable pub pong : Bytes → Reply
pong hostname = sprintf (codes "PONG " ∷ hostname ∷ codes "\r\n" ∷ [])
