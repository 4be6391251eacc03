-- ===== src/Irc.antt =====
-- include/irc.h, include/codes.h and include/irc_constants.h: the parsed message and the numerics.
use circ.Base.{ℕ, Ptr}

-- `enum irc_message_type`. INVALID is never stored.
pub data MessageType : Type 0 where
  unknown user nick privmsg notice ping pong motd lusers whois : MessageType
  join part topic list names away : MessageType

-- `struct irc_message`. The union's members are structs of one to three words, so the union is
-- three words that the members share: `first` is `nick`, `username`, `msgtarget`, `channels`,
-- `channel`, `text` and the masks' `target`; `second` is `fullname`, `contents`, `part_message`,
-- `topic`, `keys`, `server` and `mask`; `leave_all` is the third word, of `join` alone.
pub record IrcMessage : Type 0 where
  pub type : MessageType
  pub command : Ptr
  pub parse_err : ℕ
  pub first : Ptr
  pub second : Ptr
  pub leave_all : ℕ

abbrev pub nick_max_size : ℕ
nick_max_size = 9

abbrev pub irc_msg_size : ℕ
irc_msg_size = 512

abbrev pub err_norecipient : ℕ
err_norecipient = 411

abbrev pub err_notexttosend : ℕ
err_notexttosend = 412

abbrev pub err_nonicknamegiven : ℕ
err_nonicknamegiven = 431

abbrev pub err_erroneusnickname : ℕ
err_erroneusnickname = 432

abbrev pub err_needmoreparams : ℕ
err_needmoreparams = 461
