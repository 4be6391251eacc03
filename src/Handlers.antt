-- ===== src/Handlers.antt =====
-- src/handlers.c: `Handler_HandleMessage`, over the handlers of the child modules.
pub mod Basic
pub mod Talk
pub mod Rooms
pub mod Fragments
pub mod Delivery
use circ.Base.{ℕ}
use circ.Base.Int.{ℤ}
use circ.Glib.{Glib}
use circ.Irc.{MessageType, IrcMessage}
use circ.World.{M, fault}
use Basic.{
  handler_unknown, handler_nick, handler_user, handler_ping, handler_pong, handler_motd,
  handler_lusers, handler_whois,
}
use Talk.{handler_privmsg, handler_away}
use Rooms.{handler_join, handler_part, handler_list, handler_topic, handler_names}

module _ ⦃g : Glib⦄ where
  -- The table `handlers2`; no handler is registered for NOTICE.
  unfoldable pub handle_as : MessageType → ℕ → IrcMessage → M ℤ
  handle_as MessageType.unknown client message = handler_unknown client message
  handle_as MessageType.user client message = handler_user client message
  handle_as MessageType.nick client message = handler_nick client message
  handle_as MessageType.privmsg client message = handler_privmsg client message
  handle_as MessageType.notice client message = fault
  handle_as MessageType.ping client message = handler_ping client message
  handle_as MessageType.pong client message = handler_pong client message
  handle_as MessageType.motd client message = handler_motd client message
  handle_as MessageType.lusers client message = handler_lusers client message
  handle_as MessageType.whois client message = handler_whois client message
  handle_as MessageType.join client message = handler_join client message
  handle_as MessageType.part client message = handler_part client message
  handle_as MessageType.topic client message = handler_topic client message
  handle_as MessageType.list client message = handler_list client message
  handle_as MessageType.names client message = handler_names client message
  handle_as MessageType.away client message = handler_away client message

  unfoldable pub handle_message : ℕ → IrcMessage → M ℤ
  unfolding handle_as
  handle_message client message = handle_as message.type client message
