-- ===== src/Frame/Dispatch.antt =====
-- The table of handlers of src/handlers.c, and what `Client_HandleRead` of src/client.c makes of it.
use circ.Base.{ℕ}
use circ.Base.Int.{ℤ, pos, negsuc}
use circ.Glib.{Glib}
use circ.Handlers.{handle_as, handle_message}
use circ.HandleRead.{run_handler}
use circ.Irc.{MessageType, IrcMessage}
use circ.Frame.{Allows}
use circ.Frame.Replying.{
  Keeps-handler_unknown, Keeps-handler_nick, Keeps-handler_user, Keeps-handler_ping,
  Keeps-handler_pong, Keeps-handler_motd, Keeps-handler_lusers, Keeps-handler_whois,
  Keeps-handler_privmsg, Keeps-handler_away,
}
use circ.Frame.Rooms.{
  Keeps-handler_join, Keeps-handler_part, Keeps-handler_topic, Keeps-handler_list,
  Keeps-handler_names,
}
use circ.World.{World}
use circ.World.Keeps.{Keeps, Keeps-pure, Keeps-fault, run_rules}

module _ ⦃g : Glib⦄ {P : World → Type 0} {me : ℕ} (allows : Allows P me) where
  Keeps-handle_as : (t : MessageType) (message : IrcMessage) → Keeps P (handle_as t me message)
  unfolding handle_as
  Keeps-handle_as MessageType.unknown message = Keeps-handler_unknown allows message
  Keeps-handle_as MessageType.user message = Keeps-handler_user allows message
  Keeps-handle_as MessageType.nick message = Keeps-handler_nick allows message
  Keeps-handle_as MessageType.privmsg message = Keeps-handler_privmsg allows message
  Keeps-handle_as MessageType.notice message = Keeps-fault
  Keeps-handle_as MessageType.ping message = Keeps-handler_ping allows message
  Keeps-handle_as MessageType.pong message = Keeps-handler_pong allows message
  Keeps-handle_as MessageType.motd message = Keeps-handler_motd allows message
  Keeps-handle_as MessageType.lusers message = Keeps-handler_lusers allows message
  Keeps-handle_as MessageType.whois message = Keeps-handler_whois allows message
  Keeps-handle_as MessageType.join message = Keeps-handler_join allows message
  Keeps-handle_as MessageType.part message = Keeps-handler_part allows message
  Keeps-handle_as MessageType.topic message = Keeps-handler_topic allows message
  Keeps-handle_as MessageType.list message = Keeps-handler_list allows message
  Keeps-handle_as MessageType.names message = Keeps-handler_names allows message
  Keeps-handle_as MessageType.away message = Keeps-handler_away allows message

  pub Keeps-handle_message : (message : IrcMessage) → Keeps P (handle_message me message)
  unfolding handle_message
  Keeps-handle_message message = Keeps-handle_as message.type message

  pub Keeps-run_handler : (code : ℤ) (message : IrcMessage) → Keeps P (run_handler code me message)
  unfolding run_handler
  Keeps-run_handler (negsuc n) message = Keeps-pure tt
  Keeps-run_handler (pos n) message = search (run_rules, Keeps-handle_message)
