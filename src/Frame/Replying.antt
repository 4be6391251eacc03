-- ===== src/Frame/Replying.antt =====
-- The handlers of src/handlers.c for NICK, USER, PING, PONG, MOTD, LUSERS, WHOIS, PRIVMSG and
-- AWAY.
use circ.Base.{ℕ, Ptr, refl, true, Option, none, some, Bytes, List, [], ◌∷◌, take}
use circ.Glib.{Glib, Response}
use circ.Handlers.Basic.{
  handler_unknown, handler_nick, handler_user, handler_ping, handler_pong, handler_motd,
  handler_lusers, handler_whois, push_parts, push_if, find_nick, find_client, enqueue?,
  nick_changed, whois_found,
}
use circ.Handlers.Talk.{
  handler_privmsg, handler_away, privmsg_channel, privmsg_deliver, privmsg_nick,
}
use circ.Irc.{IrcMessage, irc_msg_size}
use circ.Frame.{Allows}
use circ.Frame.Forward.{Keeps-format, Keeps-channel_sendall_privmsg}
use circ.Client.{client_set_away, client_unset_away, client_try_register, client_try_change_nick}
use circ.Replies.{Reply}
use circ.Sending.{enqueue, push_reply, client_send}
use circ.World.{World, M, modify_client, lower_in_place}
use circ.World.Keeps.{
  Keeps, Keeps-fault, Keeps-pure, Keeps-bind, Keeps-seq, Keeps-load_client, run_rules,
}

module _ ⦃g : Glib⦄ {P : World → Type 0} {me : ℕ} (allows : Allows P me) where
  Keeps-enqueue : (r : Response) → Keeps P (enqueue me r)
  Keeps-enqueue = allows.queue

  Keeps-client_send : (target : ℕ) (r : Response) → Keeps P (client_send target r)
  Keeps-client_send = allows.send

  Keeps-client_try_register : Keeps P (client_try_register me)
  Keeps-client_try_register = allows.register

  Keeps-client_try_change_nick : (nick : Bytes) → Keeps P (client_try_change_nick me nick)
  Keeps-client_try_change_nick = allows.rename

  pub Keeps-push_reply : (r : Reply) → Keeps P (push_reply me r)
  unfolding push_reply
  Keeps-push_reply r = search (run_rules, Keeps-format, Keeps-enqueue)

  pub Keeps-lower_in_place : (s : Ptr) → Keeps P (lower_in_place me s)
  unfolding lower_in_place
  Keeps-lower_in_place none = Keeps-fault
  Keeps-lower_in_place (some s) = allows.client _ (λ c. ((refl, refl), refl))

  Keeps-client_set_away : (text : Bytes) → Keeps P (client_set_away me text)
  unfolding client_set_away
  Keeps-client_set_away text = allows.client _ (λ c. ((refl, refl), refl))

  Keeps-client_unset_away : Keeps P (client_unset_away me)
  unfolding client_unset_away
  Keeps-client_unset_away = allows.client _ (λ c. ((refl, refl), refl))

  ruleset replying = (run_rules, Keeps-format, Keeps-push_reply, Keeps-enqueue)

  Keeps-find_nick : (nick : Bytes) → Keeps P (find_nick nick)
  unfolding find_nick
  Keeps-find_nick nick = search replying

  Keeps-find_client : (id : ℕ) → Keeps P (find_client id)
  unfolding find_client
  Keeps-find_client id = search replying

  Keeps-enqueue? : (r : Option Response) → Keeps P (enqueue? me r)
  unfolding enqueue?
  Keeps-enqueue? none = search replying
  Keeps-enqueue? (some r) = search replying

  pub Keeps-handler_unknown : (message : IrcMessage) → Keeps P (handler_unknown me message)
  unfolding handler_unknown
  Keeps-handler_unknown message = search replying depth 12

  Keeps-nick_changed : (r : Option Response) → Keeps P (nick_changed me r)
  unfolding nick_changed
  Keeps-nick_changed none = search (replying, Keeps-client_try_register, Keeps-enqueue?) depth 12
  Keeps-nick_changed (some r) = search replying depth 12

  pub Keeps-handler_nick : (message : IrcMessage) → Keeps P (handler_nick me message)
  unfolding handler_nick
  Keeps-handler_nick message =
      search (replying, Keeps-client_try_change_nick, Keeps-nick_changed) depth 15

  Keeps-set_user :
      (username fullname : Bytes)
      → Keeps P (
          modify_client me (λ d. record d {
            username = take irc_msg_size username;
            fullname = take irc_msg_size fullname;
            received_user = true;
          }))
  Keeps-set_user username fullname = allows.client _ (λ d. ((refl, refl), refl))

  pub Keeps-handler_user : (message : IrcMessage) → Keeps P (handler_user me message)
  unfolding handler_user
  Keeps-handler_user message =
      search (replying, Keeps-set_user, Keeps-client_try_register, Keeps-enqueue?) depth 18

  pub Keeps-handler_ping : (message : IrcMessage) → Keeps P (handler_ping me message)
  unfolding handler_ping
  Keeps-handler_ping message = search replying depth 12

  pub Keeps-handler_pong : (message : IrcMessage) → Keeps P (handler_pong me message)
  unfolding handler_pong
  Keeps-handler_pong message = search replying depth 12

  Keeps-push_parts : (parts : List Bytes) → Keeps P (push_parts me parts)
  unfolding push_parts
  Keeps-push_parts [] = Keeps-pure tt
  Keeps-push_parts (part ∷ rest) =
      Keeps-bind _ _ (Keeps-load_client me)
        (λ c. Keeps-seq _ _ (Keeps-push_reply _) (Keeps-push_parts rest))

  pub Keeps-handler_motd : (message : IrcMessage) → Keeps P (handler_motd me message)
  unfolding handler_motd
  Keeps-handler_motd message = search (replying, Keeps-push_parts) depth 15

  Keeps-push_if : (n : ℕ) (m : M (Unit {0})) → Keeps P m → Keeps P (push_if n m)
  unfolding push_if
  Keeps-push_if n m k = search run_rules

  pub Keeps-handler_lusers : (message : IrcMessage) → Keeps P (handler_lusers me message)
  unfolding handler_lusers
  Keeps-handler_lusers message = search (replying, Keeps-push_if) depth 18

  Keeps-whois_found : (queried : ℕ) → Keeps P (whois_found me queried)
  unfolding whois_found
  Keeps-whois_found queried = search replying depth 15

  pub Keeps-handler_whois : (message : IrcMessage) → Keeps P (handler_whois me message)
  unfolding handler_whois
  Keeps-handler_whois message =
      search (replying, Keeps-find_nick, Keeps-find_client, Keeps-whois_found) depth 15

  Keeps-privmsg_channel :
      (target : Bytes) (message : IrcMessage) → Keeps P (privmsg_channel me target message)
  unfolding privmsg_channel
  Keeps-privmsg_channel target message =
      search (replying, Keeps-channel_sendall_privmsg Keeps-client_send) depth 15

  Keeps-privmsg_deliver :
      (target : ℕ) (name : Bytes) (message : IrcMessage)
      → Keeps P (privmsg_deliver me target name message)
  unfolding privmsg_deliver
  Keeps-privmsg_deliver target name message = search (replying, Keeps-client_send) depth 18

  Keeps-privmsg_nick :
      (name : Bytes) (message : IrcMessage) → Keeps P (privmsg_nick me name message)
  unfolding privmsg_nick
  Keeps-privmsg_nick name message =
      search (replying, Keeps-find_nick, Keeps-find_client, Keeps-privmsg_deliver) depth 15

  pub Keeps-handler_privmsg : (message : IrcMessage) → Keeps P (handler_privmsg me message)
  unfolding handler_privmsg
  Keeps-handler_privmsg message =
      search (replying, Keeps-privmsg_channel, Keeps-privmsg_nick) depth 15

  pub Keeps-handler_away : (message : IrcMessage) → Keeps P (handler_away me message)
  unfolding handler_away
  Keeps-handler_away message =
      search (replying, Keeps-client_set_away, Keeps-client_unset_away) depth 15
