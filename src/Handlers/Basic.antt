-- ===== src/Handlers/Basic.antt =====
-- src/handlers.c: the handlers for NICK, USER, PING, PONG, MOTD, LUSERS, WHOIS and unknown commands.
use circ.Base.{
  ℕ, zero, suc, ◌+◌, ◌/◌, ◌%◌, true, Option, none, some, List, [], ◌∷◌, Bytes, codes, length, take,
  drop, ◌==◌, if◌then◌else◌,
}
use circ.Base.Int.{ℤ, pos, negsuc}
use circ.Client.{client_try_register, client_try_change_nick}
use circ.Glib.{Glib, Response}
use circ.Irc.{IrcMessage, err_nonicknamegiven, err_needmoreparams, irc_msg_size}
use circ.Replies.{
  err_unknown_command, err_no_nickname_given, err_need_more_params, err_already_registered, pong,
  err_no_motd, rpl_motd_start, rpl_motd, rpl_end_of_motd, rpl_luser_client, rpl_luser_op,
  rpl_luser_unknown, rpl_luser_channels, rpl_luser_me, err_no_such_nick, rpl_whois_user,
  rpl_whois_server, rpl_end_of_whois,
}
use circ.Sending.{push_reply, enqueue}
use circ.World.{
  M, ◌>>=◌, ◌>>◌, pure, deref, get_server, load_client, modify_client, read_string, maybe,
}

-- The results 0 and -1.
abbrev pub done : ℤ
done = pos 0

abbrev pub failed : ℤ
failed = negsuc 0

abbrev pub motd_fragment_max : ℕ
motd_fragment_max = 80

-- `len / 80 + (len % 80 ? 1 : 0)`
unfoldable pub num_parts : ℕ → ℕ
num_parts len = len / motd_fragment_max + (if len % motd_fragment_max == 0 then 0 else 1)

-- The strings that `part` holds, one for each round: the argument counts the rounds left, and
-- `rest` is what `motd` points to. In the last round the NUL is written at `len % 80`.
unfoldable pub motd_parts : ℕ → ℕ → Bytes → List Bytes
motd_parts zero len rest = []
motd_parts (suc n) len rest =
    (if n == 0
      then take (len % motd_fragment_max) (take motd_fragment_max rest)
      else take motd_fragment_max rest)
    ∷ motd_parts n len (drop motd_fragment_max rest)

module _ ⦃g : Glib⦄ where
  -- The id under a nickname, 0 where there is none.
  unfoldable pub find_nick : Bytes → M ℕ
  find_nick nick = do
    s ← get_server
    pure (elim (g.strings.lookup s.nicks nick) [ none ↦ 0 | some id ↦ id ])

  -- The client under an id.
  unfoldable pub find_client : ℕ → M ℕ
  find_client id = do s ← get_server; deref (g.ints.lookup s.clients id)

  -- `if (response) g_queue_push_tail(responses, response)`
  unfoldable pub enqueue? : ℕ → Option Response → M (Unit {0})
  enqueue? client none = pure tt
  enqueue? client (some r) = enqueue client r

  unfoldable pub handler_unknown : ℕ → IrcMessage → M ℤ
  handler_unknown client message = do
    c ← load_client client
    command ← read_string client message.command
    push_reply client (err_unknown_command c command)
    pure done

  -- The end of `Handler_Nick`, after `Client_TryChangeNick`.
  unfoldable pub nick_changed : ℕ → Option Response → M ℤ
  nick_changed client (some r) = do enqueue client r; pure failed
  nick_changed client none = do r ← client_try_register client; enqueue? client r; pure done

  unfoldable pub handler_nick : ℕ → IrcMessage → M ℤ
  unfolding nick_changed
  handler_nick client message = do
    c ← load_client client
    if message.parse_err == err_nonicknamegiven
        then (do push_reply client (err_no_nickname_given c); pure failed)
        else (do
          nick ← read_string client message.first
          r ← client_try_change_nick client nick
          nick_changed client r)

  unfoldable pub handler_user : ℕ → IrcMessage → M ℤ
  handler_user client message = do
    c ← load_client client
    if message.parse_err == err_needmoreparams
        then (do push_reply client (err_need_more_params c (codes "USER")); pure failed)
        else if c.registered
        then (do push_reply client (err_already_registered c); pure failed)
        else (do
          username ← read_string client message.first
          fullname ← read_string client message.second
          modify_client client (λ d. record d {
            username = take irc_msg_size username;
            fullname = take irc_msg_size fullname;
            received_user = true;
          })
          r ← client_try_register client
          enqueue? client r
          pure done)

  unfoldable pub handler_ping : ℕ → IrcMessage → M ℤ
  handler_ping client message = do s ← get_server; push_reply client (pong s.hostname); pure done

  unfoldable pub handler_pong : ℕ → IrcMessage → M ℤ
  handler_pong client message = pure done

  unfoldable pub push_parts : ℕ → List Bytes → M (Unit {0})
  push_parts client [] = pure tt
  push_parts client (part ∷ rest) = do
    c ← load_client client
    push_reply client (rpl_motd c part)
    push_parts client rest

  unfoldable pub handler_motd : ℕ → IrcMessage → M ℤ
  unfolding motd_parts num_parts push_parts
  handler_motd client message = do
    c ← load_client client
    s ← get_server
    maybe s.motd (do push_reply client (err_no_motd c); pure failed)
        (λ motd. do
          push_reply client (rpl_motd_start c s.hostname)
          push_parts client (motd_parts (num_parts (length motd)) (length motd) motd)
          push_reply client (rpl_end_of_motd c)
          pure done)

  -- `if (n) push_reply(...)`
  unfoldable pub push_if : ℕ → M (Unit {0}) → M (Unit {0})
  push_if n m = if n == 0 then pure tt else m

  unfoldable pub handler_lusers : ℕ → IrcMessage → M ℤ
  handler_lusers client message = do
    c ← load_client client
    s ← get_server
    push_reply client (rpl_luser_client c s)
    push_if s.n_operators (push_reply client (rpl_luser_op c s))
    push_if s.n_unknown (push_reply client (rpl_luser_unknown c s))
    push_if s.n_channels (push_reply client (rpl_luser_channels c s))
    push_reply client (rpl_luser_me c s)
    pure done

  -- The three replies of a WHOIS that finds its client.
  unfoldable pub whois_found : ℕ → ℕ → M ℤ
  whois_found client queried = do
    c ← load_client client
    q ← load_client queried
    s ← get_server
    push_reply client (rpl_whois_user c q)
    push_reply client (rpl_whois_server c q s)
    push_reply client (rpl_end_of_whois c q)
    pure done

  -- `whois.mask` is the second word; NULL ends the handler.
  unfoldable pub handler_whois : ℕ → IrcMessage → M ℤ
  unfolding whois_found
  handler_whois client message = maybe message.second (pure done) (λ p. do
    c ← load_client client
    nick ← read_string client (some p)
    id ← find_nick nick
    if id == 0
        then (do push_reply client (err_no_such_nick c nick); pure failed)
        else (do queried ← find_client id; whois_found client queried))
