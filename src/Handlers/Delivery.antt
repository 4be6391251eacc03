-- ===== src/Handlers/Delivery.antt =====
-- src/handlers.c: a PRIVMSG to a nickname reaches the client that bears it.
use circ.Base.{
  ℕ, ◌≡◌, ◌≤◌, refl, sym, ap, ◌∙◌, List, append-nil, ==_iff, Bool, true, false, Option, none, some,
  [], ◌∷◌, ◌++◌, Bytes, length, string_at, arith, ◌==◌, if◌then◌else◌, take,
}
use circ.Base.Int.{ℤ}
use circ.Channel.Delivery.{whole, format-whole}
use circ.Glib.{Glib, Response}
use circ.Handlers.Basic.{done, find_nick, find_client}
use circ.Handlers.Talk.{names_channel, privmsg_deliver, privmsg_nick, handler_privmsg}
use circ.Irc.{IrcMessage, irc_msg_size, err_norecipient, err_notexttosend}
use circ.Registry.{who, IsRegistry}
use circ.Replies.{Reply}
use circ.Replies.Channels.{message_privmsg, rpl_away}
use circ.Sending.{format, enqueue, push_reply}
use circ.Sending.Delivery.{IsReady, fd_at, client_send-IsDelivered}
use circ.World.{
  Client, Server, World, ok, M, pure, ◌>>=◌, ◌>>◌, get_server, deref, read_string, update,
}
use circ.World.Runs.{bind-ok, seq-ok, load_client-ok, modify_client-ok}

module _ ⦃g : Glib⦄ where
  -- A bounded reply, cut to 512 bytes.
  abbrev pub cut : Reply → Response
  cut r = record { response = take irc_msg_size r.text; len = length r.text }

  -- What the client `c` is told of the client `t` that it has written to.
  abbrev pub away_reply : Client → Server → Client → List Response
  away_reply c s t = if t.away then cut (rpl_away c s t.nickname t.away_message) ∷ [] else []

  -- The writes `l` stand at the end of the log, and the responses `waiting` in the queue of the
  -- client `p`, which is otherwise as it was.
  pub record IsTold (w : World) (p : ℕ) (c : Client) (l : List (ℕ × Response))
      (waiting : List Response) (v : World) : Type 0 where
    pub queue : g.queues.Queue
    pub here : v.client_at p ≡ some (record c { responses = queue })
    pub waits : g.queues.elements queue ≡ waiting
    pub sent : v.sent ≡ w.sent ++ l

  pub read_string-ok :
      (w : World) (p k : ℕ) (c : Client)
      → w.client_at p ≡ some c
      → read_string p (some k) w ≡ ok (string_at c.conn.message k) w
  unfolding read_string pure
  read_string-ok w p k c here = bind-ok _ _ w c w (load_client-ok p w c here)

  -- A bounded reply can be put in the queue of any client.
  push-IsTold :
      (w : World) (p : ℕ) (c : Client) (r : Reply)
      → w.client_at p ≡ some c
      → g.queues.elements c.responses ≡ []
      → r.bounded ≡ true
      → (v : World) × ((push_reply p r >> pure done) w ≡ ok done v) × IsTold w p c [] (cut r ∷ []) v
  unfolding push_reply format enqueue pure
  push-IsTold w p c r here idle bounded =
      let f : Client → Client =
        λ d. record d { responses = g.queues.push_tail d.responses (cut r) } in
      let v : World = record w { client_at = update w.client_at p (some (f c)) } in
      let formatted : format r w ≡ ok (cut r) w = ground (arith, bounded) in
      let same : p == p ≡ true = (==_iff p p).1 refl in
      (
        v,
        seq-ok _ _ w v (bind-ok (format r) _ w (cut r) w formatted ∙ modify_client-ok p f w c here),
        record {
          queue = (f c).responses;
          here = rw same refl;
          waits =
              g.queues.elements-push_tail c.responses (cut r) ∙ ap (λ l. l ++ (cut r ∷ [])) idle;
          sent = sym (append-nil w.sent);
        },
      )

  -- The end of the handler: the sender is told of a target that is away.
  tell-IsTold :
      (w : World) (p : ℕ) (c : Client) (b : Bool) (r : Reply)
      → w.client_at p ≡ some c
      → g.queues.elements c.responses ≡ []
      → r.bounded ≡ true
      → (v : World) × ((if b then push_reply p r >> pure done else pure done) w ≡ ok done v)
        × IsTold w p c [] (if b then cut r ∷ [] else []) v
  unfolding pure
  tell-IsTold w p c true r here idle bounded = push-IsTold w p c r here idle bounded
  tell-IsTold w p c false r here idle bounded = (
    w,
    refl,
    record { queue = c.responses; here = here; waits = idle; sent = sym (append-nil w.sent) },
  )

  away_bounded :
      (me : Client) (s : Server) (nick text : Bytes) → (rpl_away me s nick text).bounded ≡ true
  unfolding rpl_away
  away_bounded me s nick text = refl

  away_reply-responses :
      (c : Client) (s : Server) (t : Client) (x y : g.queues.Queue)
      → away_reply (record c { responses = x }) s (record t { responses = y }) ≡ away_reply c s t
  unfolding rpl_away
  away_reply-responses c s t x y = refl

  -- `privmsg_deliver` where the target and the sender have nothing else to be written.
  deliver-IsTold :
      (w : World) (p q k : ℕ) (c : Client) (name : Bytes) (message : IrcMessage)
      → w.client_at p ≡ some c
      → g.queues.elements c.responses ≡ []
      → (ready : IsReady w q) → message.second ≡ some k
      → (let r = message_privmsg c name (string_at c.conn.message k) in
          length r.text ≤ irc_msg_size)
      → (v : World) × (privmsg_deliver p q name message w ≡ ok done v)
        × IsTold w p c
            ((fd_at w q, whole (message_privmsg c name (string_at c.conn.message k))) ∷ [])
            (away_reply c w.server ready.client)
            v
  unfolding privmsg_deliver get_server
  deliver-IsTold w p q k c name message here idle ready contents fits =
      let text = string_at c.conn.message k in
      let r = message_privmsg c name text in
      let (v, run, d) = client_send-IsDelivered w q (whole r) ready in
      let (tq, at_q, _) = d.ready q ready.client ready.here ready.empty in
      let (sq, at_p, empty) = d.ready p c here idle in
      let t : Client = record (ready.client) { responses = tq } in
      let me : Client = record c { responses = sq } in
      let reply = rpl_away me v.server t.nickname t.away_message in
      let (u, ended, told) =
        tell-IsTold v p me t.away reply at_p empty
          (away_bounded me v.server t.nickname t.away_message) in
      let read : read_string p message.second w ≡ ok text w =
        ap (λ s. read_string p s w) contents ∙ read_string-ok w p k c here in
      (
        u,
        bind-ok _ _ w c w (load_client-ok p w c here)
            ∙ bind-ok _ _ w text w read
            ∙ bind-ok _ _ w (whole r) w (format-whole r w fits)
            ∙ seq-ok _ _ w v run
            ∙ bind-ok _ _ v t v (load_client-ok q v t at_q)
            ∙ bind-ok _ _ v v.server v refl
            ∙ bind-ok _ _ v me v (load_client-ok p v me at_p)
            ∙ ended,
        record {
          queue = told.queue;
          here = told.here;
          waits =
              told.waits
              ∙ away_reply-responses c v.server ready.client sq tq
              ∙ ap (λ s. away_reply c s ready.client) d.server;
          sent = told.sent ∙ append-nil v.sent ∙ d.sent;
        },
      )

  found_nick :
      (w : World) (name : Bytes) (id : ℕ)
      → g.strings.lookup w.server.nicks name ≡ some id
      → find_nick name w ≡ ok id w
  unfolding find_nick get_server pure ◌>>=◌
  found_nick w name id listed = ap (λ o. ok (id_or_zero o) w) listed
    where
      id_or_zero : Option ℕ → ℕ
      id_or_zero o = elim o [ none ↦ 0 | some i ↦ i ]

  found_client :
      (w : World) (id q : ℕ)
      → g.ints.lookup w.server.clients id ≡ some q
      → find_client id w ≡ ok q w
  unfolding find_client get_server pure ◌>>=◌ deref
  found_client w id q enrolled = ap (λ o. deref o w) enrolled ∙ deref_some q
    where
      deref_some : (p : ℕ) → deref (some p) w ≡ ok p w
      deref_some p = refl

  pub past_errors :
      (w : World) (n : ℕ) (x y z : M ℤ)
      → n ≡ 0
      → (if n == err_norecipient then x else if n == err_notexttosend then y else z) w ≡ z w
  past_errors w n x y z e = rw e refl

  pub else_branch : (w : World) (b : Bool) (x y : M ℤ) → b ≡ false → (if b then x else y) w ≡ y w
  else_branch w b x y e = rw e refl

  -- `privmsg_nick` finds the client that bears the name.
  nick-deliver :
      (w : World) (p q i : ℕ) (c : Client) (name : Bytes) (message : IrcMessage)
      → IsRegistry w
      → w.client_at p ≡ some c
      → who w q ≡ some (i, name, true)
      → privmsg_nick p name message w ≡ privmsg_deliver p q name message w
  unfolding privmsg_nick
  nick-deliver w p q i c name message registry here bears =
      let listed = registry.listed q i name bears in
      let (enrolled, positive, below, allocated) = registry.enrolled q i name true bears in
      bind-ok _ _ w c w (load_client-ok p w c here)
      ∙ bind-ok _ _ w i w (found_nick w name i listed)
      ∙ else_branch w (i == 0) _ _ (ground arith)
      ∙ bind-ok _ _ w q w (found_client w i q enrolled)

  -- In a state whose tables of names are right, a PRIVMSG with a text, from a client whose queue is
  -- empty to a nickname that another client or the client itself bears whose queue is empty too,
  -- and whose PRIVMSG fits in 512 bytes: the handler returns 0, exactly one response is written, the
  -- PRIVMSG, to the descriptor of the client that bears the nickname, and exactly the reply to a
  -- message to a client that is away, where it is, waits in the queue of the sender.
  pub handler_privmsg-IsTold :
      (w : World) (p q i j k : ℕ) (c : Client) (message : IrcMessage)
      → IsRegistry w
      → w.client_at p ≡ some c
      → g.queues.elements c.responses ≡ []
      → message.parse_err ≡ 0
      → message.first ≡ some j
      → message.second ≡ some k
      → names_channel (string_at c.conn.message j) ≡ false
      → who w q ≡ some (i, string_at c.conn.message j, true)
      → (ready : IsReady w q)
      → (let r = message_privmsg c (string_at c.conn.message j) (string_at c.conn.message k) in
          length r.text ≤ irc_msg_size)
      → (v : World) × (handler_privmsg p message w ≡ ok done v)
        × IsTold w p c
            ((
              fd_at w q,
              whole (message_privmsg c (string_at c.conn.message j) (string_at c.conn.message k)),
            )
              ∷ [])
            (away_reply c w.server ready.client)
            v
  unfolding handler_privmsg
  handler_privmsg-IsTold w p q i j k c message registry here idle parsed target contents person
        bears ready fits =
      let name = string_at c.conn.message j in
      let read : read_string p message.first w ≡ ok name w =
        ap (λ s. read_string p s w) target ∙ read_string-ok w p j c here in
      let (v, run, told) = deliver-IsTold w p q k c name message here idle ready contents fits in
      (
        v,
        bind-ok _ _ w c w (load_client-ok p w c here)
            ∙ past_errors w message.parse_err _ _ _ parsed
            ∙ bind-ok _ _ w name w read
            ∙ else_branch w (names_channel name) _ _ person
            ∙ nick-deliver w p q i c name message registry here bears
            ∙ run,
        told,
      )
