-- ===== src/Closing.antt =====
-- `Client_HandleRead` of src/client.c on a connection that the client has closed: `read` delivers
-- nothing, the descriptor is closed, and the client stays in all tables.
use circ.Base.{
  ℕ, ◌+◌, ◌%◌, ◌^◌, ◌≡◌, ◌≤◌, refl, sym, ap, ap₂, ◌∙◌, true, false, Option, some, some_inj, [], ◌∷◌,
  ◌++◌, Bytes, codes, length, if◌then◌else◌, arith, ◌==◌,
}
use circ.Base.Int.{pos}
use circ.Channel.Delivery.{whole}
use circ.Client.{client_closed, client_try_change_nick}
use circ.Client.Nicknames.{client_try_change_nick-taken, refusal}
use circ.Connection.{Conn, conn_read_store_buffer}
use circ.Frame.{identity}
use circ.Glib.{Glib}
use circ.HandleRead.{client_handle_read, zero_message}
use circ.Handlers.Talk.{names_channel}
use circ.Irc.{nick_max_size, irc_msg_size}
use circ.Msgtok.Line.{Last, IsMiddle, IsLast, last_text}
use circ.Registry.Reachable.{reachable-IsRegistry}
use circ.Relaying.Nicknames.{client_handle_read-tells}
use circ.Relaying.Reading.{sent_line, last_round}
use circ.Relaying.Turned.{turn, refl-IsTurned}
use circ.Replies.{err_nickname_in_use, nick_or_star}
use circ.Replies.Decimal.{decimal}
use circ.Replies.Channels.{message_privmsg, rpl_away}
use circ.Server.{count_down}
use circ.Serving.{initial, Fits, Step, Reaches}
use circ.World.{Client, Server, World, Run, ok, pure, maybe, modify_server, close_fd}
use circ.World.Runs.{bind-ok, seq-ok, load_client-ok}

module _ ⦃g : Glib⦄ where
  abbrev fewer : Server → Server
  fewer s = record s { n_users = count_down s.n_users }

  -- A registered client with a nickname, whose store holds nothing.
  pub record IsDone (w : World) (p : ℕ) (c : Client) : Type 0 where
    pub here : w.client_at p ≡ some c
    pub registered : c.registered ≡ true
    pub received_nick : c.received_nick ≡ true
    pub total_read : c.conn.total_read ≡ 0

  -- The state once its connection is closed.
  record IsClosed (w : World) (p : ℕ) (c : Client) (v : World) : Type 0 where
    conn : Conn
    same_fd : conn.fd ≡ c.conn.fd
    here : v.client_at p ≡ some (record c { conn = conn })
    others : (q : ℕ) → p == q ≡ false → v.client_at q ≡ w.client_at q
    server : v.server ≡ fewer w.server
    sent : v.sent ≡ w.sent
    closed : v.closed ≡ w.closed ++ (c.conn.fd ∷ [])

  closed-ok :
      (w : World) (p : ℕ) (c : Client)
      → w.client_at p ≡ some c
      → c.registered ≡ true
      → client_closed p w
        ≡ ok tt (record w { server = fewer w.server; closed = w.closed ++ (c.conn.fd ∷ []) })
  unfolding client_closed modify_server close_fd
  closed-ok w p c here registered =
      let closed : World = record w { closed = w.closed ++ (c.conn.fd ∷ []) } in
      bind-ok _ _ w c w (load_client-ok p w c here)
      ∙ seq-ok (close_fd c.conn.fd) _ w closed refl
      ∙ ap
          (λ b.
            let r : Run (Unit {0}) = ok tt (record closed {
              server =
                  if b
                  then fewer w.server
                  else record (w.server) { n_unknown = count_down w.server.n_unknown };
            }) in
            r)
          registered

  -- The read that delivers nothing.
  close-IsClosed :
      {w : World} {p : ℕ} {c : Client}
      → IsDone w p c
      → (v : World) × (client_handle_read p (some []) w ≡ ok (pos 1) v) × IsClosed w p c v
  unfolding client_handle_read conn_read_store_buffer maybe pure
  close-IsClosed {w} {p} {c} h =
      let conn = (conn_read_store_buffer c.conn (some [])).1 in
      let (v, set, t) = turn w w p c c.conn conn (refl-IsTurned w p c h.here) in
      let b : Client = record c { conn = conn } in
      let empty : conn.total_read ≡ 0 = omega (arith, h.total_read) in
      let (x, ended, t') = last_round 257 v p b zero_message t.here empty in
      (
        record x { server = fewer x.server; closed = x.closed ++ (c.conn.fd ∷ []) },
        bind-ok _ _ w c w (load_client-ok p w c h.here)
            ∙ seq-ok _ _ w v set
            ∙ seq-ok _ _ v x ended
            ∙ seq-ok _ _ x _ (closed-ok x p _ t'.here h.registered),
        record {
          conn = _;
          same_fd = refl;
          here = t'.here;
          others = λ q other. t'.others q other ∙ t.others q other;
          server = ap fewer (t'.server ∙ t.server);
          sent = t'.sent ∙ t.sent;
          closed = ap (λ l. l ++ (c.conn.fd ∷ [])) (t'.closed ∙ t.closed);
        },
      )

  -- ERR_NICKNAMEINUSE as the bytes that the client `d` gets for the nickname `nick`.
  abbrev pub in_use : Client → Bytes → Bytes
  in_use d nick =
      codes "433 "
      ++ ((if d.received_nick then d.nickname else codes "*")
          ++ (codes " " ++ (nick ++ codes " :Nickname is already in use\r\n")))

  refusal-in_use :
      (d : Client) (nick : Bytes)
      → refusal d nick ≡ record { response = in_use d nick; len = length (in_use d nick) }
  unfolding err_nickname_in_use decimal nick_or_star
  refusal-in_use d nick = refl

  -- In every state that the server reaches from its start by accepting clients and by reads that
  -- deliver no more bytes than they are asked for: once `read` has delivered nothing for a
  -- registered client with a nickname whose store holds nothing, `Client_HandleRead` has returned
  -- CONN_RESULT_CLOSE, closed the client's descriptor and taken one from the number of users, modulo
  -- 2 ^ 32, and yet no other client can take the nickname: it is refused with ERR_NICKNAMEINUSE,
  -- 433, and the state stays. The nicknames of both have at most 9 bytes.
  pub client_handle_read-closed_nickname :
      (hostname : Bytes) (motd : Option Bytes) {w : World}
      → Reaches (initial hostname motd) w
      → (p q : ℕ) (c d : Client) → IsDone w p c
      → p == q ≡ false
      → w.client_at q ≡ some d
      → length c.nickname ≤ nick_max_size
      → length d.nickname ≤ nick_max_size
      → (v : World) × (client_handle_read p (some []) w ≡ ok (pos 1) v)
        × (v.closed ≡ w.closed ++ (c.conn.fd ∷ []))
        × ((v.server.n_users + 1) % 2 ^ 32 ≡ w.server.n_users % 2 ^ 32)
        × (client_try_change_nick q c.nickname v
            ≡ ok
                (some
                  (record { response = in_use d c.nickname; len = length (in_use d c.nickname) }))
                v)
  client_handle_read-closed_nickname hostname motd {w} reach p q c d h other there short short' =
      let (v, run, k) = close-IsClosed h in
      let names = reachable-IsRegistry hostname motd reach in
      let bears =
        ap identity h.here ∙ ap (λ b. some (c.client_id, c.nickname, b)) h.received_nick in
      let listed = names.listed p c.client_id c.nickname bears in
      let one : v.server.n_users ≡ count_down w.server.n_users =
        ap (λ (s : Server). s.n_users) k.server in
      (
        v,
        run,
        k.closed,
        omega (arith, one),
        client_try_change_nick-taken v q d c.nickname c.client_id (k.others q other ∙ there)
              (ap (λ (s : Server). g.strings.lookup s.nicks c.nickname) k.server ∙ listed) short'
              (omega (arith, short))
            ∙ ap (λ r. ok (some r) v) (refusal-in_use d c.nickname),
      )

  nothing-Fits : (w : World) (p : ℕ) → Fits w p (some [])
  nothing-Fits w p c here bytes e = rw (sym (some_inj.0 e)) (omega arith)

  -- In every state that the server reaches from its start by accepting clients and by reads that
  -- deliver no more bytes than they are asked for: `read` delivers nothing for a registered client
  -- with a nickname whose store holds nothing and that is not away, and then, for another client
  -- whose store holds nothing and that does not discard, the bytes `PRIVMSG <nickname> <text> CRLF`.
  -- Then `Client_HandleRead` returns CONN_RESULT_CLOSE and 0; the first has closed the descriptor of
  -- the client, the second writes the PRIVMSG, of at most 512 bytes, to this descriptor, and writes
  -- nothing else, so that the sender is not told. The nickname and the text are as a line can hold
  -- them.
  pub client_handle_read-closed_told :
      (hostname : Bytes) (motd : Option Bytes) {w : World}
      → Reaches (initial hostname motd) w
      → (p q : ℕ) (c d : Client) (last : Last) → IsDone w p c
      → c.away ≡ false
      → p == q ≡ false
      → w.client_at q ≡ some d
      → d.conn.total_read ≡ 0
      → d.conn.discard_next ≡ false
      → IsMiddle c.nickname
      → IsLast last
      → names_channel c.nickname ≡ false
      → length (message_privmsg d c.nickname (last_text last)).text ≤ irc_msg_size
      → (v : World) × (u : World) × (client_handle_read p (some []) w ≡ ok (pos 1) v)
        × (v.closed ≡ w.closed ++ (c.conn.fd ∷ []))
        × (client_handle_read q (some (sent_line c.nickname last)) v ≡ ok (pos 0) u)
        × (u.sent
            ≡ w.sent ++ ((c.conn.fd, whole (message_privmsg d c.nickname (last_text last))) ∷ []))
  client_handle_read-closed_told hostname motd {w} reach p q c d last h present other there nothing
        undiscarded middle last_ok person fits =
      let (v, run, k) = close-IsClosed h in
      let step = Reaches.next reach (Step.reads p (some []) (pos 1) v (nothing-Fits w p) run) in
      let b : Client = record c { conn = k.conn } in
      let (u, telling, sent) =
        client_handle_read-tells hostname motd step q p d b c.nickname last
          (k.others q other ∙ there) nothing undiscarded middle last_ok person k.here refl
          h.received_nick fits (λ gone. ground (arith, gone, present)) in
      (
        v,
        u,
        run,
        k.closed,
        telling,
        sent
            ∙ ap₂ (λ x l. x ++ l) k.sent
                (ap₂
                  (λ fd a.
                    (fd, whole (message_privmsg d c.nickname (last_text last)))
                    ∷ (if a
                        then (d.conn.fd, whole (rpl_away d v.server c.nickname c.away_message)) ∷ []
                        else []))
                  k.same_fd present),
      )
