-- ===== src/Relaying/Message.antt =====
-- One round of the loop of `Client_HandleRead`, src/client.c, with a PRIVMSG to a channel in it.
use circ.Base.{ℕ, ◌≡◌, refl, ap, ◌∙◌, some, List, [], ◌∷◌, ◌++◌, Bytes, codes, map, append_assoc}
use circ.Base.Int.{ℤ, pos}
use circ.Connection.{Conn}
use circ.Glib.{Glib, Response}
use circ.Handlers.{handle_as, handle_message}
use circ.Handlers.Basic.{done}
use circ.Handlers.Talk.{handler_privmsg}
use circ.HandleRead.{run_handler, set_conn, handle_one}
use circ.Irc.{MessageType, IrcMessage}
use circ.Msgtok.Line.{Last, IsMiddle, IsLast, last_text, colon, line}
use circ.Parser.{Parsed, parse_message}
use circ.Parser.Commands.{parse_message-privmsg}
use circ.Parser.Encode.{Says, Holds}
use circ.Relaying.Turned.{IsTurned, turn}
use circ.Replies.Channels.{message_privmsg}
use circ.Sending.{client_try_empty_buffer}
use circ.Sending.Draining.{client_try_empty_buffer-IsDrained}
use circ.World.{Client, World, M, ok, ◌>>◌, pure}
use circ.World.Runs.{bind-ok, seq-ok, load_client-ok}

-- `PRIVMSG <target> <text>` without its CRLF.
abbrev pub said : Bytes → Last → Bytes
said target last = codes "PRIVMSG" ++ (b' ' ∷ (target ++ (b' ' ∷ (colon last ++ last_text last))))

pub said-line :
    (target : Bytes) (last : Last) (rest : Bytes)
    → (said target last ++ (b'\r' ∷ b'\n' ∷ [])) ++ rest
      ≡ line (codes "PRIVMSG" ∷ target ∷ []) last rest
said-line target last rest = simp append_assoc

module _ ⦃g : Glib⦄ where
  -- The formatted message does not depend on the connection.
  pub privmsg-conn :
      (c : Client) (conn : Conn) (name text : Bytes)
      → message_privmsg (record c { conn = conn }) name text ≡ message_privmsg c name text
  unfolding message_privmsg
  privmsg-conn c conn name text = refl

  -- After the round: the client has the connection `conn` and an empty queue, and `l` is written.
  pub record IsRelayed (w : World) (p : ℕ) (c : Client) (conn : Conn) (l : List (ℕ × Response))
      (v : World) : Type 0 where
    pub queue : g.queues.Queue
    pub here : v.client_at p ≡ some (record c { conn = conn; responses = queue })
    pub sent : v.sent ≡ w.sent ++ l

  -- The handler has returned: the client has the connection `conn`, and what is written so far
  -- and what waits in its queue are together `l`.
  pub record IsAnswered (w : World) (p : ℕ) (c : Client) (conn : Conn) (l : List (ℕ × Response))
      (v : World) : Type 0 where
    pub queue : g.queues.Queue
    pub here : v.client_at p ≡ some (record c { conn = conn; responses = queue })
    pub sent : v.sent ++ map (λ r. (conn.fd, r)) (g.queues.elements queue) ≡ w.sent ++ l

  -- The handler of a PRIVMSG with these parameters, in a state in which the client's connection has
  -- changed.
  abbrev pub Answers : World → ℕ → Client → Bytes → Bytes → List (ℕ × Response) → Type 0
  Answers w p c target text l =
      (v : World) (r : Parsed) (conn : Conn)
      → conn.fd ≡ c.conn.fd
      → conn.message ≡ r.buf
      → IsTurned w p c conn v
      → Says r MessageType.privmsg target
      → Holds r.buf r.message.second text
      → (u : World) × (run_handler r.code p r.message v ≡ ok tt u) × IsAnswered v p c conn l u

  pub handled :
      (w : World) (p : ℕ) (message : IrcMessage) (code : ℤ) (v : World)
      → code ≡ pos 0
      → message.type ≡ MessageType.privmsg
      → handler_privmsg p message w ≡ ok done v
      → run_handler code p message w ≡ ok tt v
  unfolding run_handler handle_message handle_as pure
  handled w p message code v e t run =
      ap (λ x. run_handler x p message w) e
      ∙ bind-ok _ _ w done v (ap (λ x. handle_as x p message w) t ∙ run)

  -- `Client_TryEmptyBuffer` once the handler has returned: what waits is written.
  emptied :
      {p : ℕ} {c : Client}
      → (w v u : World) (conn : Conn) (l : List (ℕ × Response)) → IsTurned w p c conn v
      → IsAnswered v p c conn l u
      → (x : World) × (client_try_empty_buffer p u ≡ ok tt x) × IsRelayed w p c conn l x
  emptied {p} {c} w v u conn l t answered =
      let b : Client = record c { conn = conn; responses = answered.queue } in
      let (x, run, done) = client_try_empty_buffer-IsDrained u p b answered.here in
      (
        x,
        run,
        record {
          queue = done.queue;
          here = done.here;
          sent = done.sent ∙ answered.sent ∙ ap (λ s. s ++ l) t.sent;
        },
      )

  -- `handle_one` on the connection `conn`, whose message buffer holds the line.
  pub one-Relayed :
      {w : World} {p : ℕ} {c : Client} {target text : Bytes} {l : List (ℕ × Response)}
      → Answers w p c target text l
      → (v : World) (conn : Conn) (last : Last) (rest : Bytes) (m : IrcMessage)
      → IsTurned w p c conn v
      → conn.fd ≡ c.conn.fd
      → IsMiddle target
      → IsLast last
      → last_text last ≡ text
      → conn.message ≡ line (codes "PRIVMSG" ∷ target ∷ []) last rest
      → let r = parse_message (line (codes "PRIVMSG" ∷ target ∷ []) last rest) m in
        (x : World) × (handle_one p m v ≡ ok r.message x)
        × IsRelayed w p c (record conn { message = r.buf }) l x
  unfolding handle_one pure
  one-Relayed {w} {p} {c} {target} {text} {l} answers v conn last rest m t same middle last_ok
        is_text buf =
      let r = parse_message (line (codes "PRIVMSG" ∷ target ∷ []) last rest) m in
      let parsed : parse_message conn.message m ≡ r = ap (λ b. parse_message b m) buf in
      let (says, holds) = parse_message-privmsg last rest m last_ok target middle in
      let after : Conn = record conn { message = r.buf } in
      let (v1, set1, t1) = turn w v p c conn after t in
      let (k, contents, is_last) = holds in
      let (v2, run, answered) =
        answers v1 r after same refl t1 says (k, contents, is_last ∙ is_text) in
      let (x, emptying, done) = emptied w v1 v2 after l t1 answered in
      let rest_of : Parsed → M IrcMessage = λ y.
        set_conn p (record conn { message = y.buf })
        >> (run_handler y.code p y.message >> (client_try_empty_buffer p >> pure y.message)) in
      (
        x,
        bind-ok _ _ v (record c { conn = conn }) v (load_client-ok p v _ t.here)
            ∙ ap (λ y. rest_of y v) parsed
            ∙ seq-ok _ _ v v1 set1
            ∙ seq-ok _ _ v1 v2 run
            ∙ seq-ok _ _ v2 x emptying,
        done,
      )
