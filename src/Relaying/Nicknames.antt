-- ===== src/Relaying/Nicknames.antt =====
-- A PRIVMSG to a nickname, `handler_privmsg` of src/handlers.c and `Client_HandleRead` of
-- src/client.c.
use circ.Base.{
  ℕ, ◌≡◌, ◌≤◌, refl, ap, ap₂, ◌∙◌, true, false, Option, some, List, [], ◌∷◌, ◌++◌, Bytes, map,
  length, string_at, append_assoc,
}
use circ.Base.Int.{pos}
use circ.Channel.Delivery.{whole}
use circ.Connection.{Conn}
use circ.Flushing.{IsFlushed}
use circ.Flushing.Reachable.{reachable-IsFlushed}
use circ.Frame.{identity}
use circ.Glib.{Glib, Response}
use circ.HandleRead.{client_handle_read}
use circ.Handlers.Delivery.{IsTold, away_reply, cut, handler_privmsg-IsTold}
use circ.Handlers.Talk.{names_channel}
use circ.Irc.{irc_msg_size}
use circ.Msgtok.Line.{Last, IsMiddle, IsLast, last_text}
use circ.Registry.{who, IsRegistry}
use circ.Registry.Reachable.{reachable-IsRegistry}
use circ.Relaying.Message.{IsAnswered, Answers, handled, privmsg-conn}
use circ.Relaying.Reading.{sent_line, read_line}
use circ.Relaying.Turned.{IsTurned-who, IsTurned-IsRegistry, turned_client}
use circ.Replies.Channels.{message_privmsg, rpl_away}
use circ.Sending.Delivery.{IsReady, fd_in, fd_at}
use circ.Serving.{initial, Reaches}
use circ.World.{Client, Server, World, ok}
use circ.Base.{Bool, take_all, if◌then◌else◌}
use circ.Replies.{Reply}

module _ ⦃g : Glib⦄ where
  -- What is written for a PRIVMSG of `c` to `t`: the PRIVMSG to `t`, and to `c` the reply to a
  -- message to a client that is away, where `t` is.
  abbrev pub told : Server → Client → Client → Bytes → Bytes → List (ℕ × Response)
  told s c t target text =
      (t.conn.fd, whole (message_privmsg c target text))
      ∷ (if t.away then (c.conn.fd, whole (rpl_away c s t.nickname t.away_message)) ∷ [] else [])

  -- The same with the reply as `snprintf` leaves it.
  abbrev told_cut : Server → Client → Client → Bytes → Bytes → List (ℕ × Response)
  told_cut s c t target text =
      (t.conn.fd, whole (message_privmsg c target text))
      ∷ map (λ r. (c.conn.fd, r)) (away_reply c s t)

  -- A reply that fits is not cut.
  cut-whole :
      (fd : ℕ) (away : Bool) (r : Reply)
      → (away ≡ true → length r.text ≤ irc_msg_size)
      → map {B = ℕ × Response} (λ x. (fd, x)) (if away then cut r ∷ [] else [])
        ≡ (if away then (fd, whole r) ∷ [] else [])
  cut-whole fd false r fits = refl
  cut-whole fd true r fits =
      ap (λ (z : Bytes). (fd, record { response = z; len = length r.text }) ∷ [])
        (take_all irc_msg_size r.text (fits refl))

  away_reply-conn :
      (c t : Client) (s : Server) (x y : Conn)
      → away_reply (record c { conn = x }) s (record t { conn = y }) ≡ away_reply c s t
  unfolding rpl_away
  away_reply-conn c t s x y = refl

  -- The writes and the queue after the handler, put together.
  told-IsAnswered :
      (v u : World) (p fd : ℕ) (c : Client) (conn : Conn) (r : Response) (l : List Response)
      → IsTold v p (record c { conn = conn }) ((fd, r) ∷ []) l u
      → IsAnswered v p c conn ((fd, r) ∷ map (λ x. (conn.fd, x)) l) u
  told-IsAnswered v u p fd c conn r l h = record {
    queue = h.queue;
    here = h.here;
    sent =
        ap₂ (λ s q. s ++ map (λ x. (conn.fd, x)) q) h.sent h.waits
        ∙ append_assoc v.sent ((fd, r) ∷ []) _;
  }

  module _ {w : World} {p q i : ℕ} {c t : Client} {target text : Bytes} (names : IsRegistry w)
      (h : IsFlushed w) (here : w.client_at p ≡ some c) (person : names_channel target ≡ false)
      (bears : who w q ≡ some (i, target, true)) (there : w.client_at q ≡ some t)
      (fits : length (message_privmsg c target text).text ≤ irc_msg_size) where
    nickname-Answers : Answers w p c target text (told_cut w.server c t target text)
    nickname-Answers v r conn same buf turned says (k, contents, is_text) =
        let (j, first, is_target) = says.first_is in
        let b : Client = record c { conn = conn } in
        let named : string_at b.conn.message j ≡ target = rw buf is_target in
        let texted : string_at b.conn.message k ≡ text = rw buf is_text in
        let formatted : message_privmsg b (string_at b.conn.message j) (string_at b.conn.message k)
            ≡ message_privmsg c target text =
          ap₂ (message_privmsg b) named texted ∙ privmsg-conn c conn target text in
        let (other, at_q, same_fd) = turned_client here turned same q t there in
        let ready : IsReady v q = record {
          client = record t { conn = other };
          here = at_q;
          empty = h.empty q t there;
        } in
        let (u, run, is_told) =
          handler_privmsg-IsTold v p q i j k b r.message (IsTurned-IsRegistry here turned names)
            turned.here (h.empty p c here) says.no_err first contents (rw named person)
            (rw named (IsTurned-who here turned q ∙ bears)) ready (rw formatted fits) in
        let answered =
          told-IsAnswered v u p (fd_at v q) c conn _ (away_reply b v.server ready.client) is_told in
        (
          u,
          handled v p r.message r.code u says.returns says.type_is run,
          record {
            queue = answered.queue;
            here = answered.here;
            sent =
                answered.sent
                ∙ ap₂ (λ x l. v.sent ++ (x ∷ l))
                    (ap₂ (λ fd m. (fd, whole m)) (ap fd_in at_q ∙ same_fd) formatted)
                    (ap₂ (λ fd l. map (λ x. (fd, x)) l) same
                      (away_reply-conn c t v.server conn other
                        ∙ ap (λ s. away_reply c s t) turned.server));
          },
        )

  -- In every state that the server reaches from its start by accepting clients and by reads that
  -- deliver no more bytes than they are asked for: where `read` delivers the bytes `PRIVMSG
  -- <nickname> <text> CRLF` for a client whose store holds nothing and that does not discard, and a
  -- client bears the nickname, and the PRIVMSG that is formatted and, if that client is away, the
  -- reply that says so have at most 512 bytes: `Client_HandleRead` returns 0, and what it writes is
  -- this PRIVMSG, once to the descriptor of the client that bears the nickname, then to the sender,
  -- if that client is away, the reply that says so, and nothing else. The text is a word, or any
  -- text with no NUL and no CR behind a colon; the nickname does not begin with one of `#+!&`, and
  -- has no space, NUL or CR in it.
  pub client_handle_read-tells :
      (hostname : Bytes) (motd : Option Bytes) {w : World}
      → Reaches (initial hostname motd) w
      → (p q : ℕ) (c t : Client) (target : Bytes) (last : Last) → w.client_at p ≡ some c
      → c.conn.total_read ≡ 0
      → c.conn.discard_next ≡ false
      → IsMiddle target
      → IsLast last
      → names_channel target ≡ false
      → w.client_at q ≡ some t
      → t.nickname ≡ target
      → t.received_nick ≡ true
      → length (message_privmsg c target (last_text last)).text ≤ irc_msg_size
      → (t.away ≡ true → length (rpl_away c w.server t.nickname t.away_message).text ≤ irc_msg_size)
      → (v : World) × (client_handle_read p (some (sent_line target last)) w ≡ ok (pos 0) v)
        × (v.sent ≡ w.sent ++ told w.server c t target (last_text last))
  client_handle_read-tells hostname motd {w} reach p q c t target last here nothing undiscarded
        middle last_ok person there named has_nick fits away_fits =
      let names = reachable-IsRegistry hostname motd reach in
      let h = reachable-IsFlushed hostname motd reach in
      let bears : who w q ≡ some (t.client_id, target, true) =
        ap identity there ∙ ap₂ (λ n b. some (t.client_id, n, b)) named has_nick in
      let (v, run, sent) =
        read_line here (nickname-Answers names h here person bears there fits) last nothing
          undiscarded middle last_ok refl in
      (
        v,
        run,
        sent
            ∙ ap
                (λ l.
                  w.sent ++ ((t.conn.fd, whole (message_privmsg c target (last_text last))) ∷ l))
                (cut-whole c.conn.fd t.away (rpl_away c w.server t.nickname t.away_message)
                  away_fits),
      )
