-- ===== src/Relaying/Rooms.antt =====
-- A PRIVMSG to a channel, `handler_privmsg` of src/handlers.c and `Client_HandleRead` of
-- src/client.c.
use circ.Base.{
  ℕ, ◌≡◌, ◌≤◌, refl, ap, ◌∙◌, true, some, List, ◌++◌, Bytes, map, length, string_at, append-nil,
  subst,
}
use circ.Channel.Delivery.{whole, deliveries}
use circ.Connection.{Conn}
use circ.Directory.{IsDirectory}
use circ.Flushing.{IsFlushed}
use circ.Glib.{Glib, Response}
use circ.HandleRead.{run_handler}
use circ.Handlers.Talk.{names_channel}
use circ.Irc.{MessageType, irc_msg_size}
use circ.Parser.{Parsed}
use circ.Parser.Encode.{Says, Holds}
use circ.Relaying.Handler.{handler_privmsg-IsDelivered}
use circ.Relaying.Message.{IsAnswered, Answers, handled, privmsg-conn}
use circ.Relaying.Reading.{sent_line, read_line}
use circ.Base.Int.{pos}
use circ.Channel.{channel_name_max}
use circ.Directory.Reachable.{reachable-IsDirectory}
use circ.Flushing.Reachable.{reachable-IsFlushed}
use circ.HandleRead.{client_handle_read}
use circ.Msgtok.Line.{Last, IsMiddle, IsLast, last_text}
use circ.Serving.{initial, Reaches}
use circ.Base.{Option, false}
use circ.Relaying.Turned.{IsTurned, IsTurned-IsDirectory, IsTurned-IsFlushed, IsTurned-deliveries}
use circ.Replies.Channels.{message_privmsg}
use circ.Sending.Delivery.{IsDelivered}
use circ.World.{Client, Channel, World, ok}

module _ ⦃g : Glib⦄ where
  -- The handler of the parsed message, where it finds the channel `a`.
  pub record IsAddressed (w : World) (c : Client) (target text : Bytes) (a : ℕ) (ch : Channel)
      : Type 0 where
    pub room : names_channel target ≡ true
    pub found : g.strings.lookup w.server.channels target ≡ some a
    pub there : w.channel_at a ≡ some ch
    pub fits : length (message_privmsg c ch.name text).text ≤ irc_msg_size

  -- What the members of a channel are sent.
  abbrev pub relayed : World → Client → Channel → Bytes → List (ℕ × Response)
  relayed w c ch text =
      deliveries w (whole (message_privmsg c ch.name text)) (pos c.client_id)
        (g.ints.entries ch.members)

  module _ {w : World} {p a : ℕ} {c : Client} {target text : Bytes} {ch : Channel}
      (d : IsDirectory w) (h : IsFlushed w) (here : w.client_at p ≡ some c)
      (to : IsAddressed w c target text a ch) where
    -- The handler, in a state in which the client's connection has changed.
    addressed-handler :
        (v : World) (r : Parsed) (conn : Conn)
        → conn.fd ≡ c.conn.fd
        → conn.message ≡ r.buf
        → IsTurned w p c conn v
        → Says r MessageType.privmsg target
        → Holds r.buf r.message.second text
        → (u : World) × (run_handler r.code p r.message v ≡ ok tt u)
          × IsDelivered v (relayed w c ch text) u
    addressed-handler v r conn same buf t says (k, contents, is_text) =
        let (j, first, is_target) = says.first_is in
        let b : Client = record c { conn = conn } in
        let named : string_at b.conn.message j ≡ target = rw buf is_target in
        let texted : string_at b.conn.message k ≡ text = rw buf is_text in
        let formatted : (name : Bytes) → message_privmsg b name text ≡ message_privmsg c name text =
          λ name. privmsg-conn c conn name text in
        let (u, run, delivered) =
          handler_privmsg-IsDelivered v p a j k b ch r.message (IsTurned-IsDirectory here t d)
            (IsTurned-IsFlushed here t h) t.here says.no_err first contents (rw named to.room)
            (rw (t.server, named) to.found) (rw t.channel_at to.there)
            (rw (texted, formatted ch.name) to.fits) in
        (
          u,
          handled v p r.message r.code u says.returns says.type_is run,
          subst (λ l. IsDelivered v l u)
              (ap
                  (λ x.
                    deliveries v (whole (message_privmsg b ch.name x)) (pos c.client_id)
                      (g.ints.entries ch.members))
                  texted
                ∙ ap (λ x. deliveries v (whole x) (pos c.client_id) (g.ints.entries ch.members))
                    (formatted ch.name)
                ∙ IsTurned-deliveries here t same _ (pos c.client_id) (g.ints.entries ch.members))
              delivered,
        )

    delivered-IsAnswered :
        (v u : World) (conn : Conn) (l : List (ℕ × Response))
        → IsTurned w p c conn v
        → IsDelivered v l u
        → IsAnswered v p c conn l u
    delivered-IsAnswered v u conn l t delivered =
        let (queue, there, empty) =
          delivered.ready p (record c { conn = conn }) t.here (h.empty p c here) in
        record {
          queue = queue;
          here = there;
          sent =
              ap (λ q. u.sent ++ map (λ r. (conn.fd, r)) q) empty
              ∙ append-nil u.sent
              ∙ delivered.sent;
        }

    pub IsAddressed-Answers : Answers w p c target text (relayed w c ch text)
    IsAddressed-Answers v r conn same buf t says holds =
        let (u, run, delivered) = addressed-handler v r conn same buf t says holds in
        (u, run, delivered-IsAnswered v u conn (relayed w c ch text) t delivered)

  -- In every state that the server reaches from its start by accepting clients and by reads that
  -- deliver no more bytes than they are asked for: where `read` delivers the bytes `PRIVMSG
  -- <channel> <text> CRLF` for a client whose store holds nothing and that does not discard, and
  -- the channel's name, of at most 50 bytes, is in the table, and the PRIVMSG that is formatted fits
  -- in 512 bytes: `Client_HandleRead` returns 0, and what it writes is this PRIVMSG, once to the
  -- descriptor of each member of the channel but the sender, and nothing else. The text is a word,
  -- or any text with no NUL and no CR behind a colon; the channel begins with one of `#+!&`, and has
  -- no space, NUL or CR in it.
  pub client_handle_read-relays :
      (hostname : Bytes) (motd : Option Bytes) {w : World}
      → Reaches (initial hostname motd) w
      → (p a : ℕ) (c : Client) (target : Bytes) (last : Last) → w.client_at p ≡ some c
      → c.conn.total_read ≡ 0
      → c.conn.discard_next ≡ false
      → IsMiddle target
      → IsLast last
      → names_channel target ≡ true
      → length target ≤ channel_name_max
      → g.strings.lookup w.server.channels target ≡ some a
      → length (message_privmsg c target (last_text last)).text ≤ irc_msg_size
      → (ch : Channel) × (v : World) × (w.channel_at a ≡ some ch)
        × (client_handle_read p (some (sent_line target last)) w ≡ ok (pos 0) v)
        × (v.sent
            ≡ w.sent
              ++ deliveries w
                  (whole (message_privmsg c target (last_text last)))
                  (pos c.client_id)
                  (g.ints.entries ch.members))
  client_handle_read-relays hostname motd {w} reach p a c target last here nothing undiscarded
        middle last_ok room short found fits =
      let d = reachable-IsDirectory hostname motd reach in
      let h = reachable-IsFlushed hostname motd reach in
      let (ch, there, is_name) = d.sound.named target a found short in
      let to : IsAddressed w c target (last_text last) a ch = record {
        room = room;
        found = found;
        there = there;
        fits = rw is_name fits;
      } in
      let (v, run, sent) =
        read_line here (IsAddressed-Answers d h here to) last nothing undiscarded middle last_ok
          refl in
      (
        ch,
        v,
        there,
        run,
        sent
            ∙ ap
                (λ n.
                  w.sent
                  ++ deliveries w (whole (message_privmsg c n (last_text last))) (pos c.client_id)
                      (g.ints.entries ch.members))
                is_name,
      )
