-- ===== src/Relaying/Reading.antt =====
-- `Client_HandleRead` of src/client.c on a read that delivers a PRIVMSG.
use circ.Base.{
  ℕ, suc, ◌+◌, ◌-◌, ◌≡◌, refl, ap, ◌∙◌, Bool, false, none, some, List, [], ◌∷◌, ◌++◌, Bytes, codes,
  length, replicate, take, drop, append_assoc, ltb, ◌==◌, if◌then◌else◌, arith, length-append,
}
use circ.Base.Int.{pos}
use circ.Connection.{Conn, conn_read_store_buffer}
use circ.Glib.{Glib, Response}
use circ.Handlers.Delivery.{else_branch}
use circ.HandleRead.{set_conn, handle_one, handle_all, client_handle_read, zero_message}
use circ.Irc.{IrcMessage, irc_msg_size}
use circ.Msgtok.Line.{Last, IsMiddle, IsLast, last_text, colon, line, IsText, middle-IsText}
use circ.Parser.{parse_message}
use circ.ReadMessage.{Round, truncate_message, strncrlf, read_round, read_rounds, conn_read_message}
use circ.ReadMessage.Lines.{IsLine, HasLine, conn_read_message-line}
use circ.Relaying.Message.{said, said-line, Answers, IsRelayed, one-Relayed}
use circ.Relaying.Turned.{IsTurned, turn, refl-IsTurned}
use circ.World.{Client, World, M, ok, ◌>>=◌, ◌>>◌, pure, maybe}
use circ.World.Runs.{bind-ok, seq-ok, load_client-ok}

strncrlf-none : (s : Bytes) → strncrlf s 0 ≡ none
unfolding strncrlf
strncrlf-none [] = refl
strncrlf-none (c ∷ []) = refl
strncrlf-none (c ∷ d ∷ s) = refl

-- No CR stands in the words of the line.
text-IsLine : (s : Bytes) → IsText s → IsLine s
text-IsLine [] h = tt
text-IsLine (c ∷ s) h = (ground arith, text-IsLine s h.1)

append-IsLine : (s t : Bytes) → IsLine s → IsLine t → IsLine (s ++ t)
append-IsLine [] t hs ht = ht
append-IsLine (c ∷ s) t hs ht = (hs.0, append-IsLine s t hs.1 ht)

last-IsLine : (last : Last) → IsLast last → IsLine (colon last ++ last_text last)
last-IsLine (Last.trailing text) h = (refl, text-IsLine text h)
last-IsLine (Last.word w) h = text-IsLine w (middle-IsText w h.middle)

said-IsLine :
    (target : Bytes) (last : Last) → IsMiddle target → IsLast last → IsLine (said target last)
said-IsLine target last middle h =
    let words = b' ' ∷ (colon last ++ last_text last) in
    append-IsLine (codes "PRIVMSG") (b' ' ∷ (target ++ words))
      (refl, (refl, (refl, (refl, (refl, (refl, (refl, tt)))))))
      (
        refl,
        append-IsLine target words (text-IsLine target (middle-IsText target middle.middle))
            (refl, last-IsLine last h),
      )

-- With nothing in the store there is no message.
nothing_round : (conn : Conn) → conn.total_read ≡ 0 → read_round conn ≡ Round.nothing conn
unfolding read_round
nothing_round conn e =
    let no_line : strncrlf conn.store conn.total_read ≡ none =
      ap (strncrlf conn.store) e ∙ strncrlf-none conn.store in
    rw (no_line, read_round)
      (ap (λ t. if ltb (irc_msg_size - 2) t then truncate_message conn else Round.nothing conn) e)

nothing_read :
    (conn : Conn)
    → conn.total_read ≡ 0
    → conn_read_message conn ≡ (false, record conn { message = replicate irc_msg_size 0 })
unfolding conn_read_message read_rounds
nothing_read conn e =
    rw (nothing_round (record conn { message = replicate irc_msg_size 0 }) e, read_rounds) refl

module _ ⦃g : Glib⦄ where
  module _ {w : World} {p : ℕ} {c : Client} {target text : Bytes} {l : List (ℕ × Response)}
      (here : w.client_at p ≡ some c) (answers : Answers w p c target text l) where
    -- The round of the loop that finds the line, which is all that the store holds.
    first_round :
        (n : ℕ) (v : World) (conn : Conn) (last : Last) (rest : Bytes) (m : IrcMessage)
        → IsTurned w p c conn v
        → conn.fd ≡ c.conn.fd
        → IsMiddle target
        → IsLast last
        → last_text last ≡ text
        → HasLine conn (said target last) rest 0
        → (x : World) × (next : IrcMessage) × (after : Conn) × (handle_all (suc n) p m v
            ≡ handle_all n p next x)
          × IsRelayed w p c after l x
          × (after.total_read ≡ 0)
    unfolding handle_all
    first_round n v conn last rest m t same middle last_ok is_text has =
        let zeros = replicate (irc_msg_size - (length (said target last) + 2)) 0 in
        let conn1 : Conn = record conn {
          message = (said target last ++ (b'\r' ∷ b'\n' ∷ [])) ++ zeros;
          store = take 0 rest ++ (replicate (length (said target last) + 2) 0 ++ drop 0 rest);
          total_read = 0;
        } in
        let r = parse_message (line (codes "PRIVMSG" ∷ target ∷ []) last zeros) m in
        let (v1, set1, t1) = turn w v p c conn conn1 t in
        let (x, run, done) =
          one-Relayed answers v1 conn1 last zeros m t1 same middle last_ok is_text
            (said-line target last zeros) in
        let rest_of : Bool × Conn → M (Unit {0}) = λ (found, k).
          set_conn p k
          >> (if found then (handle_one p m >>= λ next. handle_all n p next) else pure tt) in
        (
          x,
          r.message,
          record conn1 { message = r.buf },
          bind-ok _ _ v (record c { conn = conn }) v (load_client-ok p v _ t.here)
              ∙ ap (λ y. rest_of y v) (conn_read_message-line conn (said target last) rest 0 has)
              ∙ seq-ok _ _ v v1 set1
              ∙ bind-ok _ _ v1 r.message x run,
          done,
          refl,
        )

  -- The round that finds nothing, and ends the loop.
  pub last_round :
      (n : ℕ) (x : World) (p : ℕ) (c : Client) (m : IrcMessage)
      → x.client_at p ≡ some c
      → c.conn.total_read ≡ 0
      → (y : World) × (handle_all (suc n) p m x ≡ ok tt y)
        × IsTurned x p c (record (c.conn) { message = replicate irc_msg_size 0 }) y
  unfolding handle_all pure
  last_round n x p c m here e =
      let (y, set, t) =
        turn x x p c c.conn (record (c.conn) { message = replicate irc_msg_size 0 })
          (refl-IsTurned x p c here) in
      let rest_of : Bool × Conn → M (Unit {0}) = λ (found, k).
        set_conn p k
        >> (if found then (handle_one p m >>= λ next. handle_all n p next) else pure tt) in
      (
        y,
        bind-ok _ _ x c x (load_client-ok p x c here)
            ∙ ap (λ z. rest_of z x) (nothing_read c.conn e)
            ∙ seq-ok _ _ x y set,
        t,
      )

  -- The bytes of the line.
  abbrev pub sent_line : Bytes → Last → Bytes
  sent_line target last = said target last ++ (b'\r' ∷ b'\n' ∷ [])

  -- The connection once `read` has delivered the line.
  abbrev filled : Conn → Bytes → Conn
  filled conn bytes = record conn {
    store = bytes ++ drop (length bytes) conn.store;
    total_read = conn.total_read + length bytes;
  }

  filled-HasLine :
      (conn : Conn) (target : Bytes) (last : Last)
      → conn.total_read ≡ 0
      → conn.discard_next ≡ false
      → IsMiddle target
      → IsLast last
      → HasLine
          (filled conn (sent_line target last))
          (said target last)
          (drop (length (sent_line target last)) conn.store)
          0
  filled-HasLine conn target last nothing undiscarded middle last_ok = record {
    is_line = said-IsLine target last middle last_ok;
    store = append_assoc (said target last) _ _;
    total_read = omega (arith, length-append {0} (said target last) (b'\r' ∷ b'\n' ∷ []));
    discard_next = undiscarded;
  }

  sent_line-length : (target : Bytes) (last : Last) → length (sent_line target last) == 0 ≡ false
  sent_line-length target last = ground arith

  -- The read that delivers the line, whatever it is that the handler answers.
  pub read_line :
      {w : World} {p : ℕ} {c : Client} {target text : Bytes} {l : List (ℕ × Response)}
      → w.client_at p ≡ some c
      → Answers w p c target text l
      → (last : Last) → c.conn.total_read ≡ 0
      → c.conn.discard_next ≡ false
      → IsMiddle target
      → IsLast last
      → last_text last ≡ text
      → (v : World) × (client_handle_read p (some (sent_line target last)) w ≡ ok (pos 0) v)
        × (v.sent ≡ w.sent ++ l)
  unfolding client_handle_read conn_read_store_buffer maybe pure
  read_line {w} {p} {c} {target} {text} {l} here answers last nothing undiscarded middle last_ok
        is_text =
      let bytes = sent_line target last in
      let conn = filled c.conn bytes in
      let (v, set, t) = turn w w p c c.conn conn (refl-IsTurned w p c here) in
      let (x, next, after, round, done, left) =
        first_round here answers 257 v conn last (drop (length bytes) c.conn.store) zero_message t
          refl middle last_ok is_text
          (filled-HasLine c.conn target last nothing undiscarded middle last_ok) in
      let (y, ended, quiet) =
        last_round 256 x p (record c { conn = after; responses = done.queue }) next done.here
          left in
      (
        y,
        bind-ok _ _ w c w (load_client-ok p w c here)
            ∙ seq-ok _ _ w v set
            ∙ seq-ok _ _ v y (round ∙ ended)
            ∙ else_branch y (length bytes == 0) _ _ (sent_line-length target last),
        quiet.sent ∙ done.sent,
      )
