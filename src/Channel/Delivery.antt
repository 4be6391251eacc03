-- ===== src/Channel/Delivery.antt =====
-- `channel_send_message` of src/channel.c: who gets a message.
use circ.Base.Int.{ℤ, pos}
use circ.Channel.{is_source}
use circ.Base.{
  ℕ, ◌≡◌, ◌≤◌, refl, sym, ap, ap₂, ◌∙◌, subst, inl, inr, Bool-cases, false, some, List, [], ◌∷◌,
  ◌++◌, append-nil, append_assoc, Bytes, length, take_all, arith, if◌then◌else◌, All,
}
use circ.Channel.{forward, channel_send_message, channel_sendall_privmsg}
use circ.Glib.{Glib, Response}
use circ.Irc.{irc_msg_size}
use circ.Replies.{Reply}
use circ.Replies.Channels.{message_privmsg}
use circ.Sending.{format}
use circ.Sending.Delivery.{IsReady, fd_at, fd_in, IsDelivered, client_send-IsDelivered}
use circ.World.{Client, Channel, World, ok, pure}
use circ.World.Runs.{bind-ok, seq-ok, load_client-ok, load_channel-ok}

module _ ⦃g : Glib⦄ where
  -- A reply that fits in the buffer.
  abbrev pub whole : Reply → Response
  whole r = record { response = r.text; len = length r.text }

  pub format-whole :
      (r : Reply) (w : World) → length r.text ≤ irc_msg_size → format r w ≡ ok (whole r) w
  unfolding format pure
  format-whole r w h = elim (Bool-cases r.bounded) [
    | inl bounded ↦ ground (arith, bounded, take_all irc_msg_size r.text h)
    | inr unbounded ↦ ground (arith, unbounded)
  ]

  -- What is written for the entries of a table of members: the message, once for each entry whose
  -- key is not the source, in the order of the entries.
  abbrev pub deliveries : World → Response → ℤ → List (ℕ × ℕ) → List (ℕ × Response)
  deliveries w r source [] = []
  deliveries w r source ((key, client) ∷ rest) =
      let others = deliveries w r source rest in
      if is_source source key then others else (fd_at w client, r) ∷ others

  -- Every client but the source is there and has nothing else to be written.
  abbrev pub AllReady : World → ℤ → List (ℕ × ℕ) → Type 0
  AllReady w source l = All (λ e. is_source source e.0 ≡ false → IsReady w e.1) l

  pub still :
      (w v : World) (l : List (ℕ × Response)) (q : ℕ)
      → IsDelivered w l v
      → IsReady w q
      → IsReady v q
  still w v l q d h =
      let (queue, here, empty) = d.ready q h.client h.here h.empty in
      record { client = record (h.client) { responses = queue }; here = here; empty = empty }

  same_fd :
      (w v : World) (l : List (ℕ × Response)) (q : ℕ)
      → IsDelivered w l v
      → IsReady w q
      → fd_at v q ≡ fd_at w q
  same_fd w v l q d h =
      let (queue, here, empty) = d.ready q h.client h.here h.empty in
      ap fd_in here ∙ ap fd_in (sym h.here)

  AllReady-still :
      (w v : World) (a : List (ℕ × Response)) (source : ℤ) (l : List (ℕ × ℕ))
      → IsDelivered w a v
      → AllReady w source l
      → AllReady v source l
  AllReady-still w v a source [] d h = tt
  AllReady-still w v a source (e ∷ l) d (now, later) =
      (λ other. still w v a e.1 d (now other), AllReady-still w v a source l d later)

  deliveries_same :
      (w v : World) (a : List (ℕ × Response)) (r : Response) (source : ℤ) (l : List (ℕ × ℕ))
      → IsDelivered w a v
      → AllReady w source l
      → deliveries v r source l ≡ deliveries w r source l
  deliveries_same w v a r source [] d h = refl
  deliveries_same w v a r source ((key, p) ∷ l) d (now, later) =
      elim (Bool-cases (is_source source key)) [
        | inl same ↦ rw same (deliveries_same w v a r source l d later)
        | inr other ↦ rw other (
            ap₂ (λ fd rest. (fd, r) ∷ rest) (same_fd w v a p d (now other))
              (deliveries_same w v a r source l d later))
      ]

  nothing-IsDelivered : (w : World) → IsDelivered w [] w
  nothing-IsDelivered w = record {
    sent = sym (append-nil w.sent);
    ready = λ q c here empty. (c.responses, here, empty);
    server = refl;
    channel_at = λ q. refl;
  }

  then-IsDelivered :
      (w v u : World) (a b : List (ℕ × Response))
      → IsDelivered w a v
      → IsDelivered v b u
      → IsDelivered w (a ++ b) u
  then-IsDelivered w v u a b d e = record {
    sent = e.sent ∙ ap (λ s. s ++ b) d.sent ∙ append_assoc w.sent a b;
    ready = λ q c here empty.
        let (queue, there, nothing) = d.ready q c here empty in
        e.ready q (record c { responses = queue }) there nothing;
    server = e.server ∙ d.server;
    channel_at = λ q. e.channel_at q ∙ d.channel_at q;
  }

  forward-IsDelivered :
      (l : List (ℕ × ℕ)) (w : World) (r : Response) (source : ℤ)
      → AllReady w source l
      → (v : World) × (forward l r source w ≡ ok tt v) × IsDelivered w (deliveries w r source l) v
  unfolding forward pure
  forward-IsDelivered [] w r source h = (w, refl, nothing-IsDelivered w)
  forward-IsDelivered ((key, p) ∷ l) w r source (now, later) =
      elim (Bool-cases (is_source source key)) [
        | inl same ↦
            let (v, run, d) = forward-IsDelivered l w r source later in
            (v, seq-ok _ _ w w (rw same refl) ∙ run, rw same d)
        | inr other ↦
            let (v, run, d) = client_send-IsDelivered w p r (now other) in
            let (u, run', d') =
              forward-IsDelivered l v r source (AllReady-still w v _ source l d later) in
            (
              u,
              seq-ok _ _ w v (rw other run) ∙ run',
              rw other (
                  then-IsDelivered w v u _ _ d
                    (subst (λ x. IsDelivered v x u) (deliveries_same w v _ r source l d later) d')),
            )
      ]

  -- For a channel that exists, each of whose members but the source is a client with an empty queue,
  -- `channel_send_message` returns; it writes the message to the descriptor of each member but the
  -- source, once for each, in the order of the table, and writes nothing else. Of a client whose
  -- queue was empty it changes at most the queue, which is empty again, and the server and the
  -- channels stay as they are.
  pub channel_send_message-IsDelivered :
      (w : World) (channel : ℕ) (ch : Channel) (r : Response) (source : ℤ)
      → w.channel_at channel ≡ some ch
      → AllReady w source (g.ints.entries ch.members)
      → (v : World) × (channel_send_message channel r source w ≡ ok tt v)
        × IsDelivered w (deliveries w r source (g.ints.entries ch.members)) v
  unfolding channel_send_message
  channel_send_message-IsDelivered w channel ch r source there ready =
      let (v, run, d) = forward-IsDelivered (g.ints.entries ch.members) w r source ready in
      (v, bind-ok _ _ w ch w (load_channel-ok channel w ch there) ∙ run, d)

  -- For a client and a channel that exist, each of whose members but the client is a client with an
  -- empty queue, and a message that fits in 512 bytes, `channel_sendall_privmsg` returns; it writes
  -- the PRIVMSG of the client to each other member once and writes nothing else.
  pub channel_sendall_privmsg-IsDelivered :
      (w : World) (channel p : ℕ) (ch : Channel) (c : Client) (contents : Bytes)
      → w.channel_at channel ≡ some ch
      → w.client_at p ≡ some c
      → AllReady w (pos c.client_id) (g.ints.entries ch.members)
      → (let r = message_privmsg c ch.name contents in length r.text ≤ irc_msg_size)
      → (v : World) × (channel_sendall_privmsg channel p contents w ≡ ok tt v)
        × IsDelivered w
            (deliveries w
              (whole (message_privmsg c ch.name contents))
              (pos c.client_id)
              (g.ints.entries ch.members))
            v
  unfolding channel_sendall_privmsg
  channel_sendall_privmsg-IsDelivered w channel p ch c contents there here ready fits =
      let r = message_privmsg c ch.name contents in
      let (v, run, d) =
        channel_send_message-IsDelivered w channel ch (whole r) (pos c.client_id) there ready in
      (
        v,
        bind-ok _ _ w c w (load_client-ok p w c here)
            ∙ bind-ok _ _ w ch w (load_channel-ok channel w ch there)
            ∙ bind-ok _ _ w (whole r) w (format-whole r w fits)
            ∙ run,
        d,
      )
