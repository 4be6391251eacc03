-- ===== src/Relaying/Handler.antt =====
-- `handler_privmsg` of src/handlers.c on the name of a channel.
use circ.Base.Int.{pos}
use circ.Base.{
  ℕ, ◌≡◌, ◌≤◌, refl, sym, ap, ◌∙◌, inl, inr, Bool, true, Option, none, some, none_absurd, List, [],
  ◌∷◌, All, length, string_at, Bool-cases, ◌==◌, ==_iff, if◌then◌else◌,
}
use circ.Base.Int.{ℤ}
use circ.Channel.Delivery.{whole, deliveries, AllReady, channel_sendall_privmsg-IsDelivered}
use circ.Directory.{id_in, IsDirectory}
use circ.Flushing.{IsFlushed}
use circ.Glib.{Glib, find_entry, Distinct}
use circ.Handlers.Basic.{done}
use circ.Handlers.Delivery.{read_string-ok, past_errors}
use circ.Handlers.Talk.{names_channel, privmsg_channel, handler_privmsg}
use circ.Irc.{IrcMessage, irc_msg_size}
use circ.Replies.Channels.{message_privmsg}
use circ.Sending.Delivery.{IsReady, IsDelivered}
use circ.World.{Client, Channel, World, M, ok, pure, maybe, get_server, read_string}
use circ.World.Runs.{bind-ok, seq-ok, load_client-ok}

-- What holds of every value that is found holds of every entry.
entries-All :
    (P : ℕ → ℕ → Type 0) (l : List (ℕ × ℕ))
    → Distinct ◌==◌ l
    → ((k v : ℕ) → find_entry ◌==◌ k l ≡ some v → P k v)
    → All (λ e. P e.0 e.1) l
entries-All P [] d h = tt
entries-All P ((k, v) ∷ l) (new, d) h =
    let same : k == k ≡ true = (==_iff k k).1 refl in
    (
      h k v (rw same refl),
      entries-All P l d (λ j u found. elim (Bool-cases (k == j)) [
        | inl this ↦
            none_absurd (sym new ∙ ap (λ x. find_entry ◌==◌ x l) ((==_iff k j).0 this) ∙ found)
        | inr other ↦ h j u (rw other found)
      ]),
    )

All-AllReady :
    ⦃g : Glib⦄ (w : World) (source : ℤ) (l : List (ℕ × ℕ))
    → All (λ e. IsReady w e.1) l
    → AllReady w source l
All-AllReady w source [] h = tt
All-AllReady w source (e ∷ l) (now, later) = (λ other. now, All-AllReady w source l later)

module _ ⦃g : Glib⦄ where
  found-IsReady :
      (w : World) (id q : ℕ) (o : Option Client)
      → w.client_at q ≡ o
      → IsFlushed w
      → id_in o ≡ some id
      → IsReady w q
  found-IsReady w id q none e h found = none_absurd found
  found-IsReady w id q (some c) e h found = record { client = c; here = e; empty = h.empty q c e }

  -- All members can be sent to.
  pub members-AllReady :
      (w : World) (a : ℕ) (source : ℤ) (ch : Channel)
      → IsDirectory w
      → IsFlushed w
      → w.channel_at a ≡ some ch
      → AllReady w source (g.ints.entries ch.members)
  members-AllReady w a source ch d h there = All-AllReady w source (g.ints.entries ch.members) (
      entries-All (λ id q. IsReady w q) (g.ints.entries ch.members)
        (g.ints.distinct-entries ch.members)
        (λ id q found.
          found-IsReady w id q (w.client_at q) refl h
            (d.sound.members a ch there id q (sym (g.ints.find-entries ch.members id) ∙ found))))

  then_branch : (w : World) (b : Bool) (x y : M ℤ) → b ≡ true → (if b then x else y) w ≡ x w
  then_branch w b x y e = rw e refl

  channel-found :
      (w : World) (o : Option ℕ) (a : ℕ) (x : M ℤ) (f : ℕ → M ℤ)
      → o ≡ some a
      → maybe o x f w ≡ f a w
  unfolding maybe
  channel-found w o a x f e = rw e refl

  -- Where each member of a channel is a client that exists and all queues are empty, a PRIVMSG with
  -- a text to the name that the channel has in the table, which fits in 512 bytes: the handler
  -- returns 0, the PRIVMSG is written once to each member but the sender, and nothing else is.
  pub handler_privmsg-IsDelivered :
      (w : World) (p a j k : ℕ) (c : Client) (ch : Channel) (message : IrcMessage)
      → IsDirectory w
      → IsFlushed w
      → w.client_at p ≡ some c
      → message.parse_err ≡ 0
      → message.first ≡ some j
      → message.second ≡ some k
      → names_channel (string_at c.conn.message j) ≡ true
      → g.strings.lookup w.server.channels (string_at c.conn.message j) ≡ some a
      → w.channel_at a ≡ some ch
      → (let r = message_privmsg c ch.name (string_at c.conn.message k) in
          length r.text ≤ irc_msg_size)
      → (v : World) × (handler_privmsg p message w ≡ ok done v)
        × IsDelivered w
            (deliveries w
              (whole (message_privmsg c ch.name (string_at c.conn.message k)))
              (pos c.client_id)
              (g.ints.entries ch.members))
            v
  unfolding handler_privmsg privmsg_channel get_server pure
  handler_privmsg-IsDelivered w p a j k c ch message d h here parsed target contents room found
        there fits =
      let name = string_at c.conn.message j in
      let text = string_at c.conn.message k in
      let (v, run, sent) =
        channel_sendall_privmsg-IsDelivered w a p ch c text there here
          (members-AllReady w a (pos c.client_id) ch d h there) fits in
      let read : read_string p message.first w ≡ ok name w =
        ap (λ s. read_string p s w) target ∙ read_string-ok w p j c here in
      let read' : read_string p message.second w ≡ ok text w =
        ap (λ s. read_string p s w) contents ∙ read_string-ok w p k c here in
      (
        v,
        bind-ok _ _ w c w (load_client-ok p w c here)
            ∙ past_errors w message.parse_err _ _ _ parsed
            ∙ bind-ok _ _ w name w read
            ∙ then_branch w (names_channel name) _ _ room
            ∙ bind-ok _ _ w w.server w refl
            ∙ channel-found w _ a _ _ found
            ∙ bind-ok _ _ w text w read'
            ∙ seq-ok _ _ w v run,
        sent,
      )
