-- ===== src/Frame/Quiet.antt =====
-- The sending of replies, src/client.c, and invariants of all writes.
use circ.Base.{ℕ, zero, suc, refl}
use circ.Frame.{AllowsSending, AllowsChannels, AllowsWrites, Allows}
use circ.Frame.Channels.{
  Keeps-server_create_channel, Keeps-channel_join, Keeps-part_leave, Keeps-channel_set_topic,
}
use circ.Glib.{Glib, Response}
use circ.Sending.{enqueue, send_all, client_try_empty_buffer, client_send}
use circ.World.{World}
use circ.World.Keeps.{
  Keeps, Keeps-pure, Keeps-bind, Keeps-seq, Keeps-maybe, Keeps-load_client, run_rules,
}

module _ ⦃g : Glib⦄ {P : World → Type 0} (allows : AllowsSending P) where
  pub Keeps-enqueue : (client : ℕ) (r : Response) → Keeps P (enqueue client r)
  unfolding enqueue
  Keeps-enqueue client r = allows.client client _ (λ c. (refl, refl))

  pub Keeps-send_all : (n client : ℕ) → Keeps P (send_all n client)
  unfolding send_all
  Keeps-send_all zero client = search run_rules
  Keeps-send_all (suc n) client = Keeps-bind _ _ (Keeps-load_client client) (λ c.
      Keeps-maybe _ _ _ (Keeps-pure tt) (λ head.
        Keeps-seq _ _ (allows.client client _ (λ d. (refl, refl)))
          (Keeps-seq _ _ (allows.sent _ _) (Keeps-send_all n client))))

  pub Keeps-client_try_empty_buffer : (client : ℕ) → Keeps P (client_try_empty_buffer client)
  unfolding client_try_empty_buffer
  Keeps-client_try_empty_buffer client = search (run_rules, Keeps-send_all)

  pub Keeps-client_send : (client : ℕ) (r : Response) → Keeps P (client_send client r)
  unfolding client_send
  Keeps-client_send client r = search (run_rules, Keeps-enqueue, Keeps-client_try_empty_buffer)

module _ ⦃g : Glib⦄ {P : World → Type 0} (allows : AllowsWrites P) where
  channel_writes : AllowsChannels P
  channel_writes = record {
    channels = allows.channels;
    channel = allows.channel;
    new_channel = allows.new_channel;
    send = Keeps-client_send allows.sending;
  }

  -- An invariant of the writes is one of the operations.
  pub AllowsWrites-Allows : (me : ℕ) → Allows P me
  AllowsWrites-Allows me = record {
    client = λ f same. allows.sending.client me f (λ c. (same c).0);
    queue = Keeps-enqueue allows.sending me;
    send = Keeps-client_send allows.sending;
    rename = allows.rename me;
    register = allows.register me;
    create = λ name. Keeps-server_create_channel channel_writes name me;
    join = λ channel. Keeps-channel_join channel_writes channel me;
    leave = Keeps-part_leave channel_writes me;
    topic = Keeps-channel_set_topic channel_writes;
  }
