-- ===== src/Flushing/Kept.antt =====
-- What the handlers for one client leave in the queues of the others.
use circ.Base.{
  ℕ, ◌≡◌, refl, sym, ◌∙◌, inl, inr, true, false, Option, none, some, some_inj, [], Bytes,
  Bool-cases, Option-cases, ◌==◌, ==_iff, ltb, length,
}
use circ.Client.{client_try_change_nick, client_try_register, set_nickname}
use circ.Flushing.{IsFlushed, OthersFlushed}
use circ.Frame.{Allows, AllowsChannels}
use circ.Frame.Channels.{
  Keeps-server_create_channel, Keeps-channel_join, Keeps-part_leave, Keeps-channel_set_topic,
}
use circ.Frame.Forward.{Keeps-format}
use circ.Glib.{Glib, Response}
use circ.Irc.{nick_max_size}
use circ.Sending.{enqueue, client_send, client_try_empty_buffer}
use circ.Sending.Draining.{IsDrained, client_try_empty_buffer-IsDrained}
use circ.World.{
  Client, Channel, Server, World, crash, modify_server, modify_client, store_client, store_channel,
  alloc_channel, update,
}
use circ.World.Keeps.{Keeps, Then-load_client, Keeps-if, Keeps-fault, run_rules}
use circ.World.Runs.{seq-ok, seq-crash, modify_client-ok, load_client-crash}
use circ.World.Leads.{Leads}

module _ ⦃g : Glib⦄ where
  -- One struct is written, whose queue is empty.
  pub IsFlushed-update :
      (w : World) (p : ℕ) (d : Client)
      → IsFlushed w
      → g.queues.elements d.responses ≡ []
      → IsFlushed (record w { client_at = update w.client_at p (some d) })
  IsFlushed-update w p d h nothing = record {
    empty = λ q c at_q. elim (Bool-cases (p == q)) [
      | inl here ↦ let e : some d ≡ some c = rw here at at_q in rw (sym (some_inj.0 e)) nothing
      | inr other ↦ h.empty q c (rw other at at_q)
    ];
  }

  drained-IsFlushed :
      (w v : World) (p : ℕ) (c : Client)
      → ((q : ℕ) (d : Client)
          → p == q ≡ false
          → w.client_at q ≡ some d
          → g.queues.elements d.responses ≡ [])
      → IsDrained w p c (g.queues.elements c.responses) v
      → IsFlushed v
  drained-IsFlushed w v p c h done = record {
    empty = λ q d at_q. elim (Bool-cases (p == q)) [
      | inl here ↦
          let e : some (record c { responses = done.queue }) ≡ some d =
            sym done.here ∙ rw (sym ((==_iff p q).0 here)) at at_q in
          rw (sym (some_inj.0 e)) done.empty
      | inr other ↦ h q d other (sym (done.others q other) ∙ at_q)
    ];
  }

  empty_buffer-gone :
      (p : ℕ) (w : World) → w.client_at p ≡ none → client_try_empty_buffer p w ≡ crash
  unfolding client_try_empty_buffer
  empty_buffer-gone p w gone = load_client-crash p _ w gone

  -- Once its queue is emptied as well, all are empty.
  pub empty_buffer-Leads :
      (me : ℕ) → Leads (OthersFlushed me) IsFlushed (client_try_empty_buffer me)
  empty_buffer-Leads me = record {
    at = λ w h. elim (Option-cases (w.client_at me)) [
      | inl gone ↦ rw (empty_buffer-gone me w gone) tt
      | inr (c, here) ↦
          let (v, run, done) = client_try_empty_buffer-IsDrained w me c here in
          rw run (drained-IsFlushed w v me c h.empty done)
    ];
  }

  sent-OthersFlushed :
      (me p : ℕ) (w v : World) (c d : Client)
      → OthersFlushed me w
      → (let u : World = record w { client_at = update w.client_at p (some d) } in
          IsDrained u p c (g.queues.elements c.responses) v)
      → OthersFlushed me v
  sent-OthersFlushed me p w v c d h done = record {
    empty = λ q e apart at_q. elim (Bool-cases (p == q)) [
      | inl here ↦
          let same : some (record c { responses = done.queue }) ≡ some e =
            sym done.here ∙ rw (sym ((==_iff p q).0 here)) at at_q in
          rw (sym (some_inj.0 same)) done.empty
      | inr other ↦ h.empty q e apart (rw other at (sym (done.others q other) ∙ at_q))
    ];
  }

  abbrev with_response : Client → Response → Client
  with_response c r = record c { responses = g.queues.push_tail c.responses r }

  send-gone : (p : ℕ) (r : Response) (w : World) → w.client_at p ≡ none → client_send p r w ≡ crash
  unfolding client_send enqueue modify_client
  send-gone p r w gone = seq-crash _ _ w (load_client-crash p _ w gone)

  send-ok :
      (p : ℕ) (r : Response) (w : World) (c : Client)
      → w.client_at p ≡ some c
      → client_send p r w
        ≡ client_try_empty_buffer p
            (record w { client_at = update w.client_at p (some (with_response c r)) })
  unfolding client_send enqueue
  send-ok p r w c here = seq-ok _ _ w _ (modify_client-ok p _ w c here)

  module _ {me : ℕ} where
    Keeps-send : (target : ℕ) (r : Response) → Keeps (OthersFlushed me) (client_send target r)
    Keeps-send target r = record {
      at = λ w h. elim (Option-cases (w.client_at target)) [
        | inl gone ↦ rw (send-gone target r w gone) tt
        | inr (c, here) ↦
            let d = with_response c r in
            let u : World = record w { client_at = update w.client_at target (some d) } in
            let same : target == target ≡ true = (==_iff target target).1 refl in
            let there : u.client_at target ≡ some d = rw same refl in
            let (v, run, done) = client_try_empty_buffer-IsDrained u target d there in
            rw (send-ok target r w c here ∙ run) (sent-OthersFlushed me target w v d d h done)
      ];
    }

    Keeps-mine : (f : Client → Client) → Keeps (OthersFlushed me) (modify_client me f)
    unfolding modify_client store_client
    Keeps-mine f = record {
      at = λ w h.
          Then-load_client (OthersFlushed me) w me _
            (λ c here. record { empty = λ q d apart at_q. h.empty q d apart (rw apart at at_q) });
    }

    Keeps-server : (f : Server → Server) → Keeps (OthersFlushed me) (modify_server f)
    unfolding modify_server
    Keeps-server f = record { at = λ w h. record { empty = h.empty } }

    Keeps-channel : (p : ℕ) (c : Option Channel) → Keeps (OthersFlushed me) (store_channel p c)
    unfolding store_channel
    Keeps-channel p c = record { at = λ w h. record { empty = h.empty } }

    Keeps-alloc : Keeps (OthersFlushed me) alloc_channel
    unfolding alloc_channel
    Keeps-alloc = record { at = λ w h. record { empty = h.empty } }

    Keeps-set_nickname : (nick : Bytes) → Keeps (OthersFlushed me) (set_nickname me nick)
    unfolding set_nickname
    Keeps-set_nickname nick =
        Keeps-if (ltb nick_max_size (length nick)) _ _ Keeps-fault (Keeps-mine _)

    Keeps-rename : (nick : Bytes) → Keeps (OthersFlushed me) (client_try_change_nick me nick)
    unfolding client_try_change_nick
    Keeps-rename nick = search (run_rules, Keeps-format, Keeps-server, Keeps-set_nickname) depth 15

    Keeps-register : Keeps (OthersFlushed me) (client_try_register me)
    unfolding client_try_register
    Keeps-register = search (run_rules, Keeps-format, Keeps-server, Keeps-mine) depth 18

    channel_writes : AllowsChannels (OthersFlushed me)
    channel_writes = record {
      channels = λ f. Keeps-server _;
      channel = Keeps-channel;
      new_channel = Keeps-alloc;
      send = Keeps-send;
    }

    Keeps-queue : (r : Response) → Keeps (OthersFlushed me) (enqueue me r)
    unfolding enqueue
    Keeps-queue r = Keeps-mine _

  pub OthersFlushed-Allows : (me : ℕ) → Allows (OthersFlushed me) me
  OthersFlushed-Allows me = record {
    client = λ f same. Keeps-mine f;
    queue = Keeps-queue;
    send = Keeps-send;
    rename = Keeps-rename;
    register = Keeps-register;
    create = λ name. Keeps-server_create_channel channel_writes name me;
    join = λ channel. Keeps-channel_join channel_writes channel me;
    leave = Keeps-part_leave channel_writes me;
    topic = Keeps-channel_set_topic channel_writes;
  }
