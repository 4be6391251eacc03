-- ===== src/Buffers/Kept.antt =====
-- What the handlers leave of the buffers of a connection.
use circ.Base.{
  ℕ, ◌≡◌, refl, sym, inl, inr, true, Option, some, some_inj, Bytes, Bool-cases, ◌==◌, ==_iff, ltb,
  length,
}
use circ.Buffers.{Everyone, ReadsBuffers}
use circ.Client.{client_try_change_nick, client_try_register, set_nickname}
use circ.Connection.{Conn}
use circ.Frame.{AllowsWrites, buffers}
use circ.Frame.Forward.{Keeps-format}
use circ.Glib.{Glib, Response}
use circ.Irc.{nick_max_size}
use circ.World.{
  Client, Channel, Server, World, modify_server, modify_client, store_client, store_channel,
  alloc_channel, write, update,
}
use circ.World.Keeps.{Keeps, Then-load_client, Keeps-if, Keeps-fault, run_rules}

module _ ⦃g : Glib⦄ {Q : ℕ → Conn → Type 0} where
  Keeps-server : (f : Server → Server) → Keeps (Everyone Q) (modify_server f)
  unfolding modify_server
  Keeps-server f = record { at = λ w h. record { each = h.each } }

  Keeps-channel : (p : ℕ) (c : Option Channel) → Keeps (Everyone Q) (store_channel p c)
  unfolding store_channel
  Keeps-channel p c = record { at = λ w h. record { each = h.each } }

  Keeps-alloc : Keeps (Everyone Q) alloc_channel
  unfolding alloc_channel
  Keeps-alloc = record { at = λ w h. record { each = h.each } }

  Keeps-sent : (fd : ℕ) (r : Response) → Keeps (Everyone Q) (write fd r)
  unfolding write
  Keeps-sent fd r = record { at = λ w h. record { each = h.each } }

  -- One struct is written, and `Q` holds of what is written.
  pub Everyone-update :
      (w : World) (p : ℕ) (d : Client)
      → Everyone Q w
      → Q p d.conn
      → Everyone Q (record w { client_at = update w.client_at p (some d) })
  Everyone-update w p d h new = record {
    each = λ q c at_q. elim (Bool-cases (p == q)) [
      | inl here ↦
          let e : some d ≡ some c = rw here at at_q in
          rw (sym ((==_iff p q).0 here), sym (some_inj.0 e)) new
      | inr other ↦ h.each q c (rw other at at_q)
    ];
  }

  module _ (reads : ReadsBuffers Q) where
    pub Keeps-client :
        (p : ℕ) (f : Client → Client)
        → ((c : Client) → buffers (f c).conn ≡ buffers c.conn)
        → Keeps (Everyone Q) (modify_client p f)
    unfolding modify_client store_client
    Keeps-client p f same = record {
      at = λ w h. Then-load_client (Everyone Q) w p _ (λ c here.
          Everyone-update w p (f c) h (reads p c.conn (f c).conn (same c) (h.each p c here)));
    }

    Keeps-set_nickname : (client : ℕ) (nick : Bytes) → Keeps (Everyone Q) (set_nickname client nick)
    unfolding set_nickname
    Keeps-set_nickname client nick =
        Keeps-if (ltb nick_max_size (length nick)) _ _ Keeps-fault
          (Keeps-client client _ (λ c. refl))

    Keeps-rename :
        (client : ℕ) (nick : Bytes) → Keeps (Everyone Q) (client_try_change_nick client nick)
    unfolding client_try_change_nick
    Keeps-rename client nick =
        search (run_rules, Keeps-format, Keeps-server, Keeps-set_nickname) depth 15

    Keeps-set_registered :
        (client : ℕ)
        → Keeps (Everyone Q) (modify_client client (λ d. record d { registered = true }))
    Keeps-set_registered client = Keeps-client client _ (λ c. refl)

    Keeps-register : (client : ℕ) → Keeps (Everyone Q) (client_try_register client)
    unfolding client_try_register
    Keeps-register client =
        search (run_rules, Keeps-format, Keeps-server, Keeps-set_registered) depth 18

    pub Everyone-Allows : AllowsWrites (Everyone Q)
    Everyone-Allows = record {
      channels = λ f. Keeps-server _;
      channel = Keeps-channel;
      new_channel = Keeps-alloc;
      sending = record {
        sent = Keeps-sent;
        client = λ p f same. Keeps-client p f (λ c. (same c).1);
      };
      rename = Keeps-rename;
      register = Keeps-register;
    }
