-- ===== src/Directory/Writes.antt =====
-- Writes to the state that leave the channels as they are.
use circ.Base.{
  ℕ, ◌≡◌, refl, sym, ap, ◌∙◌, inl, inr, Bool, true, Option, none, some, Bytes, Bool-cases, ◌==◌,
  ==_iff, ltb, length,
}
use circ.Client.{client_try_change_nick, client_try_register, set_nickname}
use circ.Directory.{id_in, id_at, IsDirectory, SameRooms-IsDirectory}
use circ.Frame.{AllowsSending}
use circ.Frame.Forward.{Keeps-format}
use circ.Glib.{Glib, Response}
use circ.Irc.{nick_max_size}
use circ.World.{Client, Server, World, modify_server, modify_client, store_client, write, update}
use circ.World.Keeps.{Keeps, Then-load_client, Keeps-if, Keeps-fault, run_rules}
use circ.World.{close_fd}

module _ ⦃g : Glib⦄ where
  pub Keeps-modify_server :
      (f : Server → Server)
      → ((s : Server) → (f s).channels ≡ s.channels)
      → Keeps IsDirectory (modify_server f)
  unfolding modify_server
  Keeps-modify_server f same = record {
    at = λ w h.
        SameRooms-IsDirectory
          (record {
            channels = same w.server;
            channel_at = refl;
            next_channel = refl;
            next_client = refl;
            ids = λ p. refl;
          })
          h;
  }

  pub Keeps-close_fd : (fd : ℕ) → Keeps IsDirectory (close_fd fd)
  unfolding close_fd
  Keeps-close_fd fd = record {
    at = λ w. SameRooms-IsDirectory (record {
      channels = refl;
      channel_at = refl;
      next_channel = refl;
      next_client = refl;
      ids = λ p. refl;
    });
  }

  Keeps-write : (fd : ℕ) (r : Response) → Keeps IsDirectory (write fd r)
  unfolding write
  Keeps-write fd r = record {
    at = λ w. SameRooms-IsDirectory (record {
      channels = refl;
      channel_at = refl;
      next_channel = refl;
      next_client = refl;
      ids = λ p. refl;
    });
  }

  id-update :
      (w : World) (p : ℕ) (c d : Client)
      → w.client_at p ≡ some c
      → d.client_id ≡ c.client_id
      → (q : ℕ) → id_in (update w.client_at p (some d) q) ≡ id_at w q
  id-update w p c d e same q = elim (Bool-cases (p == q)) [
    | inl here ↦ rw here (ap some same ∙ sym (ap id_in e) ∙ ap (id_at w) ((==_iff p q).0 here))
    | inr other ↦ rw other
  ]

  pub Keeps-modify_client :
      (p : ℕ) (f : Client → Client)
      → ((c : Client) → (f c).client_id ≡ c.client_id)
      → Keeps IsDirectory (modify_client p f)
  unfolding modify_client store_client
  Keeps-modify_client p f same = record {
    at = λ w h. Then-load_client IsDirectory w p _ (λ c e.
        SameRooms-IsDirectory
          (record {
            channels = refl;
            channel_at = refl;
            next_channel = refl;
            next_client = refl;
            ids = id-update w p c (f c) e (same c);
          })
          h);
  }

  Keeps-set_nickname : (client : ℕ) (nick : Bytes) → Keeps IsDirectory (set_nickname client nick)
  unfolding set_nickname
  Keeps-set_nickname client nick =
      Keeps-if (ltb nick_max_size (length nick)) _ _ Keeps-fault
        (Keeps-modify_client client _ (λ c. refl))

  Keeps-nicks :
      (f : Server → g.strings.Table)
      → Keeps IsDirectory (modify_server (λ s. record s { nicks = f s }))
  Keeps-nicks f = Keeps-modify_server _ (λ s. refl)

  Keeps-clients :
      (f : Server → g.ints.Table)
      → Keeps IsDirectory (modify_server (λ s. record s { clients = f s }))
  Keeps-clients f = Keeps-modify_server _ (λ s. refl)

  Keeps-counts :
      (f h : Server → ℕ)
      → Keeps IsDirectory (modify_server (λ s. record s { n_unknown = f s; n_users = h s }))
  Keeps-counts f h = Keeps-modify_server _ (λ s. refl)

  Keeps-set_registered :
      (client : ℕ) → Keeps IsDirectory (modify_client client (λ d. record d { registered = true }))
  Keeps-set_registered client = Keeps-modify_client client _ (λ c. refl)

  pub Keeps-client_try_change_nick :
      (client : ℕ) (nick : Bytes) → Keeps IsDirectory (client_try_change_nick client nick)
  unfolding client_try_change_nick
  Keeps-client_try_change_nick client nick =
      search (run_rules, Keeps-format, Keeps-nicks, Keeps-set_nickname) depth 15

  pub Keeps-client_try_register : (client : ℕ) → Keeps IsDirectory (client_try_register client)
  unfolding client_try_register
  Keeps-client_try_register client =
      search (run_rules, Keeps-format, Keeps-clients, Keeps-counts, Keeps-set_registered) depth 18

  pub sending_writes : AllowsSending IsDirectory
  sending_writes = record {
    sent = Keeps-write;
    client = λ p f same. Keeps-modify_client p f (λ c. ap (id_or c) (same c).0);
  }
    where
      id_or : Client → Option (ℕ × Bytes × Bool) → ℕ
      id_or c o = elim o [ none ↦ c.client_id | some i ↦ i.0 ]
