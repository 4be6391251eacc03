-- ===== src/Registry/Writes.antt =====
-- Writes to the state that leave the registry as it is.
use circ.Base.{ℕ, ◌≡◌, refl, sym, ap, ==_iff, ◌∙◌, Option, some, ◌==◌, Bool-cases, inl, inr}
use circ.Glib.{Glib, Response}
use circ.Registry.{who, IsRegistry, SameNames-IsRegistry}
use circ.Frame.{identity}
use circ.World.{
  Client, Channel, Server, World, modify_server, store_client, modify_client, store_channel,
  alloc_channel, write, update,
}
use circ.World.Keeps.{Keeps, Then-load_client}
use circ.World.{close_fd}

module _ ⦃g : Glib⦄ where
  -- A server with the same tables of nicknames and clients.
  pub Keeps-modify_server :
      (f : Server → Server)
      → ((s : Server)
          → ((f s).nicks ≡ s.nicks)
            × ((f s).clients ≡ s.clients)
            × ((f s).id_counter ≡ s.id_counter))
      → Keeps IsRegistry (modify_server f)
  unfolding modify_server
  Keeps-modify_server f same = record {
    at = λ w h.
        let (n, c, i) = same w.server in
        SameNames-IsRegistry
          (record {
            nicks = n;
            clients = c;
            id_counter = i;
            next_client = refl;
            identities = λ p. refl;
          })
          h;
  }

  pub Keeps-store_channel : (p : ℕ) (c : Option Channel) → Keeps IsRegistry (store_channel p c)
  unfolding store_channel
  Keeps-store_channel p c = record {
    at = λ w. SameNames-IsRegistry (record {
      nicks = refl;
      clients = refl;
      id_counter = refl;
      next_client = refl;
      identities = λ p. refl;
    });
  }

  pub Keeps-alloc_channel : Keeps IsRegistry alloc_channel
  unfolding alloc_channel
  Keeps-alloc_channel = record {
    at = λ w. SameNames-IsRegistry (record {
      nicks = refl;
      clients = refl;
      id_counter = refl;
      next_client = refl;
      identities = λ p. refl;
    });
  }

  pub Keeps-close_fd : (fd : ℕ) → Keeps IsRegistry (close_fd fd)
  unfolding close_fd
  Keeps-close_fd fd = record {
    at = λ w. SameNames-IsRegistry (record {
      nicks = refl;
      clients = refl;
      id_counter = refl;
      next_client = refl;
      identities = λ p. refl;
    });
  }

  pub Keeps-write : (fd : ℕ) (r : Response) → Keeps IsRegistry (write fd r)
  unfolding write
  Keeps-write fd r = record {
    at = λ w. SameNames-IsRegistry (record {
      nicks = refl;
      clients = refl;
      id_counter = refl;
      next_client = refl;
      identities = λ p. refl;
    });
  }

  -- A struct that is written back with the same identity.
  identity-update :
      (w : World) (p : ℕ) (c d : Client)
      → w.client_at p ≡ some c
      → identity (some d) ≡ identity (some c)
      → (q : ℕ) → identity (update w.client_at p (some d) q) ≡ who w q
  identity-update w p c d e same q = elim (Bool-cases (p == q)) [
    | inl here ↦ rw here (same ∙ sym (ap identity e) ∙ ap (who w) ((==_iff p q).0 here))
    | inr other ↦ rw other
  ]

  pub Keeps-modify_client :
      (p : ℕ) (f : Client → Client)
      → ((c : Client) → identity (some (f c)) ≡ identity (some c))
      → Keeps IsRegistry (modify_client p f)
  unfolding modify_client store_client
  Keeps-modify_client p f same = record {
    at = λ w h. Then-load_client IsRegistry w p _ (λ c e.
        SameNames-IsRegistry
          (record {
            nicks = refl;
            clients = refl;
            id_counter = refl;
            next_client = refl;
            identities = identity-update w p c (f c) e (same c);
          })
          h);
  }
