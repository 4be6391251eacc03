-- ===== src/Registry/Reading.antt =====
-- `Client_HandleRead` of src/client.c keeps the registry, and so does every sequence of events.
use circ.Base.{ℕ, refl, Option, Bytes}
use circ.Connection.{Conn}
use circ.Glib.{Glib}
use circ.HandleRead.{set_conn, handle_one, client_handle_read}
use circ.Irc.{IrcMessage}
use circ.Registry.{IsRegistry}
use circ.Frame.{AllowsWrites}
use circ.Frame.Reads.{AllowsReads, Keeps-client_handle_read}
use circ.Frame.Dispatch.{Keeps-run_handler}
use circ.Registry.Naming.{Keeps-client_try_change_nick}
use circ.Registry.Writes.{
  Keeps-modify_client, Keeps-modify_server, Keeps-store_channel, Keeps-alloc_channel, Keeps-write,
}
use circ.Frame.Quiet.{Keeps-client_try_empty_buffer, AllowsWrites-Allows}
use circ.Registry.Arrivals.{Keeps-client_closed, Keeps-client_try_register}
use circ.World.Keeps.{Keeps, run_rules}

module _ ⦃g : Glib⦄ where
  -- The two operations that write nicknames keep the registry, and so do all the handlers.
  IsRegistry-Allows : AllowsWrites IsRegistry
  IsRegistry-Allows = record {
    channels = λ f. Keeps-modify_server _ (λ s. (refl, refl, refl));
    channel = Keeps-store_channel;
    new_channel = Keeps-alloc_channel;
    sending = record {
      sent = Keeps-write;
      client = λ p f same. Keeps-modify_client p f (λ c. (same c).0);
    };
    rename = Keeps-client_try_change_nick;
    register = Keeps-client_try_register;
  }

  Keeps-set_conn : (client : ℕ) (conn : Conn) → Keeps IsRegistry (set_conn client conn)
  unfolding set_conn
  Keeps-set_conn client conn = Keeps-modify_client client _ (λ c. refl)

  Keeps-handle_one :
      (client : ℕ) (message : IrcMessage) → Keeps IsRegistry (handle_one client message)
  unfolding handle_one
  Keeps-handle_one client message =
      search
        (
          run_rules,
          Keeps-set_conn,
          Keeps-run_handler (AllowsWrites-Allows IsRegistry-Allows client),
          Keeps-client_try_empty_buffer IsRegistry-Allows.sending,
        )
        depth 15

  reading : AllowsReads IsRegistry
  reading = record { conn = Keeps-set_conn; one = Keeps-handle_one; closed = Keeps-client_closed }

  pub Keeps-read :
      (client : ℕ) (input : Option Bytes) → Keeps IsRegistry (client_handle_read client input)
  Keeps-read = Keeps-client_handle_read reading
