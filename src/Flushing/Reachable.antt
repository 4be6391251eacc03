-- ===== src/Flushing/Reachable.antt =====
-- The queues of responses in every state that the events of src/client.c lead to.
use circ.Base.{
  ℕ, ◌≡◌, inl, inr, Bool, true, false, Option, none, some, none_absurd, [], Bytes, Bool-cases, ◌==◌,
  if◌then◌else◌,
}
use circ.Client.{server_accept, new_client, client_closed}
use circ.Connection.{Conn}
use circ.Flushing.{IsFlushed, IsFlushed-OthersFlushed}
use circ.Flushing.Kept.{IsFlushed-update, empty_buffer-Leads, OthersFlushed-Allows}
use circ.Frame.Reads.{AllowsReads, Keeps-client_handle_read}
use circ.Frame.Dispatch.{Keeps-run_handler}
use circ.Glib.{Glib}
use circ.HandleRead.{set_conn, handle_one}
use circ.Irc.{IrcMessage}
use circ.Serving.{initial, Step, Reaches}
use circ.Server.{server_generate_id}
use circ.World.{
  Client, World, ◌>>=◌, ◌>>◌, pure, get_server, modify_server, modify_client, alloc_client,
  store_client, update,
}
use circ.World.Keeps.{
  Keeps, Then-ok, Then-load_client, Keeps-pure, Keeps-bind, Keeps-seq, Keeps-load_client,
}
use circ.World.Leads.{Leads-seq, Keeps-Leads}
use circ.World.{close_fd}

module _ ⦃g : Glib⦄ where
  Keeps-set_conn : (client : ℕ) (conn : Conn) → Keeps IsFlushed (set_conn client conn)
  unfolding set_conn modify_client store_client
  Keeps-set_conn client conn = record {
    at = λ w h.
        Then-load_client IsFlushed w client _ (λ c here.
          IsFlushed-update w client (record c { conn = conn }) h (h.empty client c here));
  }

  Keeps-handle_one :
      (client : ℕ) (message : IrcMessage) → Keeps IsFlushed (handle_one client message)
  unfolding handle_one
  Keeps-handle_one client message = Keeps-bind _ _ (Keeps-load_client client) (λ c.
      Keeps-seq _ _ (Keeps-set_conn client _) (record {
        at = λ w h.
            (Leads-seq _ _
                (Keeps-Leads _ (Keeps-run_handler (OthersFlushed-Allows client) _ _) (λ v k. k))
                (Leads-seq _ _ (empty_buffer-Leads client)
                  (Keeps-Leads _ (Keeps-pure _) (λ v k. k)))).at
              w (IsFlushed-OthersFlushed client w h);
      }))

  Keeps-client_closed : (client : ℕ) → Keeps IsFlushed (client_closed client)
  unfolding client_closed modify_server close_fd
  Keeps-client_closed client = Keeps-bind _ _ (Keeps-load_client client) (λ c.
      Keeps-seq _ _ (record { at = λ w h. record { empty = h.empty } })
        (record { at = λ w h. record { empty = h.empty } }))

  reading : AllowsReads IsFlushed
  reading = record { conn = Keeps-set_conn; one = Keeps-handle_one; closed = Keeps-client_closed }

  accepted-empty :
      (w : World) (d : Client) (watched : Bool)
      → IsFlushed w
      → g.queues.elements d.responses ≡ []
      → (q : ℕ) (c : Client)
      → (let up = update w.client_at w.next_client (some d) in
            if watched then up else update up w.next_client none)
          q
        ≡ some c
      → g.queues.elements c.responses ≡ []
  accepted-empty w d true h new q c here = (IsFlushed-update w w.next_client d h new).empty q c here
  accepted-empty w d false h new q c here = elim (Bool-cases (w.next_client == q)) [
    | inl same ↦ none_absurd (rw same at here)
    | inr other ↦ h.empty q c (rw other at here)
  ]

  new_client-empty :
      (fd id : ℕ) (hostname : Bytes) → g.queues.elements (new_client fd id hostname).responses ≡ []
  unfolding new_client
  new_client-empty fd id hostname = g.queues.elements-new

  Keeps-server_accept :
      (fd : ℕ) (hostname : Bytes) (watched : Bool)
      → Keeps IsFlushed (server_accept fd hostname watched)
  unfolding server_accept ◌>>=◌ ◌>>◌ alloc_client server_generate_id get_server modify_server
      store_client pure
  Keeps-server_accept fd hostname true = record {
    at = λ w h. record {
      empty = accepted-empty w _ true h (new_client-empty fd w.server.id_counter hostname);
    };
  }
  Keeps-server_accept fd hostname false = record {
    at = λ w h. record {
      empty = accepted-empty w _ false h (new_client-empty fd w.server.id_counter hostname);
    };
  }

  Step-IsFlushed : {w v : World} → Step w v → IsFlushed w → IsFlushed v
  Step-IsFlushed {w} (Step.accepts fd hostname watched client v e) h =
      Then-ok IsFlushed e ((Keeps-server_accept fd hostname watched).at w h)
  Step-IsFlushed {w} (Step.reads client input result v fits e) h =
      Then-ok IsFlushed e ((Keeps-client_handle_read reading client input).at w h)

  -- In every state that the server reaches from its start by accepting clients and by reads that
  -- deliver no more bytes than they are asked for, the queue of every client is empty: each
  -- response that a handler or another client has put there was taken out again.
  pub reachable-IsFlushed :
      (hostname : Bytes) (motd : Option Bytes) {w : World}
      → Reaches (initial hostname motd) w
      → IsFlushed w
  unfolding initial
  reachable-IsFlushed hostname motd Reaches.start = record { empty = λ p c h. none_absurd h }
  reachable-IsFlushed hostname motd (Reaches.next before step) =
      Step-IsFlushed step (reachable-IsFlushed hostname motd before)
