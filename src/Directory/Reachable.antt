-- ===== src/Directory/Reachable.antt =====
-- The channels in every state that the events of src/client.c lead to.
use circ.Base.{
  ℕ, ◌+◌, ◌<◌, ◌≡◌, refl, sym, ap, ◌∙◌, inl, inr, Bool, true, false, Option, none, some,
  none_absurd, Bytes, Bool-cases, ◌==◌, if◌then◌else◌, arith,
}
use circ.Client.{server_accept, new_client, client_closed}
use circ.Connection.{Conn}
use circ.Directory.{id_in, id_at, IsDirectory}
use circ.Directory.Leaving.{Keeps-part_leave}
use circ.Directory.Making.{Keeps-channel_join, Keeps-channel_set_topic, Keeps-server_create_channel}
use circ.Directory.Writes.{
  Keeps-modify_server, Keeps-modify_client, Keeps-client_try_change_nick, Keeps-client_try_register,
  sending_writes,
}
use circ.Frame.{Allows}
use circ.Frame.Reads.{AllowsReads, Keeps-client_handle_read}
use circ.Frame.Dispatch.{Keeps-run_handler}
use circ.Frame.Quiet.{Keeps-enqueue, Keeps-client_send, Keeps-client_try_empty_buffer}
use circ.Glib.{Glib}
use circ.HandleRead.{set_conn, handle_one}
use circ.Irc.{IrcMessage}
use circ.Server.{server_generate_id, count_down}
use circ.Serving.{initial, Step, Reaches}
use circ.World.{
  Client, Channel, Server, World, ◌>>=◌, ◌>>◌, pure, get_server, modify_server, alloc_client,
  store_client, update,
}
use circ.World.Keeps.{Keeps, Then-ok, Keeps-bind, Keeps-load_client, run_rules}
use circ.Directory.Writes.{Keeps-close_fd}
use circ.World.Keeps.{Keeps-seq}

module _ ⦃g : Glib⦄ where
  IsDirectory-Allows : (me : ℕ) → Allows IsDirectory me
  IsDirectory-Allows me = record {
    client = λ f same. sending_writes.client me f (λ c. (same c).0);
    queue = Keeps-enqueue sending_writes me;
    send = Keeps-client_send sending_writes;
    rename = Keeps-client_try_change_nick me;
    register = Keeps-client_try_register me;
    create = λ name. Keeps-server_create_channel name me;
    join = λ channel. Keeps-channel_join channel me;
    leave = Keeps-part_leave me;
    topic = Keeps-channel_set_topic;
  }

  Keeps-set_conn : (client : ℕ) (conn : Conn) → Keeps IsDirectory (set_conn client conn)
  unfolding set_conn
  Keeps-set_conn client conn = Keeps-modify_client client _ (λ c. refl)

  Keeps-handle_one :
      (client : ℕ) (message : IrcMessage) → Keeps IsDirectory (handle_one client message)
  unfolding handle_one
  Keeps-handle_one client message =
      search
        (
          run_rules,
          Keeps-set_conn,
          Keeps-run_handler (IsDirectory-Allows client),
          Keeps-client_try_empty_buffer sending_writes,
        )
        depth 15

  Keeps-client_closed : (client : ℕ) → Keeps IsDirectory (client_closed client)
  unfolding client_closed
  Keeps-client_closed client =
      Keeps-bind _ _ (Keeps-load_client client) (λ c.
        Keeps-seq _ _ (Keeps-close_fd c.conn.fd) (Keeps-modify_server _ (counted c.registered)))
    where
      counted :
          (b : Bool) (s : Server)
          → let t : Server =
              if b
              then record s { n_users = count_down s.n_users }
              else record s { n_unknown = count_down s.n_unknown } in
            t.channels ≡ s.channels
      counted true s = refl
      counted false s = refl

  reading : AllowsReads IsDirectory
  reading = record { conn = Keeps-set_conn; one = Keeps-handle_one; closed = Keeps-client_closed }

  -- The heap with a new client, or with nothing at its address.
  abbrev arrived : World → Client → Bool → ℕ → Option Client
  arrived w d watched =
      let up = update w.client_at w.next_client (some d) in
      if watched then up else update up w.next_client none

  arrived-other :
      (w : World) (d : Client) (watched : Bool) (q : ℕ)
      → w.next_client == q ≡ false
      → arrived w d watched q ≡ w.client_at q
  arrived-other w d true q other = rw other refl
  arrived-other w d false q other = rw other refl

  arrived-below :
      (w : World) (d : Client) (watched : Bool)
      → IsDirectory w
      → (q id : ℕ) → id_in (arrived w d watched q) ≡ some id
      → q < w.next_client + 1
  arrived-below w d watched h q id found = elim (Bool-cases (w.next_client == q)) [
    | inl this ↦ ground arith
    | inr other ↦
        let old : id_at w q ≡ some id =
          sym (ap id_in (arrived-other w d watched q other)) ∙ found in
        let low = h.sound.clients_below q id old in omega arith
  ]

  -- Members are older clients.
  arrived-members :
      (w : World) (d : Client) (watched : Bool)
      → IsDirectory w
      → (p : ℕ) (ch : Channel) → w.channel_at p ≡ some ch
      → (id q : ℕ) → g.ints.lookup ch.members id ≡ some q
      → id_in (arrived w d watched q) ≡ some id
  arrived-members w d watched h p ch there id q found =
      let old = h.sound.members p ch there id q found in
      let low = h.sound.clients_below q id old in
      let other : w.next_client == q ≡ false = ground arith in
      ap id_in (arrived-other w d watched q other) ∙ old

  Keeps-server_accept :
      (fd : ℕ) (hostname : Bytes) (watched : Bool)
      → Keeps IsDirectory (server_accept fd hostname watched)
  unfolding server_accept ◌>>=◌ ◌>>◌ alloc_client server_generate_id get_server modify_server
      store_client pure
  Keeps-server_accept fd hostname true = record {
    at = λ w h. record {
      sound = record {
        members = arrived-members w (new_client fd w.server.id_counter hostname) true h;
        named = h.sound.named;
        lowered = h.sound.lowered;
        channels_below = h.sound.channels_below;
        clients_below = arrived-below w (new_client fd w.server.id_counter hostname) true h;
      };
      inhabited = h.inhabited;
    };
  }
  Keeps-server_accept fd hostname false = record {
    at = λ w h. record {
      sound = record {
        members = arrived-members w (new_client fd w.server.id_counter hostname) false h;
        named = h.sound.named;
        lowered = h.sound.lowered;
        channels_below = h.sound.channels_below;
        clients_below = arrived-below w (new_client fd w.server.id_counter hostname) false h;
      };
      inhabited = h.inhabited;
    };
  }

  initial-IsDirectory :
      (hostname : Bytes) (motd : Option Bytes) → IsDirectory (initial hostname motd)
  unfolding initial
  initial-IsDirectory hostname motd = record {
    sound = record {
      members = λ p ch h. none_absurd h;
      named = λ n p h. none_absurd (sym (g.strings.lookup-new n) ∙ h);
      lowered = λ n p h. none_absurd (sym (g.strings.lookup-new n) ∙ h);
      channels_below = λ p ch h. none_absurd h;
      clients_below = λ p id h. none_absurd h;
    };
    inhabited = λ p ch h. none_absurd h;
  }

  Step-IsDirectory : {w v : World} → Step w v → IsDirectory w → IsDirectory v
  Step-IsDirectory {w} (Step.accepts fd hostname watched client v e) h =
      Then-ok IsDirectory e ((Keeps-server_accept fd hostname watched).at w h)
  Step-IsDirectory {w} (Step.reads client input result v fits e) h =
      Then-ok IsDirectory e ((Keeps-client_handle_read reading client input).at w h)

  -- In every state that the server reaches from its start by accepting clients and by reads that
  -- deliver no more bytes than they are asked for: each member of a channel is a client that
  -- exists, held under its own id; every channel has a member; a name of at most 50 bytes in the
  -- table of channels is that of a channel that exists and bears it; and each name in the table is
  -- in lower case.
  pub reachable-IsDirectory :
      (hostname : Bytes) (motd : Option Bytes) {w : World}
      → Reaches (initial hostname motd) w
      → IsDirectory w
  reachable-IsDirectory hostname motd Reaches.start = initial-IsDirectory hostname motd
  reachable-IsDirectory hostname motd (Reaches.next before step) =
      Step-IsDirectory step (reachable-IsDirectory hostname motd before)
