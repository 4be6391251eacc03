-- ===== src/Relaying/Turned.antt =====
-- States that differ in the connection of one client, as src/connection.c, src/read_message.c and
-- src/parser.c leave them.
use circ.Base.Int.{ℤ}
use circ.Channel.{is_source}
use circ.Base.{
  ℕ, ◌≡◌, refl, sym, ap, ap₂, ◌∙◌, inl, inr, true, false, Option, some, some_inj, List, [], ◌∷◌,
  Bool-cases, ◌==◌, ==_iff, if◌then◌else◌,
}
use circ.Channel.Delivery.{deliveries}
use circ.Connection.{Conn}
use circ.Directory.{id_in, IsDirectory, SameRooms-IsDirectory}
use circ.Flushing.{IsFlushed}
use circ.Glib.{Glib, Response}
use circ.Frame.{identity}
use circ.HandleRead.{set_conn}
use circ.Registry.{who, IsRegistry, SameNames-IsRegistry}
use circ.Sending.Delivery.{fd_in}
use circ.World.{Client, Server, World, ok, update}
use circ.World.Runs.{modify_client-ok}

module _ ⦃g : Glib⦄ where
  -- In `v` the client `p`, which was `c`, has the connection `conn`; all else is as in `w`.
  pub record IsTurned (w : World) (p : ℕ) (c : Client) (conn : Conn) (v : World) : Type 0 where
    pub here : v.client_at p ≡ some (record c { conn = conn })
    pub others : (q : ℕ) → p == q ≡ false → v.client_at q ≡ w.client_at q
    pub server : v.server ≡ w.server
    pub channel_at : v.channel_at ≡ w.channel_at
    pub next_channel : v.next_channel ≡ w.next_channel
    pub next_client : v.next_client ≡ w.next_client
    pub sent : v.sent ≡ w.sent
    pub closed : v.closed ≡ w.closed

  abbrev with_conn : World → ℕ → Client → Conn → World
  with_conn w p c conn = record w {
    client_at = update w.client_at p (some (record c { conn = conn }));
  }

  set_conn-ok :
      (w : World) (p : ℕ) (c : Client) (conn : Conn)
      → w.client_at p ≡ some c
      → set_conn p conn w ≡ ok tt (with_conn w p c conn)
  unfolding set_conn
  set_conn-ok w p c conn here = modify_client-ok p _ w c here

  -- One more change of it.
  pub turn :
      (w v : World) (p : ℕ) (c : Client) (old conn : Conn)
      → IsTurned w p c old v
      → (u : World) × (set_conn p conn v ≡ ok tt u) × IsTurned w p c conn u
  turn w v p c old conn t =
      let same : p == p ≡ true = (==_iff p p).1 refl in
      (
        with_conn v p (record c { conn = old }) conn,
        set_conn-ok v p (record c { conn = old }) conn t.here,
        record {
          here = rw same refl;
          others = λ q other. rw other (t.others q other);
          server = t.server;
          channel_at = t.channel_at;
          next_channel = t.next_channel;
          next_client = t.next_client;
          sent = t.sent;
          closed = t.closed;
        },
      )

  pub refl-IsTurned :
      (w : World) (p : ℕ) (c : Client) → w.client_at p ≡ some c → IsTurned w p c c.conn w
  refl-IsTurned w p c here = record {
    here = here;
    others = λ q other. refl;
    server = refl;
    channel_at = refl;
    next_channel = refl;
    next_client = refl;
    sent = refl;
    closed = refl;
  }

  module _ {w v : World} {p : ℕ} {c : Client} {conn : Conn} (here : w.client_at p ≡ some c)
      (t : IsTurned w p c conn v) where
    -- What a field of the structs is, if it does not look at the connection.
    same_field :
        {A : Type 0} (f : Option Client → A)
        → f (some (record c { conn = conn })) ≡ f (some c)
        → (q : ℕ) → f (v.client_at q) ≡ f (w.client_at q)
    same_field f same q = elim (Bool-cases (p == q)) [
      | inl this ↦ rw (sym ((==_iff p q).0 this)) (ap f t.here ∙ same ∙ sym (ap f here))
      | inr other ↦ ap f (t.others q other)
    ]

    pub IsTurned-IsDirectory : IsDirectory w → IsDirectory v
    IsTurned-IsDirectory = SameRooms-IsDirectory (record {
      channels = ap (λ (s : Server). s.channels) t.server;
      channel_at = t.channel_at;
      next_channel = t.next_channel;
      next_client = t.next_client;
      ids = same_field id_in refl;
    })

    pub IsTurned-IsFlushed : IsFlushed w → IsFlushed v
    IsTurned-IsFlushed h = record {
      empty = λ q d at_q. elim (Bool-cases (p == q)) [
        | inl this ↦
            let e : some (record c { conn = conn }) ≡ some d =
              sym t.here ∙ ap v.client_at ((==_iff p q).0 this) ∙ at_q in
            rw (sym (some_inj.0 e)) (h.empty p c here)
        | inr other ↦ h.empty q d (sym (t.others q other) ∙ at_q)
      ];
    }

    pub IsTurned-deliveries :
        conn.fd ≡ c.conn.fd
        → (r : Response) (source : ℤ) (l : List (ℕ × ℕ))
        → deliveries v r source l ≡ deliveries w r source l
    IsTurned-deliveries same r source [] = refl
    IsTurned-deliveries same r source ((key, q) ∷ l) =
        ap₂ (λ fd rest. if is_source source key then rest else (fd, r) ∷ rest)
          (same_field fd_in same q) (IsTurned-deliveries same r source l)

    pub IsTurned-who : (q : ℕ) → who v q ≡ who w q
    IsTurned-who q = same_field identity refl q

    pub IsTurned-IsRegistry : IsRegistry w → IsRegistry v
    IsTurned-IsRegistry = SameNames-IsRegistry (record {
      nicks = ap (λ (s : Server). s.nicks) t.server;
      clients = ap (λ (s : Server). s.clients) t.server;
      id_counter = ap (λ (s : Server). s.id_counter) t.server;
      next_client = t.next_client;
      identities = IsTurned-who;
    })

    -- Every client is as it was but for the connection, which has the same descriptor.
    pub turned_client :
        conn.fd ≡ c.conn.fd
        → (q : ℕ) (b : Client) → w.client_at q ≡ some b
        → (k : Conn) × (v.client_at q ≡ some (record b { conn = k })) × (k.fd ≡ b.conn.fd)
    turned_client same q b at_q = elim (Bool-cases (p == q)) [
      | inl this ↦
          let pq : p ≡ q = (==_iff p q).0 this in
          let e : c ≡ b = some_inj.0 (sym here ∙ ap w.client_at pq ∙ at_q) in
          (
            conn,
            ap v.client_at (sym pq)
                ∙ t.here
                ∙ ap (λ (x : Client). some (record x { conn = conn })) e,
            same ∙ ap (λ (x : Client). x.conn.fd) e,
          )
      | inr other ↦ (b.conn, t.others q other ∙ at_q, refl)
    ]
