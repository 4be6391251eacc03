-- ===== src/Registry/Arrivals.antt =====
-- Clients that arrive, register and leave, in src/client.c: the operations that write to the
-- table of clients.
use circ.Base.{
  [], ℕ, ◌+◌, ◌<◌, ◌≡◌, refl, sym, ap, ◌∙◌, inl, inr, Bool, true, false, not, ◌&&◌, Option, none,
  some, none_absurd, Bytes, if◌then◌else◌, ◌==◌, ==_iff, Bool-cases, arith,
}
use circ.Client.{client_try_register, server_accept, new_client, client_closed}
use circ.Replies.{rpl_welcome}
use circ.Sending.{format}
use circ.Glib.{Glib}
use circ.Registry.{who, IsRegistry}
use circ.Frame.{identity}
use circ.Frame.Forward.{Keeps-format}
use circ.Registry.Writes.{Keeps-modify_client, Keeps-modify_server, Keeps-close_fd}
use circ.Server.{server_generate_id, count_up, count_down}
use circ.World.{
  Client, Server, World, pure, ◌>>=◌, ◌>>◌, get_server, modify_server, store_client, modify_client,
  alloc_client, update,
}
use circ.World.Keeps.{
  Keeps, Then-if, Keeps-load_client, Keeps-pure, Keeps-bind, Keeps-seq, Then-load_client,
}

module _ ⦃g : Glib⦄ where
  -- The state once a client has been accepted, with its struct or without it.
  abbrev accepted : World → ℕ → Bytes → Bool → World
  accepted w fd hostname watched = record w {
    server = record (w.server) {
      id_counter = w.server.id_counter + 1;
      n_unknown = count_up w.server.n_unknown;
      clients = g.ints.insert w.server.clients w.server.id_counter w.next_client;
    };
    next_client = w.next_client + 1;
    client_at =
        let at =
          update w.client_at w.next_client (some (new_client fd w.server.id_counter hostname)) in
        if watched then at else update at w.next_client none;
  }

  who-accepted :
      (w : World) (fd : ℕ) (hostname : Bytes) (watched : Bool) (q : ℕ)
      → who (accepted w fd hostname watched) q ≡ (
          if w.next_client == q
          then (if watched then some (w.server.id_counter, [], false) else none)
          else who w q)
  unfolding new_client
  who-accepted w fd hostname true q = ground arith
  who-accepted w fd hostname false q = ground arith

  insert-other :
      (w : World) (id q p : ℕ)
      → id < w.server.id_counter
      → g.ints.lookup w.server.clients id ≡ some q
      → g.ints.lookup (g.ints.insert w.server.clients w.server.id_counter p) id ≡ some q
  insert-other w id q p old e =
      let d : w.server.id_counter == id ≡ false = ground arith in
      g.ints.lookup-insert w.server.clients w.server.id_counter id p ∙ rw d e

  insert-same : (t : g.ints.Table) (id p : ℕ) → g.ints.lookup (g.ints.insert t id p) id ≡ some p
  insert-same t id p =
      let d : id == id ≡ true = (==_iff id id).1 refl in g.ints.lookup-insert t id id p ∙ rw d refl

  unnamed :
      (b : Bool) (i id : ℕ) (n : Bytes)
      → if◌then◌else◌ {A = Option (ℕ × Bytes × Bool)} b (some (i, [], false)) none
        ≡ some (id, n, true)
      → ⊥
  unnamed true i id n h = ground arith
  unnamed false i id n h = none_absurd h

  module _ {w : World} (r : IsRegistry w) (fd : ℕ) (hostname : Bytes) (watched : Bool) where
    newest :
        (there : Bool) (q id : ℕ) (n : Bytes) (b : Bool)
        → w.next_client == q ≡ true
        → if◌then◌else◌ {A = Option (ℕ × Bytes × Bool)} there
            (some (w.server.id_counter, [], false))
            none
          ≡ some (id, n, b)
        → (g.ints.lookup (accepted w fd hostname watched).server.clients id ≡ some q)
          × (0 < id)
          × (id < w.server.id_counter + 1)
          × (q < w.next_client + 1)
    newest true q id n b same h =
        let i : w.server.id_counter ≡ id = ground arith in
        let j : w.next_client ≡ q = (==_iff w.next_client q).0 same in
        (
          rw (sym i, sym j) (insert-same w.server.clients w.server.id_counter w.next_client),
          rw (sym i) r.counting,
          ground arith,
          ground arith,
        )
    newest false q id n b same h = none_absurd h

    accepted-IsRegistry : IsRegistry (accepted w fd hostname watched)
    accepted-IsRegistry = record {
      known = λ n id h.
          let (q, inside, named) = r.known n id h in
          let (e, positive, old, low) = r.enrolled q id n true named in
          let here : w.next_client == q ≡ false = ground arith in
          (
            q,
            insert-other w id q w.next_client old e,
            who-accepted w fd hostname watched q ∙ rw here named,
          );
      listed = λ q id n h0.
          let h = sym (who-accepted w fd hostname watched q) ∙ h0 in
          elim (Bool-cases (w.next_client == q)) [
            | inl same ↦ absurd (unnamed watched _ id n (rw same at h))
            | inr other ↦ r.listed q id n (rw other at h)
          ];
      enrolled = λ q id n b h0.
          let h = sym (who-accepted w fd hostname watched q) ∙ h0 in
          elim (Bool-cases (w.next_client == q)) [
            | inl same ↦ newest watched q id n b same (rw same at h)
            | inr other ↦
                let (e, positive, old, low) = r.enrolled q id n b (rw other at h) in
                (insert-other w id q w.next_client old e, positive, ground arith, ground arith)
          ];
      counting = ground arith;
    }

  pub Keeps-server_accept :
      (fd : ℕ) (hostname : Bytes) (watched : Bool)
      → Keeps IsRegistry (server_accept fd hostname watched)
  unfolding server_accept ◌>>=◌ ◌>>◌ alloc_client server_generate_id get_server modify_server
      store_client pure
  Keeps-server_accept fd hostname true = record {
    at = λ w r. accepted-IsRegistry r fd hostname true;
  }
  Keeps-server_accept fd hostname false = record {
    at = λ w r. accepted-IsRegistry r fd hostname false;
  }

  pub Keeps-client_closed : (client : ℕ) → Keeps IsRegistry (client_closed client)
  unfolding client_closed
  Keeps-client_closed client =
      Keeps-bind _ _ (Keeps-load_client client) (λ c.
        Keeps-seq _ _ (Keeps-close_fd c.conn.fd) (Keeps-modify_server _ (counted c.registered)))
    where
      counted :
          (b : Bool) (s : Server)
          → let t : Server =
              if b
              then record s { n_users = count_down s.n_users }
              else record s { n_unknown = count_down s.n_unknown } in
            (t.nicks ≡ s.nicks) × (t.clients ≡ s.clients) × (t.id_counter ≡ s.id_counter)
      counted true s = (refl, refl, refl)
      counted false s = (refl, refl, refl)

  -- The client is in the table already: it is inserted again under its id.
  reinserted-IsRegistry :
      {w : World}
      → IsRegistry w
      → (p : ℕ) (c : Client) → w.client_at p ≡ some c
      → IsRegistry (record w {
        server = record (w.server) { clients = g.ints.insert w.server.clients c.client_id p };
      })
  reinserted-IsRegistry {w} r p c here =
      let mine = (r.enrolled p c.client_id c.nickname c.received_nick (ap identity here)).0 in
      let same : (id q : ℕ)
          → g.ints.lookup w.server.clients id ≡ some q
          → g.ints.lookup (g.ints.insert w.server.clients c.client_id p) id ≡ some q =
        λ id q e.
          g.ints.lookup-insert w.server.clients c.client_id id p
          ∙ elim (Bool-cases (c.client_id == id)) [
            | inl i ↦
                rw i
                  (sym mine ∙ ap (g.ints.lookup w.server.clients) ((==_iff c.client_id id).0 i) ∙ e)
            | inr d ↦ rw d e
          ] in
      record {
        known = λ n id h. let (q, e, i) = r.known n id h in (q, same id q e, i);
        listed = r.listed;
        enrolled = λ q id n b h.
            let (e, positive, old, low) = r.enrolled q id n b h in
            (same id q e, positive, old, low);
        counting = r.counting;
      }

  Keeps-registered :
      (client : ℕ) (c : Client)
      → Keeps IsRegistry (
          modify_client client (λ d. record d { registered = true })
          >> (modify_server
                (λ s. record s { n_unknown = count_down s.n_unknown; n_users = count_up s.n_users })
              >> (format (rpl_welcome c) >>= λ r. pure (some r))))
  Keeps-registered client c = Keeps-seq _ _ (Keeps-modify_client client _ (λ d. refl)) (
      Keeps-seq _ _ (Keeps-modify_server _ (λ s. (refl, refl, refl)))
        (Keeps-bind _ _ (Keeps-format _) (λ r. Keeps-pure _)))

  pub Keeps-client_try_register : (client : ℕ) → Keeps IsRegistry (client_try_register client)
  unfolding client_try_register ◌>>=◌ ◌>>◌ modify_server
  Keeps-client_try_register client = record {
    at = λ w r. Then-load_client IsRegistry w client _ (λ c here.
        Then-if IsRegistry (not c.registered && c.received_user && c.received_nick) _ _ w
          (λ ready. (Keeps-registered client c).at _ (reinserted-IsRegistry r client c here))
          (λ waiting. (Keeps-pure _).at w r));
  }
