-- ===== src/Client/Registration.antt =====
-- `Client_TryRegister` of src/client.c on every branch.
use circ.Base.{
  Bool-cases, inl, inr, ℕ, ◌+◌, ◌≤◌, ◌≡◌, refl, ◌∙◌, Bool, true, false, not, ◌&&◌, none, some,
  arith, length, length-append, if◌then◌else◌,
}
use circ.Client.{client_try_register}
use circ.Client.Nicknames.{format-short}
use circ.Glib.{Glib, Response}
use circ.Irc.{irc_msg_size, nick_max_size}
use circ.Replies.{rpl_welcome}
use circ.Replies.Decimal.{decimal3}
use circ.Sending.{format}
use circ.Server.{count_up, count_down}
use circ.World.{Client, World, ok, pure, modify_server, modify_client, update}
use circ.World.Runs.{bind-ok, seq-ok, load_client-ok, modify_client-ok}

module _ ⦃g : Glib⦄ where
  -- Both NICK and USER have come, and the client is not registered yet.
  abbrev pub ready : Client → Bool
  ready c = not c.registered && c.received_user && c.received_nick

  abbrev pub welcome : Client → Response
  welcome c = record { response = (rpl_welcome c).text; len = length (rpl_welcome c).text }

  abbrev pub registered : World → ℕ → Client → World
  registered w p c = record w {
    server = record (w.server) {
      clients = g.ints.insert w.server.clients c.client_id p;
      n_unknown = count_down w.server.n_unknown;
      n_users = count_up w.server.n_users;
    };
    client_at = update w.client_at p (some (record c { registered = true }));
  }

  welcome_unbounded : (c : Client) → (rpl_welcome c).bounded ≡ false
  unfolding rpl_welcome
  welcome_unbounded c = refl

  decimal3-1 : length (decimal3 1) ≡ 3
  unfolding decimal3
  decimal3-1 = refl

  welcome_fits :
      (c : Client)
      → length c.nickname ≤ nick_max_size
      → length c.username + length c.hostname ≤ 400
      → length (rpl_welcome c).text ≤ irc_msg_size
  unfolding rpl_welcome
  welcome_fits c n h =
      rw
        (
          length-append, length-append, length-append, length-append, length-append, length-append,
          length-append, length-append, length-append,
        )
        (ground (arith, decimal3-1))

  register_ready :
      (w : World) (p : ℕ) (c : Client)
      → w.client_at p ≡ some c
      → ready c ≡ true
      → length c.nickname ≤ nick_max_size
      → length c.username + length c.hostname ≤ 400
      → client_try_register p w ≡ ok (some (welcome c)) (registered w p c)
  unfolding client_try_register modify_server pure
  register_ready w p c here is_ready n h =
      let f : Client → Client = λ d. record d { registered = true } in
      let w1 : World = record w {
        server = record (w.server) { clients = g.ints.insert w.server.clients c.client_id p };
      } in
      bind-ok _ _ w c w (load_client-ok p w c here)
      ∙ rw is_ready (
          seq-ok _ _ w w1 refl
          ∙ seq-ok (modify_client p f) _ w1 _ (modify_client-ok p f w1 c here)
          ∙ seq-ok _ _ _ (registered w p c) refl
          ∙ bind-ok (format (rpl_welcome c)) (λ r. pure (some r)) (registered w p c) (welcome c) _
              (format-short _ (registered w p c) (welcome_unbounded c) (welcome_fits c n h)))

  register_waiting :
      (w : World) (p : ℕ) (c : Client)
      → w.client_at p ≡ some c
      → ready c ≡ false
      → client_try_register p w ≡ ok none w
  unfolding client_try_register pure
  register_waiting w p c here waiting =
      bind-ok _ _ w c w (load_client-ok p w c here) ∙ rw waiting refl

  -- A client that exists, has sent both NICK and USER and is not registered is registered: it
  -- moves from the unknown connections to the users, it is in the table of clients under its id,
  -- and the response is RPL_WELCOME. Any other client leaves the state as it is, with no
  -- response. The client's nickname has at most 9 bytes, and its user and host name together at
  -- most 400.
  pub client_try_register_lem :
      (w : World) (p : ℕ) (c : Client)
      → w.client_at p ≡ some c
      → length c.nickname ≤ nick_max_size
      → length c.username + length c.hostname ≤ 400
      → client_try_register p w
        ≡ (if ready c then ok (some (welcome c)) (registered w p c) else ok none w)
  client_try_register_lem w p c here n h = elim (Bool-cases (ready c)) [
    | inl is_ready ↦ register_ready w p c here is_ready n h ∙ rw is_ready refl
    | inr not_ready ↦ register_waiting w p c here not_ready ∙ rw not_ready refl
  ]
