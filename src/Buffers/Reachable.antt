-- ===== src/Buffers/Reachable.antt =====
-- The store buffers in every state that the events of src/client.c lead to.
use circ.Base.{
  ℕ, zero, suc, ◌+◌, ◌≤◌, ◌≡◌, refl, sym, ◌∙◌, inl, inr, Bool, true, false, Option, none, some,
  some_inj, none_absurd, Bytes, Bool-cases, Option-cases, arith, length, length-append, length-drop,
  length-replicate, if◌then◌else◌, ◌==◌,
}
use circ.Base.Int.{pos, negsuc}
use circ.Buffers.{Everyone, ReadsBuffers, IsStore}
use circ.Buffers.Kept.{Everyone-update}
use circ.Buffers.Rounds.{
  Keeps-set_conn, Keeps-handle_one, IsStore-same, read-IsStore, handle_all-rounds,
}
use circ.Client.{server_accept, new_client, client_closed}
use circ.Connection.{Conn, conn_read_store_buffer, read_room}
use circ.Glib.{Glib}
use circ.HandleRead.{set_conn, handle_all, read_and_handle, client_handle_read, zero_message}
use circ.Irc.{IrcMessage, irc_msg_size}
use circ.Serving.{initial, Fits, Step, Reaches}
use circ.Server.{server_generate_id}
use circ.World.{close_fd}
use circ.World.{
  Client, World, ◌>>=◌, ◌>>◌, pure, modify_server, alloc_client, store_client, get_server, maybe,
  update,
}
use circ.World.Keeps.{
  Keeps, Then, Then-ok, Then-load_client, Keeps-pure, Keeps-bind, Keeps-seq, Keeps-if, Keeps-maybe,
  Keeps-load_client,
}
use circ.World.Runs.{seq_same, bind-ok, seq-ok, load_client-ok, modify_client-ok, load_client-crash}

-- `Conn_ReadStoreBuffer` keeps the store.
IsStore-read :
    (conn : Conn) (input : Option Bytes)
    → IsStore conn
    → ((bytes : Bytes) → input ≡ some bytes → length bytes ≤ read_room conn)
    → IsStore (conn_read_store_buffer conn input).1
unfolding conn_read_store_buffer
IsStore-read conn none h room = h
IsStore-read conn (some bytes) h room =
    let few = room bytes refl in
    record {
      store = rw (length-append, length-drop, h.store) (ground (arith, few, h.total_read));
      total_read = ground (arith, few, h.total_read);
    }

module _ ⦃g : Glib⦄ where
  Stored : ℕ → Conn → Type 0
  Stored p conn = IsStore conn

  Stored-ReadsBuffers : ReadsBuffers Stored
  unfolding Stored
  Stored-ReadsBuffers p c d same h = IsStore-same c d same h

  Keeps-handle_all :
      (n client : ℕ) (m : IrcMessage) → Keeps (Everyone Stored) (handle_all n client m)
  unfolding handle_all Stored
  Keeps-handle_all zero client m = Keeps-pure tt
  Keeps-handle_all (suc n) client m = record {
    at = λ w h. Then-load_client (Everyone Stored) w client _ (λ c here.
        (Keeps-seq _ _ (Keeps-set_conn client _ (read-IsStore c.conn (h.each client c here))) (
            Keeps-if _ _ _
              (Keeps-bind _ _ (Keeps-handle_one Stored-ReadsBuffers client m)
                (Keeps-handle_all n client))
              (Keeps-pure tt))).at
          w h);
  }

  Keeps-client_closed : (client : ℕ) → Keeps (Everyone Stored) (client_closed client)
  unfolding client_closed modify_server close_fd
  Keeps-client_closed client = Keeps-bind _ _ (Keeps-load_client client) (λ c.
      Keeps-seq _ _ (record { at = λ w h. record { each = h.each } })
        (record { at = λ w h. record { each = h.each } }))

  read-Then :
      (n client : ℕ) (input : Option Bytes) (w : World)
      → Fits w client input
      → Everyone Stored w
      → Then (Everyone Stored) (read_and_handle n client input w)
  unfolding read_and_handle Stored
  read-Then n client input w fits h = Then-load_client (Everyone Stored) w client _ (λ c here.
      (Keeps-seq _ _
          (Keeps-set_conn client _ (IsStore-read c.conn input (h.each client c here) (fits c here)))
          (Keeps-maybe _ _ _ (Keeps-pure _) (λ k. Keeps-seq _ _ (Keeps-handle_all n client _) (
            Keeps-if _ _ _ (Keeps-seq _ _ (Keeps-client_closed client) (Keeps-pure _))
              (Keeps-pure _))))).at
        w h)

  fresh-IsStore : (fd id : ℕ) (hostname : Bytes) → IsStore (new_client fd id hostname).conn
  unfolding new_client
  fresh-IsStore fd id hostname = record {
    store = length-replicate {A = ℕ} irc_msg_size 0;
    total_read = omega arith;
  }

  -- The client is stored, and taken out again where the reactor refuses it.
  accepted-Stored :
      (at : ℕ → Option Client) (p : ℕ) (d : Client) (watched : Bool)
      → ((q : ℕ) (c : Client) → at q ≡ some c → IsStore c.conn)
      → IsStore d.conn
      → (q : ℕ) (c : Client)
      → (let up = update at p (some d) in if watched then up else update up p none) q ≡ some c
      → IsStore c.conn
  accepted-Stored at p d true old new q c here = elim (Bool-cases (p == q)) [
    | inl same ↦ let e : some d ≡ some c = rw same at here in rw (sym (some_inj.0 e)) new
    | inr other ↦ old q c (rw other at here)
  ]
  accepted-Stored at p d false old new q c here = elim (Bool-cases (p == q)) [
    | inl same ↦ none_absurd (rw same at here)
    | inr other ↦ old q c (rw other at here)
  ]

  accept-Then :
      (fd : ℕ) (hostname : Bytes) (watched : Bool) (w : World)
      → Everyone Stored w
      → Then (Everyone Stored) (server_accept fd hostname watched w)
  unfolding server_accept ◌>>=◌ ◌>>◌ alloc_client server_generate_id get_server modify_server
      store_client pure Stored
  accept-Then fd hostname true w h = record {
    each =
        accepted-Stored w.client_at w.next_client (new_client fd w.server.id_counter hostname) true
          h.each (fresh-IsStore fd w.server.id_counter hostname);
  }
  accept-Then fd hostname false w h = record {
    each =
        accepted-Stored w.client_at w.next_client (new_client fd w.server.id_counter hostname) false
          h.each (fresh-IsStore fd w.server.id_counter hostname);
  }

  Step-Stored : {w v : World} → Step w v → Everyone Stored w → Everyone Stored v
  unfolding client_handle_read
  Step-Stored {w} (Step.accepts fd hostname watched client v e) h =
      Then-ok (Everyone Stored) e (accept-Then fd hostname watched w h)
  Step-Stored {w} (Step.reads client input result v fits e) h =
      Then-ok (Everyone Stored) e (read-Then 258 client input w fits h)

  Reaches-Stored :
      (hostname : Bytes) (motd : Option Bytes) {w : World}
      → Reaches (initial hostname motd) w
      → Everyone Stored w
  unfolding initial
  Reaches-Stored hostname motd Reaches.start = record { each = λ p c h. none_absurd h }
  Reaches-Stored hostname motd (Reaches.next before step) =
      Step-Stored step (Reaches-Stored hostname motd before)

  -- In every state that the server reaches from its start, where each `read` delivers at most as
  -- many bytes as it is asked for, the store buffer of every client has its 512 bytes and the
  -- number of bytes in it is at most 512.
  pub reachable-IsStore :
      (hostname : Bytes) (motd : Option Bytes) {w : World}
      → Reaches (initial hostname motd) w
      → (p : ℕ) (c : Client) → w.client_at p ≡ some c
      → IsStore c.conn
  unfolding Stored
  reachable-IsStore hostname motd reach = (Reaches-Stored hostname motd reach).each

  -- Both numbers of rounds, from the state in which `read` has filled the store.
  filled-rounds :
      (k p : ℕ) (num_read : Option ℕ) (v : World)
      → ((c : Client) → v.client_at p ≡ some c → IsStore c.conn)
      → maybe num_read
          (pure (negsuc 0))
          (λ n.
            handle_all (258 + k) p zero_message
            >> (if n == 0 then (client_closed p >> pure (pos 1)) else pure (pos 0)))
          v
        ≡ maybe num_read
            (pure (negsuc 0))
            (λ n.
              handle_all 258 p zero_message
              >> (if n == 0 then (client_closed p >> pure (pos 1)) else pure (pos 0)))
            v
  unfolding maybe
  filled-rounds k p none v h = refl
  filled-rounds k p (some n) v h = seq_same _ _ _ v (handle_all-rounds k p zero_message v h)

  read-rounds :
      (k p : ℕ) (input : Option Bytes) (w : World)
      → Everyone Stored w
      → Fits w p input
      → read_and_handle (258 + k) p input w ≡ read_and_handle 258 p input w
  unfolding read_and_handle Stored set_conn
  read-rounds k p input w h fits = elim (Option-cases (w.client_at p)) [
    | inl gone ↦ load_client-crash p _ w gone ∙ sym (load_client-crash p _ w gone)
    | inr (c, here) ↦
        let conn = (conn_read_store_buffer c.conn input).1 in
        let v : World = record w {
          client_at = update w.client_at p (some (record c { conn = conn }));
        } in
        let filled : Everyone Stored v =
          Everyone-update w p (record c { conn = conn }) h
            (IsStore-read c.conn input (h.each p c here) (fits c here)) in
        bind-ok _ _ w c w (load_client-ok p w c here)
        ∙ seq-ok _ _ w v (modify_client-ok p _ w c here)
        ∙ filled-rounds k p _ v (filled.each p)
        ∙ sym (seq-ok _ _ w v (modify_client-ok p _ w c here))
        ∙ sym (bind-ok _ _ w c w (load_client-ok p w c here))
  ]

  -- In every state that the server reaches from its start by accepting clients and by reads that
  -- deliver no more bytes than they are asked for, the loop of `Client_HandleRead` ends
  -- within 258 rounds, whatever `read` delivers if it is no more than it was asked for: any
  -- greater number of rounds gives the same result and the same state.
  pub read_and_handle-rounds :
      (hostname : Bytes) (motd : Option Bytes) {w : World}
      → Reaches (initial hostname motd) w
      → (k p : ℕ) (input : Option Bytes) → Fits w p input
      → read_and_handle (258 + k) p input w ≡ client_handle_read p input w
  unfolding client_handle_read
  read_and_handle-rounds hostname motd {w} reach k p input fits =
      read-rounds k p input w (Reaches-Stored hostname motd reach) fits
