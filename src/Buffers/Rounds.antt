-- ===== src/Buffers/Rounds.antt =====
-- The loop of `Client_HandleRead`, src/client.c: the rounds that it is given are enough.
use circ.Base.{
  ◌==◌, ==_iff, ℕ, zero, suc, ◌+◌, ◌*◌, ◌<◌, ◌≡◌, refl, sym, ap, ◌∙◌, inl, inr, true, false, none,
  some, some_inj, Bool-cases, Option-cases, arith, length, if◌then◌else◌, length-replicate,
}
use circ.Buffers.{Everyone, ReadsBuffers, IsStore}
use circ.Buffers.Kept.{Everyone-update, Everyone-Allows}
use circ.Connection.{Conn}
use circ.Frame.{buffers}
use circ.Frame.Dispatch.{Keeps-run_handler}
use circ.Frame.Quiet.{AllowsWrites-Allows, Keeps-client_try_empty_buffer}
use circ.Glib.{Glib}
use circ.HandleRead.{set_conn, handle_one, handle_all}
use circ.Irc.{IrcMessage, irc_msg_size}
use circ.Parser.{parse_message}
use circ.ReadMessage.{conn_read_message}
use circ.ReadMessage.Bounds.{Reads, cleared, conn_read_message-Reads}
use circ.ReadMessage.Rounds.{IsConn}
use circ.World.{Client, World, ok, crash, ◌>>=◌, pure, modify_client, store_client, update}
use circ.World.Keeps.{Keeps, Then-load_client, Keeps-pure, Keeps-seq, bind_same}
use circ.World.Runs.{bind-ok, seq-ok, load_client-ok, modify_client-ok, load_client-crash}

-- `conn_read_message` clears the message buffer, so what it held does not matter.
store-IsConn : (conn : Conn) → IsStore conn → IsConn (cleared conn)
store-IsConn conn h = record {
  message = length-replicate {A = ℕ} irc_msg_size 0;
  store = h.store;
  total_read = h.total_read;
}

read-cleared : (conn : Conn) → conn_read_message conn ≡ conn_read_message (cleared conn)
unfolding conn_read_message
read-cleared conn = refl

pub read-Reads : (conn : Conn) → IsStore conn → Reads conn (conn_read_message conn)
read-Reads conn h =
    let r = conn_read_message-Reads (cleared conn) (store-IsConn conn h) in
    rw read-cleared (record { is_conn = r.is_conn; fewer = r.fewer })

pub read-IsStore : (conn : Conn) → IsStore conn → IsStore (conn_read_message conn).1
read-IsStore conn h =
    let r = (read-Reads conn h).is_conn in record { store = r.store; total_read = r.total_read }

module _ ⦃g : Glib⦄ where
  module _ {Q : ℕ → Conn → Type 0} where
    pub Keeps-set_conn :
        (client : ℕ) (conn : Conn) → Q client conn → Keeps (Everyone Q) (set_conn client conn)
    unfolding set_conn modify_client store_client
    Keeps-set_conn client conn h = record {
      at = λ w k.
          Then-load_client (Everyone Q) w client _
            (λ c here. Everyone-update w client (record c { conn = conn }) k h);
    }

  module _ {Q : ℕ → Conn → Type 0} (reads : ReadsBuffers Q) where
    pub Keeps-handle_one :
        (client : ℕ) (message : IrcMessage) → Keeps (Everyone Q) (handle_one client message)
    unfolding handle_one
    Keeps-handle_one client message = record {
      at = λ w h. Then-load_client (Everyone Q) w client _ (λ c here.
          let parsed = parse_message c.conn.message message in
          let conn : Conn = record (c.conn) { message = parsed.buf } in
          (Keeps-seq _ _
              (Keeps-set_conn client conn (reads client c.conn conn refl (h.each client c here)))
              (Keeps-seq _ _
                (Keeps-run_handler (AllowsWrites-Allows (Everyone-Allows reads) client) parsed.code
                  parsed.message)
                (Keeps-seq _ _
                  (Keeps-client_try_empty_buffer ((Everyone-Allows reads).sending) client)
                  (Keeps-pure _)))).at
            w h);
    }

  pub IsStore-same : (c d : Conn) → buffers d ≡ buffers c → IsStore c → IsStore d
  IsStore-same c d same h = record {
    store = ap (λ b. length (b.3)) same ∙ h.store;
    total_read = rw (ap (λ b. b.2) same) h.total_read;
  }

  -- The client at `p` holds fewer bytes than `n` messages have.
  Low : ℕ → ℕ → ℕ → Conn → Type 0
  Low p n q conn = p ≡ q → IsStore conn × (conn.total_read < n * 2)

  Low-ReadsBuffers : (p n : ℕ) → ReadsBuffers (Low p n)
  unfolding Low
  Low-ReadsBuffers p n q c d same h e =
      let (store, low) = h e in (IsStore-same c d same store, rw (ap (λ b. b.2) same) low)

  all_crash :
      (n p : ℕ) (m : IrcMessage) (w : World)
      → w.client_at p ≡ none
      → handle_all (suc n) p m w ≡ crash
  unfolding handle_all
  all_crash n p m w gone = load_client-crash p _ w gone

  -- One round of the loop.
  abbrev read_next : World → ℕ → Client → World
  read_next w p c = record w {
    client_at = update w.client_at p (some (record c { conn = (conn_read_message c.conn).1 }));
  }

  all_step :
      (n p : ℕ) (m : IrcMessage) (w : World) (c : Client)
      → w.client_at p ≡ some c
      → handle_all (suc n) p m w
        ≡ (if (conn_read_message c.conn).0 then (handle_one p m >>= handle_all n p) else pure tt)
            (read_next w p c)
  unfolding handle_all set_conn
  all_step n p m w c here =
      bind-ok _ _ w c w (load_client-ok p w c here)
      ∙ seq-ok _ _ w (read_next w p c) (modify_client-ok p _ w c here)

  module _ (p : ℕ) (m : IrcMessage) (w : World) (c : Client) (here : w.client_at p ≡ some c) where
    -- A message that is read leaves room for one message less.
    read_next-Low :
        (n : ℕ)
        → Everyone (Low p (suc n)) w
        → (conn_read_message c.conn).0 ≡ true
        → Everyone (Low p n) (read_next w p c)
    unfolding Low
    read_next-Low n h found =
        let (store, low) = h.each p c here refl in
        let fewer = (read-Reads c.conn store).fewer found in
        record {
          each = λ q d at_q e.
              let t : p == q ≡ true = (==_iff p q).1 e in
              let at_p : some (record c { conn = (conn_read_message c.conn).1 }) ≡ some d =
                rw t at at_q in
              rw (sym (some_inj.0 at_p)) (read-IsStore c.conn store, omega (arith, fewer, low));
        }

    not_found : Everyone (Low p 1) w → (conn_read_message c.conn).0 ≡ false
    unfolding Low
    not_found h = elim (Bool-cases (conn_read_message c.conn).0) [
      | inl found ↦
          let (store, low) = h.each p c here refl in
          absurd (omega (arith, (read-Reads c.conn store).fewer found, low))
      | inr none_left ↦ none_left
    ]

    left_ok :
        (n : ℕ)
        → (conn_read_message c.conn).0 ≡ false
        → handle_all (suc n) p m w ≡ ok tt (read_next w p c)
    unfolding pure
    left_ok n left = all_step n p m w c here ∙ rw left refl

    found_ok :
        (n : ℕ)
        → (conn_read_message c.conn).0 ≡ true
        → handle_all (suc n) p m w ≡ (handle_one p m >>= handle_all n p) (read_next w p c)
    found_ok n found = all_step n p m w c here ∙ rw found refl

    -- Where no message is left, any number of rounds does the same.
    stops :
        (n k : ℕ)
        → (conn_read_message c.conn).0 ≡ false
        → handle_all (suc n) p m w ≡ handle_all (suc k) p m w
    stops n k left = left_ok n left ∙ sym (left_ok k left)

    -- Where a message is found, the rest of the rounds decides.
    goes_on :
        (n k : ℕ)
        → Everyone (Low p (suc n)) w
        → (conn_read_message c.conn).0 ≡ true
        → ((next : IrcMessage) (v : World)
            → Everyone (Low p n) v
            → handle_all k p next v ≡ handle_all n p next v)
        → handle_all (suc k) p m w ≡ handle_all (suc n) p m w
    goes_on n k h found later =
        found_ok k found
        ∙ bind_same (Everyone (Low p n)) (handle_one p m) (handle_all k p) (handle_all n p) _
            ((Keeps-handle_one (Low-ReadsBuffers p n) p m).at _ (read_next-Low n h found)) later
        ∙ sym (found_ok n found)

  enough :
      (n k p : ℕ) (m : IrcMessage) (w : World)
      → Everyone (Low p (suc n)) w
      → handle_all (suc (n + k)) p m w ≡ handle_all (suc n) p m w
  enough zero k p m w h = elim (Option-cases (w.client_at p)) [
    | inl gone ↦ all_crash _ p m w gone ∙ sym (all_crash _ p m w gone)
    | inr (c, here) ↦ stops p m w c here _ _ (not_found p m w c here h)
  ]
  enough (suc n) k p m w h = elim (Option-cases (w.client_at p)) [
    | inl gone ↦ all_crash _ p m w gone ∙ sym (all_crash _ p m w gone)
    | inr (c, here) ↦ elim (Bool-cases (conn_read_message c.conn).0) [
      | inl found ↦ goes_on p m w c here (suc n) (suc n + k) h found (λ next v hv.
          let e : suc n + k ≡ suc (n + k) = omega arith in rw e (enough n k p next v hv))
      | inr left ↦ stops p m w c here _ _ left
    ]
  ]

  -- For a client whose store has 512 bytes and holds at most that many, the 258 rounds that
  -- `Client_HandleRead` is given are enough: the loop does the same on any greater number, crashes included.
  pub handle_all-rounds :
      (k p : ℕ) (m : IrcMessage) (w : World)
      → ((c : Client) → w.client_at p ≡ some c → IsStore c.conn)
      → handle_all (258 + k) p m w ≡ handle_all 258 p m w
  unfolding Low
  handle_all-rounds k p m w h =
      let low : Everyone (Low p 258) w = record {
        each =
            λ q c at_q e. let store = h c (rw e at_q) in (store, omega (arith, store.total_read));
      } in
      let e : 258 + k ≡ suc (257 + k) = omega arith in rw e (enough 257 k p m w low)
