-- ===== src/Sending/Draining.antt =====
-- `Client_TryEmptyBuffer` of src/client.c: all the responses are written, in their order.
use circ.Base.{
  ℕ, suc, ◌≡◌, refl, sym, ◌∙◌, true, false, some, List, [], ◌∷◌, ◌++◌, map, append-nil,
  append_assoc, length, ◌==◌, ==_iff,
}
use circ.Glib.{Glib, Response}
use circ.Sending.{send_all, client_try_empty_buffer}
use circ.World.{Client, World, ok, ◌>>◌, pure, maybe, write, modify_client, update}
use circ.World.Runs.{bind-ok, seq-ok, load_client-ok, modify_client-ok}

module _ ⦃g : Glib⦄ where
  -- The state once the responses `l` of a client are written: its queue is empty, the writes
  -- stand at the end of the log, and all else is as it was.
  pub record IsDrained (w : World) (p : ℕ) (c : Client) (l : List Response) (v : World)
      : Type 0 where
    pub queue : g.queues.Queue
    pub empty : g.queues.elements queue ≡ []
    pub here : v.client_at p ≡ some (record c { responses = queue })
    pub others : (q : ℕ) → p == q ≡ false → v.client_at q ≡ w.client_at q
    pub sent : v.sent ≡ w.sent ++ map (λ r. (c.conn.fd, r)) l
    pub server : v.server ≡ w.server
    pub channel_at : (q : ℕ) → v.channel_at q ≡ w.channel_at q

  -- The state after one response.
  abbrev sent_one : World → ℕ → Client → Response → g.queues.Queue → World
  sent_one w p c r rest = record w {
    client_at = update w.client_at p (some (record c { responses = rest }));
    sent = w.sent ++ ((c.conn.fd, r) ∷ []);
  }

  send_all-suc :
      (n p : ℕ) (w : World) (c : Client) (r : Response) (rest : g.queues.Queue)
      → w.client_at p ≡ some c
      → g.queues.pop_head c.responses ≡ some (r, rest)
      → send_all (suc n) p w ≡ send_all n p (sent_one w p c r rest)
  unfolding send_all write maybe
  send_all-suc n p w c r rest here e =
      bind-ok _ _ w c w (load_client-ok p w c here)
      ∙ rw (e, maybe)
          (let f : Client → Client = λ d. record d { responses = rest } in
            seq-ok (modify_client p f) (write c.conn.fd r >> send_all n p) w _
              (modify_client-ok p f w c here)
            ∙ seq-ok (write c.conn.fd r) (send_all n p) _ _ refl)

  send_all-IsDrained :
      (l : List Response) (w : World) (p : ℕ) (c : Client)
      → w.client_at p ≡ some c
      → g.queues.elements c.responses ≡ l
      → (v : World) × (send_all (length l) p w ≡ ok tt v) × IsDrained w p c l v
  unfolding send_all pure
  send_all-IsDrained [] w p c here e = (
    w,
    refl,
    record {
      queue = c.responses;
      empty = e;
      here = here;
      others = λ q d. refl;
      sent = sym (append-nil w.sent);
      server = refl;
      channel_at = λ q. refl;
    },
  )
  send_all-IsDrained (r ∷ l) w p c here e =
      let (rest, popped, left) = g.queues.pop_head-cons c.responses r l e in
      let w1 = sent_one w p c r rest in
      let same : p == p ≡ true = (==_iff p p).1 refl in
      let here1 : w1.client_at p ≡ some (record c { responses = rest }) = rw same refl in
      let (v, run, d) = send_all-IsDrained l w1 p (record c { responses = rest }) here1 left in
      (
        v,
        send_all-suc (length l) p w c r rest here popped ∙ run,
        record {
          queue = d.queue;
          empty = d.empty;
          here = d.here;
          others = λ q apart. d.others q apart ∙ rw apart refl;
          sent = d.sent ∙ append_assoc w.sent _ _;
          server = d.server;
          channel_at = d.channel_at;
        },
      )

  -- For a client that exists, `Client_TryEmptyBuffer` writes every response of its queue to its
  -- descriptor, in the order of the queue, and leaves the queue empty; no other client, no channel
  -- and nothing of the server changes.
  pub client_try_empty_buffer-IsDrained :
      (w : World) (p : ℕ) (c : Client)
      → w.client_at p ≡ some c
      → (v : World) × (client_try_empty_buffer p w ≡ ok tt v)
        × IsDrained w p c (g.queues.elements c.responses) v
  unfolding client_try_empty_buffer
  client_try_empty_buffer-IsDrained w p c here =
      let (v, run, d) = send_all-IsDrained (g.queues.elements c.responses) w p c here refl in
      (v, bind-ok _ _ w c w (load_client-ok p w c here) ∙ run, d)
