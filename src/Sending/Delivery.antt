-- ===== src/Sending/Delivery.antt =====
-- `Client_Send` of src/client.c: a response to a client with nothing else to be written.
use circ.Base.{
  ℕ, ◌≡◌, refl, sym, ap, ◌∙◌, inl, inr, Bool-cases, true, Option, none, some, some_inj, List, [],
  ◌∷◌, ◌++◌, map, ◌==◌, ==_iff,
}
use circ.Glib.{Glib, Response}
use circ.Sending.{enqueue, client_send}
use circ.Sending.Draining.{client_try_empty_buffer-IsDrained}
use circ.World.{Client, World, ok, update}
use circ.World.Runs.{seq-ok, modify_client-ok}

module _ ⦃g : Glib⦄ where
  -- There is a client, and its queue is empty.
  pub record IsReady (w : World) (p : ℕ) : Type 0 where
    pub client : Client
    pub here : w.client_at p ≡ some client
    pub empty : g.queues.elements client.responses ≡ []

  -- The descriptor of a client, where there is one.
  abbrev pub fd_in : Option Client → ℕ
  fd_in none = 0
  fd_in (some c) = c.conn.fd

  abbrev pub fd_at : World → ℕ → ℕ
  fd_at w p = fd_in (w.client_at p)

  -- The writes `l` stand at the end of the log, a client whose queue is empty has changed at most
  -- the queue, which is empty again, and all else but the other clients is as it was.
  pub record IsDelivered (w : World) (l : List (ℕ × Response)) (v : World) : Type 0 where
    pub sent : v.sent ≡ w.sent ++ l
    pub ready :
        (q : ℕ) (c : Client)
        → w.client_at q ≡ some c
        → g.queues.elements c.responses ≡ []
        → (queue : g.queues.Queue) × (v.client_at q ≡ some (record c { responses = queue }))
          × (g.queues.elements queue ≡ [])
    pub server : v.server ≡ w.server
    pub channel_at : (q : ℕ) → v.channel_at q ≡ w.channel_at q

  -- The state in which the response stands in the queue.
  abbrev queued : World → ℕ → Client → Response → World
  queued w p c r = record w {
    client_at =
        update w.client_at p (some (record c { responses = g.queues.push_tail c.responses r }));
  }

  pub client_send-IsDelivered :
      (w : World) (p : ℕ) (r : Response)
      → IsReady w p
      → (v : World) × (client_send p r w ≡ ok tt v) × IsDelivered w ((fd_at w p, r) ∷ []) v
  unfolding client_send enqueue
  client_send-IsDelivered w p r ready =
      let c = ready.client in
      let d : Client = record c { responses = g.queues.push_tail c.responses r } in
      let u = queued w p c r in
      let same : p == p ≡ true = (==_iff p p).1 refl in
      let here : u.client_at p ≡ some d = rw same refl in
      let (v, run, done) = client_try_empty_buffer-IsDrained u p d here in
      let one : g.queues.elements d.responses ≡ r ∷ [] =
        g.queues.elements-push_tail c.responses r ∙ ap (λ l. l ++ (r ∷ [])) ready.empty in
      (
        v,
        seq-ok _ _ w u (modify_client-ok p _ w c ready.here) ∙ run,
        record {
          sent =
              done.sent
              ∙ ap (λ l. w.sent ++ map (λ x. (c.conn.fd, x)) l) one
              ∙ ap (λ o. w.sent ++ ((fd_in o, r) ∷ [])) (sym ready.here);
          ready = λ q b at_q nothing. elim (Bool-cases (p == q)) [
            | inl this ↦
                let at_p : w.client_at q ≡ some c = rw (sym ((==_iff p q).0 this)) ready.here in
                let e : c ≡ b = some_inj.0 (sym at_p ∙ at_q) in
                (
                  done.queue,
                  ap v.client_at (sym ((==_iff p q).0 this))
                      ∙ done.here
                      ∙ ap (λ (x : Client). some (record x { responses = done.queue })) e,
                  done.empty,
                )
            | inr other ↦ (b.responses, done.others q other ∙ rw other at_q, nothing)
          ];
          server = done.server;
          channel_at = done.channel_at;
        },
      )
