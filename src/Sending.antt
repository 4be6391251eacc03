-- ===== src/Sending.antt =====
-- How replies are stored and sent: the macro `push_reply` of src/handlers.c, and `Client_Send` and
-- `Client_TryEmptyBuffer` of src/client.c.
pub mod Draining
pub mod Delivery
use circ.Base.{ℕ, zero, suc, length, take, ltb, if◌then◌else◌}
use circ.Glib.{Glib, Response}
use circ.Irc.{irc_msg_size}
use circ.Replies.{Reply}
use circ.World.{M, ◌>>=◌, ◌>>◌, pure, fault, load_client, modify_client, write, maybe}

module _ ⦃g : Glib⦄ where
  -- What the formatting function leaves in `response_s`. The buffer has room for IRC_MSG_SIZE bytes
  -- and the NUL: `snprintf` keeps to that and returns the whole length, `sprintf` writes on.
  unfoldable pub format : Reply → M Response
  format r =
      if r.bounded
      then pure (record { response = take irc_msg_size r.text; len = length r.text })
      else if ltb irc_msg_size (length r.text)
      then fault
      else pure (record { response = r.text; len = length r.text })

  unfoldable pub enqueue : ℕ → Response → M (Unit {0})
  enqueue client r =
      modify_client client (λ c. record c { responses = g.queues.push_tail c.responses r })

  -- `push_reply(responses, ...)`, where `responses` is the queue of the client's connection.
  unfoldable pub push_reply : ℕ → Reply → M (Unit {0})
  unfolding format
  push_reply client reply = do r ← format reply; enqueue client r

  -- `while (!g_queue_is_empty(q)) { pop the head; write it; }`, for as many rounds as `q` has elements.
  unfoldable pub send_all : ℕ → ℕ → M (Unit {0})
  send_all zero client = pure tt
  send_all (suc n) client = do
    c ← load_client client
    maybe (g.queues.pop_head c.responses) (pure tt) (λ head. do
      modify_client client (λ d. record d { responses = head.1 })
      write c.conn.fd head.0
      send_all n client)

  unfoldable pub client_try_empty_buffer : ℕ → M (Unit {0})
  unfolding send_all
  client_try_empty_buffer client = do
    c ← load_client client
    send_all (length (g.queues.elements c.responses)) client

  unfoldable pub client_send : ℕ → Response → M (Unit {0})
  unfolding client_try_empty_buffer
  client_send client r = do enqueue client r; client_try_empty_buffer client
