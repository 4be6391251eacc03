-- ===== src/Frame/Forward.antt =====
-- The loops of src/channel.c that send to the members: an invariant that `Client_Send` keeps is
-- kept by them.
use circ.Base.Int.{ℤ}
use circ.Channel.{is_source}
use circ.Base.{ℕ, Option, Bytes, List, [], ◌∷◌}
use circ.Channel.{
  forward, channel_send_message, channel_sendall_join, channel_sendall_part,
  channel_sendall_privmsg, channel_is_member,
}
use circ.Glib.{Glib, Response}
use circ.Replies.{Reply}
use circ.Sending.{format, client_send}
use circ.Server.{server_get_channel}
use circ.World.Keeps.{Keeps, Keeps-pure, Keeps-if, Keeps-seq, run_rules}
use circ.World.{World}

module _ ⦃g : Glib⦄ {P : World → Type 0} where
  pub Keeps-format : (r : Reply) → Keeps P (format r)
  unfolding format
  Keeps-format r = search run_rules

  pub Keeps-channel_is_member : (channel client : ℕ) → Keeps P (channel_is_member channel client)
  unfolding channel_is_member
  Keeps-channel_is_member channel client = search run_rules depth 9

  pub Keeps-server_get_channel : (name : Bytes) → Keeps P (server_get_channel name)
  unfolding server_get_channel
  Keeps-server_get_channel name = search run_rules

module _ ⦃g : Glib⦄ {P : World → Type 0}
    (send : (p : ℕ) (r : Response) → Keeps P (client_send p r)) where
  pub Keeps-forward : (l : List (ℕ × ℕ)) (r : Response) (source : ℤ) → Keeps P (forward l r source)
  unfolding forward
  Keeps-forward [] r source = search run_rules
  Keeps-forward ((key, client) ∷ rest) r source =
      Keeps-seq _ _ (Keeps-if (is_source source key) _ _ (Keeps-pure tt) (send client r))
        (Keeps-forward rest r source)

  pub Keeps-channel_send_message :
      (channel : ℕ) (r : Response) (source : ℤ) → Keeps P (channel_send_message channel r source)
  unfolding channel_send_message
  Keeps-channel_send_message channel r source = search (run_rules, Keeps-forward)

  pub Keeps-channel_sendall_join :
      (channel source : ℕ) → Keeps P (channel_sendall_join channel source)
  unfolding channel_sendall_join
  Keeps-channel_sendall_join channel source =
      search (run_rules, Keeps-format, Keeps-channel_send_message) depth 9

  pub Keeps-channel_sendall_part :
      (channel source : ℕ) (text : Option Bytes)
      → Keeps P (channel_sendall_part channel source text)
  unfolding channel_sendall_part
  Keeps-channel_sendall_part channel source text =
      search (run_rules, Keeps-format, Keeps-channel_send_message) depth 9

  pub Keeps-channel_sendall_privmsg :
      (channel source : ℕ) (text : Bytes) → Keeps P (channel_sendall_privmsg channel source text)
  unfolding channel_sendall_privmsg
  Keeps-channel_sendall_privmsg channel source text =
      search (run_rules, Keeps-format, Keeps-channel_send_message) depth 9
