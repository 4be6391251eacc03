-- ===== src/Frame/Reads.antt =====
-- `Client_HandleRead` of src/client.c: an invariant that one round and the writes beside it keep is
-- kept by the whole of it.
use circ.Base.{ℕ, zero, suc, Option, Bytes}
use circ.Client.{client_closed}
use circ.Connection.{Conn}
use circ.Glib.{Glib}
use circ.HandleRead.{set_conn, handle_one, handle_all, client_handle_read}
use circ.Irc.{IrcMessage}
use circ.World.{World}
use circ.World.Keeps.{
  Keeps, Keeps-pure, Keeps-bind, Keeps-seq, Keeps-if, Keeps-maybe, Keeps-load_client,
}

module _ ⦃g : Glib⦄ where
  -- What the loop is made of.
  pub record AllowsReads (P : World → Type 0) : Type 0 where
    pub conn : (client : ℕ) (conn : Conn) → Keeps P (set_conn client conn)
    pub one : (client : ℕ) (message : IrcMessage) → Keeps P (handle_one client message)
    pub closed : (client : ℕ) → Keeps P (client_closed client)

  module _ {P : World → Type 0} (allows : AllowsReads P) where
    Keeps-handle_all : (n client : ℕ) (message : IrcMessage) → Keeps P (handle_all n client message)
    unfolding handle_all
    Keeps-handle_all zero client message = Keeps-pure tt
    Keeps-handle_all (suc n) client message = Keeps-bind _ _ (Keeps-load_client client) (λ c.
        Keeps-seq _ _ (allows.conn client _) (
          Keeps-if _ _ _
            (Keeps-bind _ _ (allows.one client message) (λ next. Keeps-handle_all n client next))
            (Keeps-pure tt)))

    pub Keeps-client_handle_read :
        (client : ℕ) (input : Option Bytes) → Keeps P (client_handle_read client input)
    unfolding client_handle_read
    Keeps-client_handle_read client input = Keeps-bind _ _ (Keeps-load_client client) (λ c.
        Keeps-seq _ _ (allows.conn client _) (
          Keeps-maybe _ _ _ (Keeps-pure _) (λ n.
            Keeps-seq _ _ (Keeps-handle_all 258 client _) (
              Keeps-if _ _ _ (Keeps-seq _ _ (allows.closed client) (Keeps-pure _))
                (Keeps-pure _)))))
