-- ===== src/Buffers.antt =====
-- The buffers of the connections, include/connection.h, in the states that src/client.c leads to.
pub mod Kept
pub mod Rounds
pub mod Reachable
use circ.Base.{◌≤◌, length, ℕ, ◌≡◌, Bytes, Option, none, some}
use circ.Connection.{Conn}
use circ.Frame.{buffers}
use circ.Glib.{Glib}
use circ.Irc.{irc_msg_size}
use circ.World.{Client, World}

-- The store has its 512 bytes, and holds no more than that.
pub record IsStore (conn : Conn) : Type 0 where
  pub store : length conn.store ≡ irc_msg_size
  pub total_read : conn.total_read ≤ irc_msg_size

module _ ⦃g : Glib⦄ where
  -- `Q` holds of the connection of every client.
  pub record Everyone (Q : ℕ → Conn → Type 0) (w : World) : Type 0 where
    pub each : (p : ℕ) (c : Client) → w.client_at p ≡ some c → Q p c.conn

  -- `Q` does not look at the message buffer.
  abbrev pub ReadsBuffers : (ℕ → Conn → Type 0) → Type 0
  ReadsBuffers Q = (p : ℕ) (c d : Conn) → buffers d ≡ buffers c → Q p c → Q p d
