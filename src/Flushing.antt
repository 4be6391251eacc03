-- ===== src/Flushing.antt =====
-- The queues of responses, src/client.c: what is put into them is written before the next event.
pub mod Kept
pub mod Reachable
use circ.Base.{ℕ, ◌≡◌, false, some, [], ◌==◌}
use circ.Glib.{Glib}
use circ.World.{Client, World}

module _ ⦃g : Glib⦄ where
  -- No client has a response to be written.
  pub record IsFlushed (w : World) : Type 0 where
    pub empty : (p : ℕ) (c : Client) → w.client_at p ≡ some c → g.queues.elements c.responses ≡ []

  -- No client but `me` has.
  pub record OthersFlushed (me : ℕ) (w : World) : Type 0 where
    pub empty :
        (p : ℕ) (c : Client)
        → me == p ≡ false
        → w.client_at p ≡ some c
        → g.queues.elements c.responses ≡ []

  pub IsFlushed-OthersFlushed : (me : ℕ) (w : World) → IsFlushed w → OthersFlushed me w
  IsFlushed-OthersFlushed me w h = record { empty = λ p c other. h.empty p c }
