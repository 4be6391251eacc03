-- ===== src/Registry.antt =====
-- The registry of clients: the tables `nicks` and `clients` of the server and the structs of the
-- clients, as the handlers of src/handlers.c and src/client.c keep them.
pub mod Writes
pub mod Naming
pub mod Arrivals
pub mod Reading
pub mod Reachable
use circ.Base.{
  ℕ, ◌≤◌, ◌<◌, ◌≡◌, refl, sym, ◌∙◌, Bool, true, false, Option, none, some, Bytes, arith,
}
use circ.Frame.{identity}
use circ.Glib.{Glib}
use circ.World.{Client, World}

module _ ⦃g : Glib⦄ where
  abbrev pub who : World → ℕ → Option (ℕ × Bytes × Bool)
  who w p = identity (w.client_at p)

  -- A nickname in the table is that of one client, which the server has under the id and whose
  -- struct holds the nickname; a client that has a nickname is in the table under it; every client
  -- is in the server's table under its own id, which is not 0.
  pub record IsRegistry (w : World) : Type 0 where
    pub known :
        (n : Bytes) (id : ℕ)
        → g.strings.lookup w.server.nicks n ≡ some id
        → (p : ℕ) × (g.ints.lookup w.server.clients id ≡ some p) × (who w p ≡ some (id, n, true))
    pub listed :
        (p id : ℕ) (n : Bytes)
        → who w p ≡ some (id, n, true)
        → g.strings.lookup w.server.nicks n ≡ some id
    pub enrolled :
        (p id : ℕ) (n : Bytes) (b : Bool)
        → who w p ≡ some (id, n, b)
        → (g.ints.lookup w.server.clients id ≡ some p)
          × (0 < id)
          × (id < w.server.id_counter)
          × (p < w.next_client)
    pub counting : 0 < w.server.id_counter

  -- What the invariant reads is the same in both states.
  pub record SameNames (w v : World) : Type 0 where
    pub nicks : v.server.nicks ≡ w.server.nicks
    pub clients : v.server.clients ≡ w.server.clients
    pub id_counter : v.server.id_counter ≡ w.server.id_counter
    pub next_client : v.next_client ≡ w.next_client
    pub identities : (p : ℕ) → who v p ≡ who w p

  pub SameNames-IsRegistry : {w v : World} → SameNames w v → IsRegistry w → IsRegistry v
  SameNames-IsRegistry {w} {v} s r = record {
    known = λ n id h.
        let (p, inside, is_named) = r.known n id (rw s.nicks at h) in
        (p, rw s.clients inside, rw (s.identities p) is_named);
    listed = λ p id n h. rw s.nicks (r.listed p id n (rw (s.identities p) at h));
    enrolled = λ p id n b h.
        let (inside, positive, old, low) = r.enrolled p id n b (rw (s.identities p) at h) in
        (rw s.clients inside, positive, rw s.id_counter old, rw s.next_client low);
    counting = rw s.id_counter r.counting;
  }
