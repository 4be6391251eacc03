-- ===== src/Directory.antt =====
-- The channels: the table `channels` of the server, the structs and the members that they hold, as
-- src/channel.c, src/server.c and src/handlers.c keep them.
pub mod Writes
pub mod Making
pub mod Leaving
pub mod Reachable
use circ.Base.{ℕ, ◌≤◌, ◌<◌, ◌≡◌, false, Option, none, some, Bytes, length, ◌==◌}
use circ.Channel.{channel_name_max}
use circ.Glib.{Glib}
use circ.Server.{lower}
use circ.World.{Client, Channel, World}

module _ ⦃g : Glib⦄ where
  abbrev pub id_in : Option Client → Option ℕ
  id_in none = none
  id_in (some c) = some c.client_id

  -- The id of the client at an address.
  abbrev pub id_at : World → ℕ → Option ℕ
  id_at w p = id_in (w.client_at p)

  -- Each member of a channel is a client that exists, under its own id. A name of at most 50 bytes in
  -- the table is that of a channel that exists and bears it, and all names are in lower case.
  pub record IsSound (w : World) : Type 0 where
    pub members :
        (p : ℕ) (ch : Channel)
        → w.channel_at p ≡ some ch
        → (id q : ℕ) → g.ints.lookup ch.members id ≡ some q
        → id_at w q ≡ some id
    pub named :
        (n : Bytes) (p : ℕ)
        → g.strings.lookup w.server.channels n ≡ some p
        → length n ≤ channel_name_max
        → (ch : Channel) × (w.channel_at p ≡ some ch) × (ch.name ≡ n)
    pub lowered : (n : Bytes) (p : ℕ) → g.strings.lookup w.server.channels n ≡ some p → lower n ≡ n
    pub channels_below : (p : ℕ) (ch : Channel) → w.channel_at p ≡ some ch → p < w.next_channel
    pub clients_below : (p id : ℕ) → id_at w p ≡ some id → p < w.next_client

  abbrev pub HasMember : Channel → Type 0
  HasMember ch = (id : ℕ) × (q : ℕ) × (g.ints.lookup ch.members id ≡ some q)

  -- And no channel is without members.
  pub record IsDirectory (w : World) : Type 0 where
    pub sound : IsSound w
    pub inhabited : (p : ℕ) (ch : Channel) → w.channel_at p ≡ some ch → HasMember ch

  -- The same but for the members of one channel.
  pub record IsLeft (channel : ℕ) (w : World) : Type 0 where
    pub sound : IsSound w
    pub inhabited :
        (p : ℕ) (ch : Channel) → channel == p ≡ false → w.channel_at p ≡ some ch → HasMember ch

  -- What both read is the same in two states.
  pub record SameRooms (w v : World) : Type 0 where
    pub channels : v.server.channels ≡ w.server.channels
    pub channel_at : v.channel_at ≡ w.channel_at
    pub next_channel : v.next_channel ≡ w.next_channel
    pub next_client : v.next_client ≡ w.next_client
    pub ids : (p : ℕ) → id_at v p ≡ id_at w p

  pub SameRooms-IsDirectory : {w v : World} → SameRooms w v → IsDirectory w → IsDirectory v
  SameRooms-IsDirectory {w} {v} s d = record {
    sound = record {
      members = λ p ch there id q h.
          rw (s.ids q) (d.sound.members p ch (rw s.channel_at at there) id q h);
      named = λ n p h short.
          let (ch, there, same) = d.sound.named n p (rw s.channels at h) short in
          (ch, rw s.channel_at there, same);
      lowered = λ n p h. d.sound.lowered n p (rw s.channels at h);
      channels_below =
          λ p ch there. rw s.next_channel (d.sound.channels_below p ch (rw s.channel_at at there));
      clients_below = λ p id h. rw s.next_client (d.sound.clients_below p id (rw (s.ids p) at h));
    };
    inhabited = λ p ch there. d.inhabited p ch (rw s.channel_at at there);
  }
