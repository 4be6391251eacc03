-- ===== src/Membership.antt =====
-- Who is in which channel: what the table of channels, the structs of src/channel.c and their
-- tables of members stand for, and what JOIN and PART make of it.
pub mod Joining
pub mod Parting
pub mod Dangling
use circ.Base.{ℕ, ◌≡◌, refl, ap, Bool, false, Option, none, some, Bytes}
use circ.Channel.{is_some}
use circ.Glib.{Glib}
use circ.World.{Channel, World}

module _ ⦃g : Glib⦄ where
  abbrev pub in_channel : Option Channel → ℕ → Bool
  in_channel none id = false
  in_channel (some ch) id = is_some (g.ints.lookup ch.members id)

  -- The channel at an address that may be absent.
  abbrev pub in_at : (ℕ → Option Channel) → Option ℕ → ℕ → Bool
  in_at at none id = false
  in_at at (some a) id = in_channel (at a) id

  -- Whether the client with that id is in the channel of that name.
  abbrev pub member_of : World → Bytes → ℕ → Bool
  member_of w name id = in_at w.channel_at (g.strings.lookup w.server.channels name) id

  pub in_at-same :
      (f h : ℕ → Option Channel) (o : Option ℕ) (id : ℕ)
      → ((q : ℕ) → f q ≡ h q)
      → in_at f o id ≡ in_at h o id
  in_at-same f h none id e = refl
  in_at-same f h (some a) id e = ap (λ o. in_channel o id) (e a)
