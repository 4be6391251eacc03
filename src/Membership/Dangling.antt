-- ===== src/Membership/Dangling.antt =====
-- A channel whose name is longer than the array for it in include/channel.h, once src/server.c has
-- removed it.
use circ.Base.{
  ℕ, ◌≡◌, ◌<◌, refl, ap, ◌∙◌, inl, inr, true, false, Option, none, some, Bytes, length, length-take,
  take, str_eq, str_eq_iff, Bool-cases, ◌==◌, ==_iff, if◌then◌else◌, arith,
}
use circ.Channel.{channel_join, channel_name_max}
use circ.Glib.{Glib}
use circ.Handlers.Rooms.{join_or_create}
use circ.Membership.Joining.{length-lower}
use circ.Membership.Parting.{freed, remove_channel-ok}
use circ.Server.{lower, server_create_channel, server_remove_channel}
use circ.Server.Names.{new_channel, with_channel, create-ok, get-ok}
use circ.World.{Client, World, M, ok, crash, ◌>>=◌, ◌>>◌, pure, maybe}
use circ.World.Runs.{bind-ok, seq-crash, load_client-ok, load_channel-crash}

-- The name that the struct keeps is another one.
cut-differs : (s : Bytes) → channel_name_max < length s → str_eq (take channel_name_max s) s ≡ false
cut-differs s long = elim (Bool-cases (str_eq (take channel_name_max s) s)) [
  | inl same ↦
      let e = ap length ((str_eq_iff (take channel_name_max s) s).0 same) in
      absurd (omega (arith, e, length-take channel_name_max s))
  | inr other ↦ other
]

module _ ⦃g : Glib⦄ where
  join-crash :
      (v : World) (a p : ℕ) (c : Client)
      → v.client_at p ≡ some c
      → v.channel_at a ≡ none
      → channel_join a p v ≡ crash
  unfolding channel_join
  join-crash v a p c here gone =
      bind-ok _ _ v c v (load_client-ok p v c here) ∙ load_channel-crash a _ v gone

  -- For a client that exists and a name of more than 50 bytes: once the channel of that name has
  -- been made and removed, the table still has it under the name, and the next JOIN of the name
  -- goes through the pointer to the freed struct.
  pub server_remove_channel-dangles :
      (w : World) (p : ℕ) (c : Client) (name : Bytes)
      → w.client_at p ≡ some c
      → channel_name_max < length name
      → (v : World) × ((server_create_channel name p >>= server_remove_channel) w ≡ ok tt v)
        × (g.strings.lookup v.server.channels (lower name) ≡ some w.next_channel)
        × (v.channel_at w.next_channel ≡ none)
        × (join_or_create p name v ≡ crash)
  unfolding join_or_create maybe
  server_remove_channel-dangles w p c name here long =
      let l = lower name in
      let a = w.next_channel in
      let u = with_channel w c name p in
      let ch = new_channel c l p in
      let v = freed u a ch in
      let same : a == a ≡ true = (==_iff a a).1 refl in
      let made : u.channel_at a ≡ some ch = rw same refl in
      let kept : str_eq (take channel_name_max l) l ≡ false =
        cut-differs l (rw (length-lower name) long) in
      let equal : str_eq l l ≡ true = (str_eq_iff l l).1 refl in
      let found : g.strings.lookup v.server.channels l ≡ some a =
        g.strings.lookup-remove u.server.channels (take channel_name_max l) l
        ∙ ap (λ b. if b then none else g.strings.lookup u.server.channels l) kept
        ∙ g.strings.lookup-insert w.server.channels l l a
        ∙ ap (λ b. if b then some a else g.strings.lookup w.server.channels l) equal in
      let gone : v.channel_at a ≡ none = ap (λ b. if b then none else u.channel_at a) same in
      let branch : Option ℕ → M ℕ = λ o.
        maybe o (server_create_channel l p) (λ channel. channel_join channel p >> pure channel) in
      (
        v,
        bind-ok _ server_remove_channel w a u (create-ok w p c name here)
            ∙ remove_channel-ok u a ch made,
        found,
        gone,
        bind-ok _ _ v _ v (get-ok v name)
            ∙ ap (λ o. branch o v) found
            ∙ seq-crash _ _ v (join-crash v a p c here gone),
      )
