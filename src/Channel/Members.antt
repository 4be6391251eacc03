-- ===== src/Channel/Members.antt =====
-- src/channel.c: who is a member once a member is removed.
use circ.Base.{
  ℕ, ◌≡◌, refl, ap, ◌∙◌, Bool, true, false, Option, none, some, ==_iff, ◌==◌, if◌then◌else◌,
}
use circ.Channel.{is_some, channel_is_member, channel_remove_member}
use circ.Glib.{Glib}
use circ.World.{Client, Channel, World, ok, pure, store_channel, update}
use circ.World.Runs.{bind-ok, load_client-ok, load_channel-ok}

module _ ⦃g : Glib⦄ where
  -- The channel without the client.
  abbrev pub without : Channel → Client → Channel
  without ch c = record ch {
    members = g.ints.remove ch.members c.client_id;
    member_modes = g.ints.remove ch.member_modes c.client_id;
  }

  abbrev pub removed : World → ℕ → Channel → Client → World
  removed w channel ch c = record w {
    channel_at = update w.channel_at channel (some (without ch c));
  }

  is_member-ok :
      (w : World) (channel p : ℕ) (ch : Channel) (c : Client)
      → w.channel_at channel ≡ some ch
      → w.client_at p ≡ some c
      → channel_is_member channel p w ≡ ok (is_some (g.ints.lookup ch.members c.client_id)) w
  unfolding channel_is_member pure
  is_member-ok w channel p ch c there here =
      bind-ok _ _ w c w (load_client-ok p w c here)
      ∙ bind-ok _ _ w ch w (load_channel-ok channel w ch there)

  pub remove_member-ok :
      (w : World) (channel p : ℕ) (ch : Channel) (c : Client)
      → w.channel_at channel ≡ some ch
      → w.client_at p ≡ some c
      → channel_remove_member channel p w ≡ ok tt (removed w channel ch c)
  unfolding channel_remove_member store_channel
  remove_member-ok w channel p ch c there here =
      bind-ok _ _ w c w (load_client-ok p w c here)
      ∙ bind-ok _ _ w ch w (load_channel-ok channel w ch there)

  is_some-if :
      (b : Bool) (o : Option ℕ) → is_some (if b then none else o) ≡ (if b then false else is_some o)
  is_some-if true o = refl
  is_some-if false o = refl

  -- For a channel and a client that exist, `channel_remove_member` returns; afterwards
  -- `channel_is_member` says no of every client with that client's id, and says of every other
  -- client what it said before.
  pub channel_remove_member-channel_is_member :
      (w : World) (channel p : ℕ) (ch : Channel) (c : Client)
      → w.channel_at channel ≡ some ch
      → w.client_at p ≡ some c
      → (v : World) × (channel_remove_member channel p w ≡ ok tt v)
        × ((q : ℕ) (d : Client)
            → w.client_at q ≡ some d
            → (channel_is_member channel q w
                ≡ ok (is_some (g.ints.lookup ch.members d.client_id)) w)
              × (channel_is_member channel q v
                  ≡ ok
                      (if c.client_id == d.client_id
                        then false
                        else is_some (g.ints.lookup ch.members d.client_id))
                      v))
  channel_remove_member-channel_is_member w channel p ch c there here =
      let v = removed w channel ch c in
      let same : channel == channel ≡ true = (==_iff channel channel).1 refl in
      let left : v.channel_at channel ≡ some (without ch c) = rw same refl in
      (
        v,
        remove_member-ok w channel p ch c there here,
        λ q d at_q. (
          is_member-ok w channel q ch d there at_q,
          is_member-ok v channel q (without ch c) d left at_q
              ∙ ap (λ b. ok b v)
                  (ap is_some (g.ints.lookup-remove ch.members c.client_id d.client_id)
                    ∙ is_some-if (c.client_id == d.client_id)
                        (g.ints.lookup ch.members d.client_id)),
        ),
      )
