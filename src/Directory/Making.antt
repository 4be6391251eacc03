-- ===== src/Directory/Making.antt =====
-- Channels that are made, joined and given a topic, in src/server.c and src/channel.c.
use circ.Base.{
  ℕ, ◌+◌, ◌<◌, ◌≤◌, ◌≡◌, refl, sym, ap, ◌∙◌, ◌⊎◌, inl, inr, true, false, some, some_inj,
  none_absurd, Bytes, take, take_all, length, map-to_lower_idem, str_eq, str_eq_iff, Bool-cases,
  Option-cases, ◌==◌, ==_iff, arith,
}
use circ.Channel.{channel_join, channel_set_topic, channel_name_max, channel_topic_max, is_some}
use circ.Directory.{id_at, id_in, IsSound, IsDirectory, HasMember}
use circ.Frame.Forward.{Keeps-channel_sendall_join}
use circ.Frame.Quiet.{Keeps-client_send}
use circ.Directory.Writes.{sending_writes}
use circ.Glib.{Glib}
use circ.Server.{lower, server_create_channel}
use circ.Server.Names.{new_channel, with_channel, create-ok, create-crash}
use circ.World.{Client, Channel, World, ◌>>=◌, ◌>>◌, pure, store_channel, update}
use circ.World.Keeps.{Keeps, Then-if, Then-load_client}
use circ.World.Leads.{Then-load_channel}

module _ ⦃g : Glib⦄ where
  -- One struct is written: its members exist and are not none.
  pub stored-IsSound :
      (w : World) (p : ℕ) (ch d : Channel)
      → IsSound w
      → w.channel_at p ≡ some ch
      → d.name ≡ ch.name
      → ((id q : ℕ) → g.ints.lookup d.members id ≡ some q → id_at w q ≡ some id)
      → IsSound (record w { channel_at = update w.channel_at p (some d) })
  stored-IsSound w p ch d h there same live = record {
    members = λ q x at_q. elim (Bool-cases (p == q)) [
      | inl here ↦ let e : some d ≡ some x = rw here at at_q in rw (sym (some_inj.0 e)) live
      | inr other ↦ h.members q x (rw other at at_q)
    ];
    named = λ n q found short. elim (Bool-cases (p == q)) [
      | inl here ↦
          let (x, at_q, is_name) = h.named n q found short in
          let e : ch ≡ x = some_inj.0 (sym there ∙ ap w.channel_at ((==_iff p q).0 here) ∙ at_q) in
          (d, rw here refl, same ∙ ap (λ (y : Channel). y.name) e ∙ is_name)
      | inr other ↦ let (x, at_q, is_name) = h.named n q found short in (x, rw other at_q, is_name)
    ];
    lowered = h.lowered;
    channels_below = λ q x at_q. elim (Bool-cases (p == q)) [
      | inl here ↦ rw (sym ((==_iff p q).0 here)) (h.channels_below p ch there)
      | inr other ↦ h.channels_below q x (rw other at at_q)
    ];
    clients_below = h.clients_below;
  }

  pub stored-IsDirectory :
      (w : World) (p : ℕ) (ch d : Channel)
      → IsDirectory w
      → w.channel_at p ≡ some ch
      → d.name ≡ ch.name
      → ((id q : ℕ) → g.ints.lookup d.members id ≡ some q → id_at w q ≡ some id)
      → HasMember d
      → IsDirectory (record w { channel_at = update w.channel_at p (some d) })
  stored-IsDirectory w p ch d h there same live someone = record {
    sound = stored-IsSound w p ch d h.sound there same live;
    inhabited = λ q x at_q. elim (Bool-cases (p == q)) [
      | inl here ↦ let e : some d ≡ some x = rw here at at_q in rw (sym (some_inj.0 e)) someone
      | inr other ↦ h.inhabited q x (rw other at at_q)
    ];
  }

  -- The members with one more.
  pub inserted-live :
      (w : World) (t : g.ints.Table) (p : ℕ) (c : Client)
      → ((id q : ℕ) → g.ints.lookup t id ≡ some q → id_at w q ≡ some id)
      → w.client_at p ≡ some c
      → (id q : ℕ) → g.ints.lookup (g.ints.insert t c.client_id p) id ≡ some q
      → id_at w q ≡ some id
  inserted-live w t p c live here id q found0 =
      let found = sym (g.ints.lookup-insert t c.client_id id p) ∙ found0 in
      elim (Bool-cases (c.client_id == id)) [
        | inl same ↦
            let e : some p ≡ some q = rw same at found in
            rw (sym (some_inj.0 e)) (ap id_in here ∙ ap some ((==_iff c.client_id id).0 same))
        | inr other ↦ live id q (rw other at found)
      ]

  pub inserted-member :
      (t : g.ints.Table) (id p : ℕ) → g.ints.lookup (g.ints.insert t id p) id ≡ some p
  inserted-member t id p =
      let same : id == id ≡ true = (==_iff id id).1 refl in
      g.ints.lookup-insert t id id p ∙ rw same refl

  pub Keeps-channel_join : (channel client : ℕ) → Keeps IsDirectory (channel_join channel client)
  unfolding channel_join store_channel ◌>>◌ ◌>>=◌ pure
  Keeps-channel_join channel client = record {
    at = λ w h. Then-load_client IsDirectory w client _ (λ c here.
        Then-load_channel IsDirectory w channel _ (λ ch there.
          Then-if IsDirectory (is_some (g.ints.lookup ch.members c.client_id)) _ _ w (λ old. h)
            (λ new.
              (Keeps-channel_sendall_join (Keeps-client_send sending_writes) channel client).at _ (
                stored-IsDirectory w channel ch
                  (record ch { members = g.ints.insert ch.members c.client_id client }) h there refl
                  (inserted-live w ch.members client c (h.sound.members channel ch there) here)
                  (c.client_id, client, inserted-member ch.members c.client_id client)))));
  }

  pub Keeps-channel_set_topic :
      (channel : ℕ) (topic : Bytes) → Keeps IsDirectory (channel_set_topic channel topic)
  unfolding channel_set_topic store_channel
  Keeps-channel_set_topic channel topic = record {
    at = λ w h. Then-load_channel IsDirectory w channel _ (λ ch there.
        stored-IsDirectory w channel ch (record ch { topic = take channel_topic_max topic }) h there
          refl (h.sound.members channel ch there) (h.inhabited channel ch there));
  }

  module _ {w : World} (h : IsDirectory w) (p : ℕ) (c : Client) (name : Bytes)
      (here : w.client_at p ≡ some c) where
    made : World
    made = with_channel w c name p

    -- No channel stands at the new address yet.
    apart : (q : ℕ) (ch : Channel) → w.channel_at q ≡ some ch → w.next_channel == q ≡ false
    apart q ch there = let low = h.sound.channels_below q ch there in ground arith

    -- A name in the table is the new one, for the new channel, or an older one.
    made-found :
        (n : Bytes) (q : ℕ)
        → g.strings.lookup made.server.channels n ≡ some q
        → ((lower name ≡ n) × (w.next_channel ≡ q))
          ⊎ (g.strings.lookup w.server.channels n ≡ some q)
    unfolding made
    made-found n q found0 =
        let found =
          sym (g.strings.lookup-insert w.server.channels (lower name) n w.next_channel) ∙ found0 in
        elim (Bool-cases (str_eq (lower name) n)) [
          | inl same ↦ inl ((str_eq_iff (lower name) n).0 same, some_inj.0 (rw same at found))
          | inr other ↦ inr (rw other at found)
        ]

    made-members :
        (q : ℕ) (ch : Channel)
        → made.channel_at q ≡ some ch
        → ((id r : ℕ) → g.ints.lookup ch.members id ≡ some r → id_at w r ≡ some id) × HasMember ch
    unfolding made
    made-members q ch at_q = elim (Bool-cases (w.next_channel == q)) [
      | inl this ↦
          let e : some (new_channel c (lower name) p) ≡ some ch = rw this at at_q in
          rw (sym (some_inj.0 e)) (
            inserted-live w g.ints.new p c (λ id r f. none_absurd (sym (g.ints.lookup-new id) ∙ f))
                here,
            (c.client_id, p, inserted-member g.ints.new c.client_id p),
          )
      | inr other ↦
          let there : w.channel_at q ≡ some ch = rw other at at_q in
          (h.sound.members q ch there, h.inhabited q ch there)
    ]

    made-named :
        (n : Bytes) (q : ℕ)
        → g.strings.lookup made.server.channels n ≡ some q
        → length n ≤ channel_name_max
        → (ch : Channel) × (made.channel_at q ≡ some ch) × (ch.name ≡ n)
    unfolding made
    made-named n q found short = elim (made-found n q found) [
      | inl (same, new) ↦
          let this : w.next_channel == q ≡ true = (==_iff w.next_channel q).1 new in
          (
            new_channel c (lower name) p,
            rw this refl,
            ap (take channel_name_max) same ∙ take_all channel_name_max n short,
          )
      | inr old ↦
          let (ch, there, is_name) = h.sound.named n q old short in
          (ch, rw (apart q ch there) there, is_name)
    ]

    made-below : (q : ℕ) (ch : Channel) → made.channel_at q ≡ some ch → q < w.next_channel + 1
    unfolding made
    made-below q ch at_q = elim (Bool-cases (w.next_channel == q)) [
      | inl this ↦ ground arith
      | inr other ↦
          let there : w.channel_at q ≡ some ch = rw other at at_q in
          let low = h.sound.channels_below q ch there in omega arith
    ]

    made-IsDirectory : IsDirectory made
    unfolding made
    made-IsDirectory = record {
      sound = record {
        members = λ q ch at_q. (made-members q ch at_q).0;
        named = made-named;
        lowered = λ n q found. elim (made-found n q found) [
          | inl (same, new) ↦ rw (sym same) (map-to_lower_idem name)
          | inr old ↦ h.sound.lowered n q old
        ];
        channels_below = made-below;
        clients_below = h.sound.clients_below;
      };
      inhabited = λ q ch at_q. (made-members q ch at_q).1;
    }

  pub Keeps-server_create_channel :
      (name : Bytes) (client : ℕ) → Keeps IsDirectory (server_create_channel name client)
  unfolding made
  Keeps-server_create_channel name client = record {
    at = λ w h. elim (Option-cases (w.client_at client)) [
      | inl gone ↦ rw (create-crash w client name gone) tt
      | inr (c, here) ↦ rw (create-ok w client c name here) (made-IsDirectory h client c name here)
    ];
  }
