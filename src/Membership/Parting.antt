-- ===== src/Membership/Parting.antt =====
-- A client that leaves a channel, in `handler_part` of src/handlers.c.
use circ.Base.Int.{pos}
use circ.Base.{
  ℕ, ◌≡◌, ◌≤◌, refl, sym, ap, ◌∙◌, inl, inr, Bool, true, false, not, ◌&&◌, Option, none, some, List,
  [], ◌∷◌, Bytes, length, str_eq, str_eq_iff, Bool-cases, Option-cases, ◌==◌, ==_iff, arith,
  if◌then◌else◌,
}
use circ.Base.Int.{ℤ}
use circ.Channel.{is_some, channel_sendall_part, channel_name_max}
use circ.Channel.Delivery.{channel_send_message-IsDelivered}
use circ.Channel.Members.{without, removed, remove_member-ok}
use circ.Directory.{IsDirectory}
use circ.Directory.Leaving.{size-ok}
use circ.Flushing.{IsFlushed}
use circ.Glib.{Glib, Response, find_entry}
use circ.Handlers.Basic.{done}
use circ.Handlers.Rooms.{part_leave}
use circ.Membership.{in_channel, in_at, member_of, in_at-same}
use circ.Membership.Joining.{short, format-bounded, this, named-apart}
use circ.Relaying.Handler.{members-AllReady}
use circ.Replies.Channels.{message_part}
use circ.Sending.Delivery.{IsDelivered}
use circ.Server.{server_remove_channel}
use circ.World.{
  Client, Channel, Server, World, M, ok, ◌>>◌, pure, modify_server, store_channel, update,
}
use circ.World.Runs.{bind-ok, seq-ok, load_client-ok, load_channel-ok}

and-true : (a : Bool) → a ≡ (a && not false)
and-true true = refl
and-true false = refl

and-false : (a : Bool) → false ≡ (a && not true)
and-false true = refl
and-false false = refl

module _ ⦃g : Glib⦄ where
  part_bounded :
      (c : Client) (name : Bytes) (text : Option Bytes) → (message_part c name text).bounded ≡ true
  unfolding message_part
  part_bounded c name text = refl

  sendall_part-IsDelivered :
      (w : World) (a p : ℕ) (c : Client) (ch : Channel) (text : Option Bytes)
      → IsDirectory w
      → IsFlushed w
      → w.client_at p ≡ some c
      → w.channel_at a ≡ some ch
      → (v : World) × (l : List (ℕ × Response)) × (channel_sendall_part a p text w ≡ ok tt v)
        × IsDelivered w l v
  unfolding channel_sendall_part
  sendall_part-IsDelivered w a p c ch text d h here there =
      let r = message_part c ch.name text in
      let (v, run, done) =
        channel_send_message-IsDelivered w a ch (short r) (pos c.client_id) there
          (members-AllReady w a (pos c.client_id) ch d h there) in
      (
        v,
        _,
        bind-ok _ _ w c w (load_client-ok p w c here)
            ∙ bind-ok _ _ w ch w (load_channel-ok a w ch there)
            ∙ bind-ok _ _ w _ w (format-bounded r w (part_bounded c ch.name text))
            ∙ run,
        done,
      )

  removed-is_some :
      (t : g.ints.Table) (key id : ℕ)
      → is_some (g.ints.lookup (g.ints.remove t key) id)
        ≡ (is_some (g.ints.lookup t id) && not (key == id))
  removed-is_some t key id =
      ap is_some (g.ints.lookup-remove t key id) ∙ elim (Bool-cases (key == id)) [
        | inl same ↦ rw same (and-false (is_some (g.ints.lookup t id)))
        | inr other ↦ rw other (and-true (is_some (g.ints.lookup t id)))
      ]

  no_entries :
      (t : g.ints.Table) (l : List (ℕ × ℕ)) (id : ℕ)
      → g.ints.entries t ≡ l
      → length l == 0 ≡ true
      → g.ints.lookup t id ≡ none
  no_entries t [] id e empty = sym (g.ints.find-entries t id) ∙ ap (find_entry ◌==◌ id) e
  no_entries t (x ∷ l) id e empty = ground arith

  module _ (c : Client) {w : World} {a : ℕ} {ch : Channel} {l : Bytes} (d : IsDirectory w)
      (found : g.strings.lookup w.server.channels l ≡ some a) (there : w.channel_at a ≡ some ch)
      (is_name : ch.name ≡ l) where
    -- Under another name the table has another channel, or none.
    other-name :
        (f : ℕ → Option Channel) (n : Bytes) (id : ℕ)
        → length n ≤ channel_name_max
        → str_eq l n ≡ false
        → ((q : ℕ) → a == q ≡ false → f q ≡ w.channel_at q)
        → in_at f (g.strings.lookup w.server.channels n) id
          ≡ (member_of w n id && not (this l c n id))
    other-name f n id fits other same = elim (Option-cases (g.strings.lookup w.server.channels n)) [
      | inl nowhere ↦ rw nowhere refl
      | inr (q, at_q) ↦
          let (x, there', name') = d.sound.named n q at_q fits in
          let apart = named-apart w a q ch x l n there there' is_name name' other in
          rw (at_q, other, same q apart) (and-true (in_channel (w.channel_at q) id))
    ]

    same-name :
        (n : Bytes) (id : ℕ)
        → str_eq l n ≡ true
        → is_some (g.ints.lookup (without ch c).members id)
          ≡ (member_of w n id && not (this l c n id))
    same-name n id same =
        let here : g.strings.lookup w.server.channels n ≡ some a =
          ap (g.strings.lookup w.server.channels) (sym ((str_eq_iff l n).0 same)) ∙ found in
        rw (here, same)
          (removed-is_some ch.members c.client_id id
            ∙ ap (λ o. in_channel o id && not (c.client_id == id)) (sym there))

    -- The channel stays, without the client.
    kept-member :
        (n : Bytes) (id : ℕ)
        → length n ≤ channel_name_max
        → in_at
            (update w.channel_at a (some (without ch c)))
            (g.strings.lookup w.server.channels n)
            id
          ≡ (member_of w n id && not (this l c n id))
    kept-member n id fits = elim (Bool-cases (str_eq l n)) [
      | inl same ↦
          let here : g.strings.lookup w.server.channels n ≡ some a =
            ap (g.strings.lookup w.server.channels) (sym ((str_eq_iff l n).0 same)) ∙ found in
          let at_a : a == a ≡ true = (==_iff a a).1 refl in
          ap (λ o. in_at (update w.channel_at a (some (without ch c))) o id) here
          ∙ ap (λ (b : Bool). in_channel (if b then some (without ch c) else w.channel_at a) id)
              at_a
          ∙ same-name n id same
      | inr other ↦ other-name _ n id fits other (λ q apart. rw apart refl)
    ]

    -- The client was the last, and the channel is removed.
    gone-member :
        length (g.ints.entries (without ch c).members) == 0 ≡ true
        → (n : Bytes) (id : ℕ) → length n ≤ channel_name_max
        → in_at
            (update (update w.channel_at a (some (without ch c))) a none)
            (g.strings.lookup (g.strings.remove w.server.channels ch.name) n)
            id
          ≡ (member_of w n id && not (this l c n id))
    gone-member empty n id fits =
        let at = update (update w.channel_at a (some (without ch c))) a none in
        ap (λ o. in_at at o id) (g.strings.lookup-remove w.server.channels ch.name n)
        ∙ ap
            (λ name.
              in_at at (if str_eq name n then none else g.strings.lookup w.server.channels n) id)
            is_name
        ∙ elim (Bool-cases (str_eq l n)) [
          | inl same ↦
              ap
                (λ (b : Bool).
                  in_at at (if b then none else g.strings.lookup w.server.channels n) id)
                same
              ∙ sym (
                  sym (same-name n id same)
                  ∙ ap is_some (no_entries (without ch c).members _ id refl empty))
          | inr other ↦
              ap
                (λ (b : Bool).
                  in_at at (if b then none else g.strings.lookup w.server.channels n) id)
                other
              ∙ other-name at n id fits other (λ q apart. rw apart refl)
        ]

  -- What the removal of a channel makes of the state.
  abbrev pub freed : World → ℕ → Channel → World
  freed v a ch = record v {
    server = record (v.server) { channels = g.strings.remove v.server.channels ch.name };
    channel_at = update v.channel_at a none;
  }

  pub remove_channel-ok :
      (v : World) (a : ℕ) (ch : Channel)
      → v.channel_at a ≡ some ch
      → server_remove_channel a v ≡ ok tt (freed v a ch)
  unfolding server_remove_channel modify_server store_channel
  remove_channel-ok v a ch there =
      let u : World = record v {
        server = record (v.server) { channels = g.strings.remove v.server.channels ch.name };
      } in
      bind-ok _ _ v ch v (load_channel-ok a v ch there) ∙ seq-ok _ _ v u refl

  -- The end of `part_leave`, after the members have been told.
  abbrev ending : ℕ → ℕ → M ℤ
  ending a size = (if size == 0 then server_remove_channel a else pure tt) >> pure done

  update-same :
      (f h : ℕ → Option Channel) (a : ℕ) (o : Option Channel)
      → ((q : ℕ) → f q ≡ h q)
      → (q : ℕ) → update f a o q ≡ update h a o q
  update-same f h a o e q = ap (λ x. if a == q then o else x) (e q)

  -- Where the channels are as in every state that the server reaches and no response waits, a client
  -- that exists leaves the channel that the table has under a name of at most 50 bytes: the handler
  -- returns 0, and afterwards the client is no member of the channel of that name, while every
  -- other membership in a channel whose name has at most 50 bytes is as before, whether the channel
  -- stays or is removed with its last member.
  pub part_leave-member_of :
      (w : World) (p a : ℕ) (c : Client) (name : Bytes) (text : Option Bytes)
      → IsDirectory w
      → IsFlushed w
      → w.client_at p ≡ some c
      → length name ≤ channel_name_max
      → g.strings.lookup w.server.channels name ≡ some a
      → (v : World) × (part_leave p a text w ≡ ok done v)
        × ((n : Bytes) (id : ℕ)
            → length n ≤ channel_name_max
            → member_of v n id ≡ (member_of w n id && not (str_eq name n && c.client_id == id)))
  unfolding part_leave pure
  part_leave-member_of w p a c name text d h here fits found =
      let (ch, there, is_name) = d.sound.named name a found fits in
      let (v, l, run, told) = sendall_part-IsDelivered w a p c ch text d h here there in
      let (queue, here', nothing) = told.ready p c here (h.empty p c here) in
      let b : Client = record c { responses = queue } in
      let u = removed v a ch b in
      let at_a : a == a ≡ true = (==_iff a a).1 refl in
      let left : u.channel_at a ≡ some (without ch b) = rw at_a refl in
      let size = length (g.ints.entries (without ch b).members) in
      let until : part_leave p a text w ≡ ending a size u =
        seq-ok _ _ w v run
        ∙ seq-ok _ _ v u (remove_member-ok v a p ch b (told.channel_at a ∙ there) here')
        ∙ bind-ok _ (ending a) u size u (size-ok u a (without ch b) left) in
      let channels : (q : ℕ) → u.channel_at q ≡ update w.channel_at a (some (without ch b)) q =
        update-same v.channel_at w.channel_at a (some (without ch b)) told.channel_at in
      elim (Bool-cases (size == 0)) [
        | inl empty ↦ (
          freed u a (without ch b),
          until ∙ rw empty (seq-ok _ _ u _ (remove_channel-ok u a (without ch b) left)),
          λ n id short_name.
              in_at-same _ _ _ id (
                update-same u.channel_at (update w.channel_at a (some (without ch b))) a none
                  channels)
              ∙ ap
                  (λ (s : Server).
                    in_at (update (update w.channel_at a (some (without ch b))) a none)
                      (g.strings.lookup (g.strings.remove s.channels ch.name) n) id)
                  told.server
              ∙ gone-member b d found there is_name empty n id short_name,
        )
        | inr some_left ↦ (
          u,
          until ∙ rw some_left (seq-ok (pure tt) (pure done) u u refl),
          λ n id short_name.
              in_at-same _ _ _ id channels
              ∙ ap
                  (λ (s : Server).
                    in_at (update w.channel_at a (some (without ch b)))
                      (g.strings.lookup s.channels n) id)
                  told.server
              ∙ kept-member b d found there is_name n id short_name,
        )
      ]
