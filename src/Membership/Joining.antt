-- ===== src/Membership/Joining.antt =====
-- A client that joins a channel, in `handler_join` of src/handlers.c.
use circ.Base.Int.{pos}
use circ.Base.{
  ℕ, suc, ◌≡◌, ◌≤◌, refl, sym, ap, ◌∙◌, inl, inr, Bool, true, false, ◌&&◌, ◌||◌, Option, none, some,
  some_inj, List, [], ◌∷◌, Bytes, length, take, str_eq, str_eq_iff, Bool-cases, Option-cases, ◌==◌,
  ==_iff, arith, if◌then◌else◌, map-to_lower_idem,
}
use circ.Channel.{is_some, channel_join, channel_sendall_join, channel_name_max}
use circ.Channel.Delivery.{channel_send_message-IsDelivered}
use circ.Directory.{IsDirectory}
use circ.Directory.Making.{stored-IsDirectory, inserted-live, inserted-member}
use circ.Flushing.{IsFlushed}
use circ.Glib.{Glib, Response}
use circ.Handlers.Rooms.{join_or_create}
use circ.Irc.{irc_msg_size}
use circ.Membership.{in_channel, in_at, member_of, in_at-same}
use circ.Relaying.Handler.{members-AllReady}
use circ.Replies.{Reply}
use circ.Replies.Channels.{message_join}
use circ.Sending.{format}
use circ.Sending.Delivery.{IsDelivered}
use circ.Server.{lower, server_create_channel}
use circ.Server.Names.{new_channel, with_channel, create-ok, get-ok}
use circ.World.{Client, Channel, Server, World, M, ok, ◌>>◌, pure, maybe, store_channel, update}
use circ.World.Runs.{bind-ok, seq-ok, load_client-ok, load_channel-ok}

pub length-lower : (s : Bytes) → length (lower s) ≡ length s
length-lower [] = refl
length-lower (c ∷ s) = ap (λ n. suc n) (length-lower s)

-- A value that is already there does not need to be added.
or-absorb : (a b : Bool) → (b ≡ true → a ≡ true) → a ≡ (a || b)
or-absorb true b h = refl
or-absorb false true h = h refl
or-absorb false false h = refl

or-true : (a : Bool) → true ≡ (a || true)
or-true true = refl
or-true false = refl

or-false : (a : Bool) → a ≡ (a || false)
or-false true = refl
or-false false = refl

module _ ⦃g : Glib⦄ where
  -- A reply that `snprintf` writes.
  abbrev pub short : Reply → Response
  short r = record { response = take irc_msg_size r.text; len = length r.text }

  pub format-bounded : (r : Reply) (w : World) → r.bounded ≡ true → format r w ≡ ok (short r) w
  unfolding format pure
  format-bounded r w h = rw h refl

  join_bounded : (c : Client) (name : Bytes) → (message_join c name).bounded ≡ true
  unfolding message_join
  join_bounded c name = refl

  sendall_join-IsDelivered :
      (w : World) (a p : ℕ) (c : Client) (ch : Channel)
      → IsDirectory w
      → IsFlushed w
      → w.client_at p ≡ some c
      → w.channel_at a ≡ some ch
      → (v : World) × (l : List (ℕ × Response)) × (channel_sendall_join a p w ≡ ok tt v)
        × IsDelivered w l v
  unfolding channel_sendall_join
  sendall_join-IsDelivered w a p c ch d h here there =
      let (v, run, done) =
        channel_send_message-IsDelivered w a ch (short (message_join c ch.name)) (pos c.client_id)
          there (members-AllReady w a (pos c.client_id) ch d h there) in
      (
        v,
        _,
        bind-ok _ _ w c w (load_client-ok p w c here)
            ∙ bind-ok _ _ w ch w (load_channel-ok a w ch there)
            ∙ bind-ok _ _ w _ w (format-bounded (message_join c ch.name) w (join_bounded c ch.name))
            ∙ run,
        done,
      )

  -- The channel with the client.
  abbrev joined : Channel → Client → ℕ → Channel
  joined ch c p = record ch { members = g.ints.insert ch.members c.client_id p }

  abbrev joined_at : World → ℕ → Channel → Client → ℕ → ℕ → Option Channel
  joined_at w a ch c p =
      if is_some (g.ints.lookup ch.members c.client_id)
      then w.channel_at
      else update w.channel_at a (some (joined ch c p))

  join-run :
      (w : World) (a p : ℕ) (c : Client) (ch : Channel)
      → IsDirectory w
      → IsFlushed w
      → w.client_at p ≡ some c
      → w.channel_at a ≡ some ch
      → (v : World) × (channel_join a p w ≡ ok tt v)
        × (v.server ≡ w.server)
        × ((q : ℕ) → v.channel_at q ≡ joined_at w a ch c p q)
  unfolding channel_join store_channel pure
  join-run w a p c ch d h here there =
      elim (Bool-cases (is_some (g.ints.lookup ch.members c.client_id))) [
        | inl member ↦ (
          w,
          bind-ok _ _ w c w (load_client-ok p w c here)
              ∙ bind-ok _ _ w ch w (load_channel-ok a w ch there)
              ∙ rw member refl,
          refl,
          λ q. rw member refl,
        )
        | inr new ↦
            let u : World = record w {
              channel_at = update w.channel_at a (some (joined ch c p));
            } in
            let same : a == a ≡ true = (==_iff a a).1 refl in
            let (v, l, run, done) =
              sendall_join-IsDelivered u a p c (joined ch c p)
                (stored-IsDirectory w a ch (joined ch c p) d there refl
                  (inserted-live w ch.members p c (d.sound.members a ch there) here)
                  (c.client_id, p, inserted-member ch.members c.client_id p))
                (record { empty = h.empty }) here (rw same refl) in
            (
              v,
              bind-ok _ _ w c w (load_client-ok p w c here)
                  ∙ bind-ok _ _ w ch w (load_channel-ok a w ch there)
                  ∙ rw new (seq-ok _ _ w u refl ∙ run),
              done.server,
              λ q. done.channel_at q ∙ rw new refl,
            )
      ]

  -- Whether that client is the one that joins, and that name the one of the channel.
  abbrev pub this : Bytes → Client → Bytes → ℕ → Bool
  this l c n id = str_eq l n && c.client_id == id

  inserted-is_some :
      (t : g.ints.Table) (key p id : ℕ)
      → is_some (g.ints.lookup (g.ints.insert t key p) id)
        ≡ (is_some (g.ints.lookup t id) || key == id)
  inserted-is_some t key p id =
      ap is_some (g.ints.lookup-insert t key id p) ∙ elim (Bool-cases (key == id)) [
        | inl same ↦ rw same (or-true (is_some (g.ints.lookup t id)))
        | inr other ↦ rw other (or-false (is_some (g.ints.lookup t id)))
      ]

  -- Channels with two names are two channels.
  pub named-apart :
      (w : World) (a q : ℕ) (ch x : Channel) (l n : Bytes)
      → w.channel_at a ≡ some ch
      → w.channel_at q ≡ some x
      → ch.name ≡ l
      → x.name ≡ n
      → str_eq l n ≡ false
      → a == q ≡ false
  named-apart w a q ch x l n at_a at_q name name' other = elim (Bool-cases (a == q)) [
    | inl same ↦
        let e : ch ≡ x = some_inj.0 (sym at_a ∙ ap w.channel_at ((==_iff a q).0 same) ∙ at_q) in
        let equal : str_eq l n ≡ true =
          (str_eq_iff l n).1 (sym name ∙ ap (λ (y : Channel). y.name) e ∙ name') in
        absurd (cc (equal, other))
    | inr apart ↦ apart
  ]

  -- The members of a channel with one more member, under every short name.
  updated-member :
      (w : World) (a p : ℕ) (c : Client) (ch : Channel) (l : Bytes)
      → IsDirectory w
      → g.strings.lookup w.server.channels l ≡ some a
      → w.channel_at a ≡ some ch
      → ch.name ≡ l
      → (n : Bytes) (id : ℕ) → length n ≤ channel_name_max
      → in_at
          (update w.channel_at a (some (joined ch c p)))
          (g.strings.lookup w.server.channels n)
          id
        ≡ (member_of w n id || this l c n id)
  updated-member w a p c ch l d found there is_name n id short_name =
      elim (Bool-cases (str_eq l n)) [
        | inl same ↦
            let e : l ≡ n = (str_eq_iff l n).0 same in
            let here : g.strings.lookup w.server.channels n ≡ some a =
              ap (g.strings.lookup w.server.channels) (sym e) ∙ found in
            let at_a : a == a ≡ true = (==_iff a a).1 refl in
            rw (here, same, at_a)
              (inserted-is_some ch.members c.client_id p id
                ∙ ap (λ o. in_channel o id || c.client_id == id) (sym there))
        | inr other ↦ rw other (elim (Option-cases (g.strings.lookup w.server.channels n)) [
          | inl nowhere ↦ rw nowhere refl
          | inr (q, at_q) ↦
              let (x, there', name') = d.sound.named n q at_q short_name in
              let apart : a == q ≡ false =
                named-apart w a q ch x l n there there' is_name name' other in
              rw (at_q, apart) (or-false (in_channel (w.channel_at q) id))
        ])
      ]

  -- A member that joins again.
  unchanged-member :
      (w : World) (a : ℕ) (c : Client) (ch : Channel) (l n : Bytes) (id : ℕ)
      → g.strings.lookup w.server.channels l ≡ some a
      → w.channel_at a ≡ some ch
      → is_some (g.ints.lookup ch.members c.client_id) ≡ true
      → member_of w n id ≡ (member_of w n id || this l c n id)
  unchanged-member w a c ch l n id found there member =
      or-absorb (member_of w n id) (this l c n id) (λ both.
        let name : l ≡ n = (str_eq_iff l n).0 (ground arith) in
        let key : c.client_id ≡ id = (==_iff c.client_id id).0 (ground arith) in
        ap (λ o. in_at w.channel_at o id)
          (ap (g.strings.lookup w.server.channels) (sym name) ∙ found)
        ∙ ap (λ o. in_channel o id) there
        ∙ ap (λ i. is_some (g.ints.lookup ch.members i)) (sym key)
        ∙ member)

  joined-member :
      (w : World) (a p : ℕ) (c : Client) (ch : Channel) (l : Bytes)
      → IsDirectory w
      → g.strings.lookup w.server.channels l ≡ some a
      → w.channel_at a ≡ some ch
      → ch.name ≡ l
      → (n : Bytes) (id : ℕ) → length n ≤ channel_name_max
      → in_at (joined_at w a ch c p) (g.strings.lookup w.server.channels n) id
        ≡ (member_of w n id || this l c n id)
  joined-member w a p c ch l d found there is_name n id short_name =
      elim (Bool-cases (is_some (g.ints.lookup ch.members c.client_id))) [
        | inl member ↦ rw member (unchanged-member w a c ch l n id found there member)
        | inr new ↦ rw new (updated-member w a p c ch l d found there is_name n id short_name)
      ]

  -- A channel that is made has its maker for its only member.
  made-member :
      (w : World) (p : ℕ) (c : Client) (l : Bytes)
      → IsDirectory w
      → g.strings.lookup w.server.channels l ≡ none
      → (n : Bytes) (id : ℕ) → length n ≤ channel_name_max
      → in_at
          (update w.channel_at w.next_channel (some (new_channel c l p)))
          (g.strings.lookup (g.strings.insert w.server.channels l w.next_channel) n)
          id
        ≡ (member_of w n id || this l c n id)
  made-member w p c l d free n id short_name =
      ap (λ o. in_at (update w.channel_at w.next_channel (some (new_channel c l p))) o id)
        (g.strings.lookup-insert w.server.channels l n w.next_channel)
      ∙ elim (Bool-cases (str_eq l n)) [
        | inl same ↦
            let nowhere : g.strings.lookup w.server.channels n ≡ none =
              ap (g.strings.lookup w.server.channels) (sym ((str_eq_iff l n).0 same)) ∙ free in
            let at_new : w.next_channel == w.next_channel ≡ true =
              (==_iff _ w.next_channel).1 refl in
            rw (nowhere, same, at_new)
              (inserted-is_some g.ints.new c.client_id p id
                ∙ ap (λ o. is_some o || c.client_id == id) (g.ints.lookup-new id))
        | inr other ↦ rw other (elim (Option-cases (g.strings.lookup w.server.channels n)) [
          | inl nowhere ↦ rw nowhere refl
          | inr (q, at_q) ↦
              let (x, there, name) = d.sound.named n q at_q short_name in
              let low = d.sound.channels_below q x there in
              let apart : w.next_channel == q ≡ false = ground arith in
              rw (at_q, apart) (or-false (in_channel (w.channel_at q) id))
        ])
      ]

  -- Where the channels are as in every state that the server reaches and no response waits, a client
  -- that exists joins the channel of a name of at most 50 bytes: the operation returns the channel
  -- that the table then has under the name in lower case, and afterwards the client is a member of
  -- the channel of that name, while every other membership in a channel whose name has at most 50
  -- bytes is as before, whether the channel was there, had the client as a member, or is made.
  pub join_or_create-member_of :
      (w : World) (p : ℕ) (c : Client) (name : Bytes)
      → IsDirectory w
      → IsFlushed w
      → w.client_at p ≡ some c
      → length name ≤ channel_name_max
      → (a : ℕ) × (v : World) × (join_or_create p name w ≡ ok a v)
        × (g.strings.lookup v.server.channels (lower name) ≡ some a)
        × ((n : Bytes) (id : ℕ)
            → length n ≤ channel_name_max
            → member_of v n id ≡ (member_of w n id || (str_eq (lower name) n && c.client_id == id)))
  unfolding join_or_create maybe pure
  join_or_create-member_of w p c name d h here short_name =
      let l = lower name in
      let branch : Option ℕ → M ℕ = λ o.
        maybe o (server_create_channel l p) (λ channel. channel_join channel p >> pure channel) in
      elim (Option-cases (g.strings.lookup w.server.channels l)) [
        | inl free ↦
            let twice : lower l ≡ l = map-to_lower_idem name in
            let self : str_eq l l ≡ true = (str_eq_iff l l).1 refl in
            (
              w.next_channel,
              with_channel w c l p,
              bind-ok _ _ w _ w (get-ok w name)
                  ∙ ap (λ o. branch o w) free
                  ∙ create-ok w p c l here,
              rw twice
                  (g.strings.lookup-insert w.server.channels l l w.next_channel ∙ rw self refl),
              λ n id fits. rw twice (made-member w p c l d free n id fits),
            )
        | inr (a, found) ↦
            let (ch, there, is_name) =
              d.sound.named l a found (rw (length-lower name) short_name) in
            let (v, run, server, channels) = join-run w a p c ch d h here there in
            (
              a,
              v,
              bind-ok _ _ w _ w (get-ok w name) ∙ ap (λ o. branch o w) found ∙ seq-ok _ _ w v run,
              rw server found,
              λ n id fits.
                  in_at-same v.channel_at (joined_at w a ch c p)
                    (g.strings.lookup v.server.channels n) id channels
                  ∙ ap
                      (λ (s : Server).
                        in_at (joined_at w a ch c p) (g.strings.lookup s.channels n) id)
                      server
                  ∙ joined-member w a p c ch l d found there is_name n id fits,
            )
      ]
