-- ===== src/Directory/Leaving.antt =====
-- A member that leaves, and a channel that is removed with its last member, in `handler_part` of
-- src/handlers.c.
use circ.Base.{
  ℕ, ◌≡◌, refl, sym, ap, ◌∙◌, inl, inr, true, false, Option, none, some, some_inj, none_absurd,
  Bytes, List, [], ◌∷◌, length, str_eq, str_eq_iff, Bool-cases, Option-cases, ◌==◌, ==_iff,
  if◌then◌else◌, arith,
}
use circ.Base.Int.{ℤ}
use circ.Channel.{channel_remove_member, channel_size}
use circ.Channel.Members.{without}
use circ.Directory.{id_at, IsDirectory, IsLeft}
use circ.Directory.Making.{stored-IsSound}
use circ.Directory.Writes.{sending_writes}
use circ.Frame.Forward.{Keeps-channel_sendall_part}
use circ.Frame.Quiet.{Keeps-client_send}
use circ.Glib.{Glib, find_entry}
use circ.Handlers.Basic.{done}
use circ.Handlers.Rooms.{part_leave}
use circ.Server.{server_remove_channel}
use circ.World.{
  Channel, World, ok, crash, M, ◌>>=◌, ◌>>◌, pure, modify_server, store_channel, update,
}
use circ.World.Keeps.{Keeps, Then-load_client, Keeps-pure, Keeps-seq}
use circ.World.Runs.{bind-ok, bind-crash, load_channel-ok, load_channel-crash}
use circ.World.Leads.{Leads, Leads-seq, Keeps-Leads, Then-load_channel}

module _ ⦃g : Glib⦄ where
  -- A table with entries has a value for a key.
  first_member :
      (t : g.ints.Table) (l : List (ℕ × ℕ))
      → g.ints.entries t ≡ l
      → length l == 0 ≡ false
      → (id : ℕ) × (q : ℕ) × (g.ints.lookup t id ≡ some q)
  first_member t [] e some_left = ground arith
  first_member t ((id, q) ∷ l) e some_left =
      let same : id == id ≡ true = (==_iff id id).1 refl in
      (id, q, sym (g.ints.find-entries t id) ∙ ap (find_entry ◌==◌ id) e ∙ rw same refl)

  remaining :
      (w : World) (t : g.ints.Table) (key : ℕ)
      → ((id q : ℕ) → g.ints.lookup t id ≡ some q → id_at w q ≡ some id)
      → (id q : ℕ) → g.ints.lookup (g.ints.remove t key) id ≡ some q
      → id_at w q ≡ some id
  remaining w t key live id q found0 =
      let found = sym (g.ints.lookup-remove t key id) ∙ found0 in
      elim (Bool-cases (key == id)) [
        | inl same ↦ none_absurd (rw same at found)
        | inr other ↦ live id q (rw other at found)
      ]

  remove_member-Leads :
      (channel client : ℕ)
      → Leads IsDirectory (IsLeft channel) (channel_remove_member channel client)
  unfolding channel_remove_member store_channel
  remove_member-Leads channel client = record {
    at = λ w h. Then-load_client (IsLeft channel) w client _ (λ c here.
        Then-load_channel (IsLeft channel) w channel _ (λ ch there. record {
          sound =
              stored-IsSound w channel ch (without ch c) h.sound there refl
                (remaining w ch.members c.client_id (h.sound.members channel ch there));
          inhabited = λ q x apart at_q. h.inhabited q x (rw apart at at_q);
        }));
  }

  -- The state without the channel.
  freed-IsDirectory :
      (w : World) (p : ℕ) (ch : Channel)
      → IsLeft p w
      → w.channel_at p ≡ some ch
      → IsDirectory (record w {
        server = record (w.server) { channels = g.strings.remove w.server.channels ch.name };
        channel_at = update w.channel_at p none;
      })
  freed-IsDirectory w p ch h there = record {
    sound = record {
      members = λ q x at_q. elim (Bool-cases (p == q)) [
        | inl this ↦ none_absurd (rw this at at_q)
        | inr other ↦ h.sound.members q x (rw other at at_q)
      ];
      named = λ n q found0 short.
          let (old, not_removed) = kept n q found0 in
          let (x, at_q, is_name) = h.sound.named n q old short in
          elim (Bool-cases (p == q)) [
            | inl this ↦
                let e : ch ≡ x =
                  some_inj.0 (sym there ∙ ap w.channel_at ((==_iff p q).0 this) ∙ at_q) in
                let same : str_eq ch.name n ≡ true =
                  (str_eq_iff ch.name n).1 (ap (λ (y : Channel). y.name) e ∙ is_name) in
                absurd (cc (same, not_removed))
            | inr other ↦ (x, rw other at_q, is_name)
          ];
      lowered = λ n q found. h.sound.lowered n q (kept n q found).0;
      channels_below = λ q x at_q. elim (Bool-cases (p == q)) [
        | inl this ↦ none_absurd (rw this at at_q)
        | inr other ↦ h.sound.channels_below q x (rw other at at_q)
      ];
      clients_below = h.sound.clients_below;
    };
    inhabited = λ q x at_q. elim (Bool-cases (p == q)) [
      | inl this ↦ none_absurd (rw this at at_q)
      | inr other ↦ h.inhabited q x other (rw other at at_q)
    ];
  }
    where
      kept :
          (n : Bytes) (q : ℕ)
          → g.strings.lookup (g.strings.remove w.server.channels ch.name) n ≡ some q
          → (g.strings.lookup w.server.channels n ≡ some q) × (str_eq ch.name n ≡ false)
      kept n q found0 =
          let found = sym (g.strings.lookup-remove w.server.channels ch.name n) ∙ found0 in
          elim (Bool-cases (str_eq ch.name n)) [
            | inl same ↦ none_absurd (rw same at found)
            | inr other ↦ (rw other at found, other)
          ]

  remove_channel-Leads :
      (channel : ℕ) → Leads (IsLeft channel) IsDirectory (server_remove_channel channel)
  unfolding server_remove_channel modify_server store_channel ◌>>◌ ◌>>=◌
  remove_channel-Leads channel = record {
    at = λ w h.
        Then-load_channel IsDirectory w channel _
          (λ ch there. freed-IsDirectory w channel ch h there);
  }

  -- A channel that still has members is as it should be.
  left-IsDirectory :
      (w : World) (p : ℕ) (ch : Channel)
      → IsLeft p w
      → w.channel_at p ≡ some ch
      → length (g.ints.entries ch.members) == 0 ≡ false
      → IsDirectory w
  left-IsDirectory w p ch h there some_left = record {
    sound = h.sound;
    inhabited = λ q x at_q. elim (Bool-cases (p == q)) [
      | inl this ↦
          let e : ch ≡ x = some_inj.0 (sym there ∙ ap w.channel_at ((==_iff p q).0 this) ∙ at_q) in
          rw (sym e) (first_member ch.members (g.ints.entries ch.members) refl some_left)
      | inr other ↦ h.inhabited q x other at_q
    ];
  }

  abbrev if_empty : ℕ → ℕ → M ℤ
  if_empty channel size =
      (if size == 0 then server_remove_channel channel else pure tt) >> pure done

  pub size-ok :
      (w : World) (channel : ℕ) (ch : Channel)
      → w.channel_at channel ≡ some ch
      → channel_size channel w ≡ ok (length (g.ints.entries ch.members)) w
  unfolding channel_size pure
  size-ok w channel ch there = bind-ok _ _ w ch w (load_channel-ok channel w ch there)

  size-crash :
      (w : World) (channel : ℕ) → w.channel_at channel ≡ none → channel_size channel w ≡ crash
  unfolding channel_size
  size-crash w channel gone = load_channel-crash channel _ w gone

  size-Leads :
      (channel : ℕ) → Leads (IsLeft channel) IsDirectory (channel_size channel >>= if_empty channel)
  size-Leads channel = record {
    at = λ w h. elim (Option-cases (w.channel_at channel)) [
      | inl gone ↦ rw (bind-crash _ (if_empty channel) w (size-crash w channel gone)) tt
      | inr (ch, there) ↦
          let n = length (g.ints.entries ch.members) in
          rw (bind-ok _ (if_empty channel) w n w (size-ok w channel ch there))
            (elim (Bool-cases (n == 0)) [
              | inl nobody ↦ rw nobody (
                  (Leads-seq _ _ (remove_channel-Leads channel)
                      (Keeps-Leads _ (Keeps-pure done) (λ v k. k))).at
                    w h)
              | inr some_left ↦ rw some_left (
                  (Keeps-seq _ _ (Keeps-pure tt) (Keeps-pure done)).at w
                    (left-IsDirectory w channel ch h there some_left))
            ])
    ];
  }

  pub Keeps-part_leave :
      (client channel : ℕ) (text : Option Bytes)
      → Keeps IsDirectory (part_leave client channel text)
  unfolding part_leave
  Keeps-part_leave client channel text = record {
    at =
        (Leads-seq _ _
          (Keeps-Leads _
            (Keeps-channel_sendall_part (Keeps-client_send sending_writes) channel client text)
            (λ w h. h))
          (Leads-seq _ _ (remove_member-Leads channel client) (size-Leads channel))).at;
  }
