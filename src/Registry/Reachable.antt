-- ===== src/Registry/Reachable.antt =====
-- The registry in every state that the events of src/client.c lead to.
use circ.Base.{ℕ, ◌≡◌, sym, ap, ◌∙◌, true, Option, some, some_inj, arith, none_absurd, Bytes}
use circ.Glib.{Glib}
use circ.Registry.{who, IsRegistry}
use circ.Registry.Arrivals.{Keeps-server_accept}
use circ.Registry.Reading.{Keeps-read}
use circ.Serving.{initial, Step, Reaches}
use circ.World.{World}
use circ.World.Keeps.{Then-ok}

module _ ⦃g : Glib⦄ where
  initial-IsRegistry : (hostname : Bytes) (motd : Option Bytes) → IsRegistry (initial hostname motd)
  unfolding initial
  initial-IsRegistry hostname motd = record {
    known = λ n id h. none_absurd (sym (g.strings.lookup-new n) ∙ h);
    listed = λ p id n h. none_absurd h;
    enrolled = λ p id n b h. none_absurd h;
    counting = ground arith;
  }

  Step-IsRegistry : {w v : World} → Step w v → IsRegistry w → IsRegistry v
  Step-IsRegistry {w} (Step.accepts fd hostname watched client v e) r =
      Then-ok IsRegistry e ((Keeps-server_accept fd hostname watched).at w r)
  Step-IsRegistry {w} (Step.reads client input result v fits e) r =
      Then-ok IsRegistry e ((Keeps-read client input).at w r)

  -- In every state that the server reaches from its start by accepting clients and by reads that
  -- deliver no more bytes than they are asked for, whatever these are: a nickname in the table of nicknames is the id of exactly the
  -- client that bears it, every client with a nickname is in the table under it, and every client
  -- is in the table of clients under its own positive id, which is lower than the next id.
  pub reachable-IsRegistry :
      (hostname : Bytes) (motd : Option Bytes) {w : World}
      → Reaches (initial hostname motd) w
      → IsRegistry w
  reachable-IsRegistry hostname motd Reaches.start = initial-IsRegistry hostname motd
  reachable-IsRegistry hostname motd (Reaches.next before step) =
      Step-IsRegistry step (reachable-IsRegistry hostname motd before)

  -- In every state that the server reaches from its start, two clients that have the same nickname
  -- are the same client.
  pub one_client_per_nickname :
      (hostname : Bytes) (motd : Option Bytes) {w : World}
      → Reaches (initial hostname motd) w
      → (p q i j : ℕ) (nick : Bytes) → who w p ≡ some (i, nick, true)
      → who w q ≡ some (j, nick, true)
      → p ≡ q
  one_client_per_nickname hostname motd {w} reach p q i j nick at_p at_q =
      let r = reachable-IsRegistry hostname motd reach in
      let same : i ≡ j = some_inj.0 (sym (r.listed p i nick at_p) ∙ r.listed q j nick at_q) in
      some_inj.0 (
        sym (r.enrolled p i nick true at_p).0
        ∙ ap (g.ints.lookup w.server.clients) same
        ∙ (r.enrolled q j nick true at_q).0)
