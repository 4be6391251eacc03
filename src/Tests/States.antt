-- ===== src/Tests/States.antt =====
-- The theorems on states, at concrete states.
use circ.Base.{ℕ, ◌+◌, ◌≡◌, refl, sym, some_inj, true, none, some, [], codes, arith}
use circ.Base.Int.{pos}
use circ.Client.{server_accept}
use circ.HandleRead.{client_handle_read, read_and_handle}
use circ.Buffers.{IsStore}
use circ.Buffers.Reachable.{reachable-IsStore, read_and_handle-rounds}
use circ.Registry.{who, IsRegistry}
use circ.Registry.Reachable.{reachable-IsRegistry, one_client_per_nickname}
use circ.Serving.{Fits, initial, Step, Reaches}
use circ.Tests.Program.{program}
use circ.Tests.Tables.{lists}
use circ.World.{World, Run, ok, crash}
use circ.Client.Nicknames.{client_try_change_nick-free}
use circ.Client.Registration.{client_try_register_lem, welcome, registered}
use circ.Client.{new_client, client_try_change_nick, client_try_register}
use circ.Sending.{enqueue, client_try_empty_buffer}
use circ.Sending.Draining.{IsDrained, client_try_empty_buffer-IsDrained}
use circ.Server.{server_create_channel}
use circ.Server.Names.{new_channel}
use circ.Base.{Bytes, length, not, str_eq, if◌then◌else◌, ◌&&◌}
use circ.Glib.{Response}
use circ.World.{Client}
use circ.Base.{ℕ}
use circ.World.{Channel}

-- The server after a client has connected and named itself.
abbrev pub state_after : {A : Type 0} → Run A → World
state_after (ok a w) = w
state_after crash = initial [] none

abbrev pub beginning : World
beginning = initial (codes "irc.host") none

abbrev connected : World
connected = state_after (server_accept 7 (codes "h1") true beginning)

abbrev pub named : World
named = state_after (client_handle_read 1 (some (codes "NICK ben\r\n")) connected)

nick-Fits : Fits connected 1 (some (codes "NICK ben\r\n"))
unfolding program initial
nick-Fits c here bytes e =
    let mine : new_client 7 1 (codes "h1") ≡ c = some_inj.0 here in
    let line : codes "NICK ben\r\n" ≡ bytes = some_inj.0 e in rw (sym mine, sym line) (omega arith)

pub named_reached : Reaches beginning named
unfolding program initial
named_reached =
    Reaches.next (Reaches.next Reaches.start (Step.accepts 7 (codes "h1") true 1 connected refl))
      (Step.reads 1 (some (codes "NICK ben\r\n")) (pos 0) named nick-Fits refl)

reachable-IsRegistry_example : IsRegistry named
reachable-IsRegistry_example = reachable-IsRegistry (codes "irc.host") none named_reached

reachable-IsStore_example : IsStore (new_client 7 1 (codes "h1")).conn
unfolding program initial
reachable-IsStore_example =
    reachable-IsStore (codes "irc.host") none
      (Reaches.next Reaches.start (Step.accepts 7 (codes "h1") true 1 connected refl)) 1
      (new_client 7 1 (codes "h1")) refl

read_and_handle-rounds_example :
    read_and_handle 300 1 (some (codes "NICK ben\r\n")) connected
    ≡ client_handle_read 1 (some (codes "NICK ben\r\n")) connected
unfolding program initial
read_and_handle-rounds_example =
    read_and_handle-rounds (codes "irc.host") none
      (Reaches.next Reaches.start (Step.accepts 7 (codes "h1") true 1 connected refl)) 42 1
      (some (codes "NICK ben\r\n")) nick-Fits

pub named-who : who named 1 ≡ some (1, codes "ben", true)
unfolding program initial
named-who = refl

one_client_per_nickname_example : ◌≡◌ {A = ℕ} 1 1
one_client_per_nickname_example =
    one_client_per_nickname (codes "irc.host") none named_reached 1 1 1 1 (codes "ben") named-who
      named-who

-- The struct at an address.
abbrev pub client_of : World → ℕ → Client
client_of w p = elim (w.client_at p) [ none ↦ new_client 0 0 [] | some c ↦ c ]

abbrev hello : Response
hello = record { response = codes "hello"; len = 5 }

-- The server with one response in the queue of its client.
abbrev waiting : World
waiting = state_after (enqueue 1 hello connected)

waiting_here : waiting.client_at 1 ≡ some (client_of waiting 1)
unfolding program initial
waiting_here = refl

client_try_empty_buffer-IsDrained_example :
    (v : World) × (client_try_empty_buffer 1 waiting ≡ ok tt v)
    × IsDrained waiting 1
        (client_of waiting 1)
        (lists.queues.elements (client_of waiting 1).responses)
        v
client_try_empty_buffer-IsDrained_example =
    client_try_empty_buffer-IsDrained waiting 1 (client_of waiting 1) waiting_here

pub named_here : named.client_at 1 ≡ some (client_of named 1)
unfolding program initial
named_here = refl

ann_free : lists.strings.lookup named.server.nicks (codes "ann") ≡ none
unfolding program initial
ann_free = refl

client_try_change_nick-free_example :
    (v : World) × (client_try_change_nick 1 (codes "ann") named ≡ ok none v)
    × (v.client_at 1
        ≡ some (record (client_of named 1) { nickname = codes "ann"; received_nick = true }))
    × ((n : Bytes)
        → lists.strings.lookup v.server.nicks n ≡ (
            if str_eq (codes "ann") n
            then some (client_of named 1).client_id
            else if (client_of named 1).received_nick && str_eq (client_of named 1).nickname n
            then none
            else lists.strings.lookup named.server.nicks n))
client_try_change_nick-free_example =
    client_try_change_nick-free named 1 (client_of named 1) (codes "ann") named_here ann_free
      (ground arith)

-- The client has sent NICK and no USER.
named_lengths :
    (length (client_of named 1).nickname ≡ 3)
    × (length (client_of named 1).username + length (client_of named 1).hostname ≡ 2)
unfolding program initial
named_lengths = (refl, refl)

client_try_register_lem_example :
    let c = client_of named 1 in
    client_try_register 1 named ≡ (
      if not c.registered && c.received_user && c.received_nick
      then ok (some (welcome c)) (registered named 1 c)
      else ok none named)
client_try_register_lem_example =
    client_try_register_lem named 1 (client_of named 1) named_here
      (rw named_lengths.0 (ground arith)) (rw named_lengths.1 (ground arith))

-- The server with the channel `#c`, which the client has made.
abbrev pub in_room : World
in_room = state_after (server_create_channel (codes "#c") 1 named)

abbrev pub room : Channel
room = new_channel (client_of named 1) (codes "#c") 1

pub room_there : in_room.channel_at 1 ≡ some room
unfolding program initial
room_there = refl

in_room_here : in_room.client_at 1 ≡ some (client_of named 1)
unfolding program initial
in_room_here = refl
