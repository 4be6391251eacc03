-- ===== src/Tests/Rooms.antt =====
-- The theorems on channels, at concrete states.
use circ.Base.{
  ◌≡◌, ◌≤◌, ◌++◌, refl, sym, some_inj, true, false, none, some, Bytes, codes, arith, length,
}
use circ.Base.Int.{pos}
use circ.Channel.Delivery.{whole, deliveries}
use circ.Client.{server_accept}
use circ.Directory.{IsDirectory}
use circ.Directory.Reachable.{reachable-IsDirectory}
use circ.Flushing.{IsFlushed}
use circ.Flushing.Reachable.{reachable-IsFlushed}
use circ.HandleRead.{client_handle_read}
use circ.Msgtok.Line.{Last, IsMiddle}
use circ.Relaying.Reading.{sent_line}
use circ.Relaying.Rooms.{client_handle_read-relays}
use circ.Replies.Channels.{message_privmsg}
use circ.Serving.{Fits, initial, Step, Reaches}
use circ.Tests.Program.{program}
use circ.Tests.States.{state_after, beginning, named, named_reached, client_of}
use circ.Tests.Tables.{lists}
use circ.World.{Client, Channel, World, ok}
use circ.Base.{ℕ, ◌&&◌, ◌||◌, ◌==◌, not, replicate, str_eq}
use circ.Channel.{channel_name_max}
use circ.Handlers.Basic.{done}
use circ.Handlers.Rooms.{join_or_create, part_leave}
use circ.Membership.{member_of}
use circ.Membership.Dangling.{server_remove_channel-dangles}
use circ.Membership.Joining.{join_or_create-member_of}
use circ.Membership.Parting.{part_leave-member_of}
use circ.Server.{lower, server_create_channel, server_remove_channel}
use circ.Tests.States.{named_here}
use circ.World.{crash, ◌>>=◌}

-- A second client, and both in the channel `#c`.
abbrev two : World
two = state_after (server_accept 8 (codes "h2") true named)

abbrev join : Bytes
join = codes "JOIN #c\r\n"

abbrev one_joined : World
one_joined = state_after (client_handle_read 1 (some join) two)

abbrev both_joined : World
both_joined = state_after (client_handle_read 2 (some join) one_joined)

first-Fits : Fits two 1 (some join)
unfolding program initial
first-Fits c here bytes e =
    let mine : client_of two 1 ≡ c = some_inj.0 here in
    let line : join ≡ bytes = some_inj.0 e in rw (sym mine, sym line) (omega arith)

second-Fits : Fits one_joined 2 (some join)
unfolding program initial
second-Fits c here bytes e =
    let mine : client_of one_joined 2 ≡ c = some_inj.0 here in
    let line : join ≡ bytes = some_inj.0 e in rw (sym mine, sym line) (omega arith)

joined_reached : Reaches beginning both_joined
unfolding program initial
joined_reached =
    Reaches.next
      (Reaches.next (Reaches.next named_reached (Step.accepts 8 (codes "h2") true 2 two refl))
        (Step.reads 1 (some join) (pos 0) one_joined first-Fits refl))
      (Step.reads 2 (some join) (pos 0) both_joined second-Fits refl)

reachable-IsFlushed_example : IsFlushed both_joined
reachable-IsFlushed_example = reachable-IsFlushed (codes "irc.host") none joined_reached

reachable-IsDirectory_example : IsDirectory both_joined
reachable-IsDirectory_example = reachable-IsDirectory (codes "irc.host") none joined_reached

abbrev ben : Client
ben = client_of both_joined 1

ben_there : both_joined.client_at 1 ≡ some ben
unfolding program initial
ben_there = refl

ben_silent : (ben.conn.total_read ≡ 0) × (ben.conn.discard_next ≡ false)
unfolding program initial
ben_silent = (refl, refl)

room_found : lists.strings.lookup both_joined.server.channels (codes "#c") ≡ some 1
unfolding program initial
room_found = refl

abbrev hi : Last
hi = Last.trailing (codes "hi there")

hi_fits : length (message_privmsg ben (codes "#c") (codes "hi there")).text ≤ 512
unfolding program initial
hi_fits = omega arith

room-IsMiddle : IsMiddle (codes "#c")
room-IsMiddle = record { middle = (refl, (refl, tt)); filled = omega arith; no_colon = refl }

client_handle_read-relays_example :
    (ch : Channel) × (v : World) × (both_joined.channel_at 1 ≡ some ch)
    × (client_handle_read 1 (some (sent_line (codes "#c") hi)) both_joined ≡ ok (pos 0) v)
    × (v.sent
        ≡ both_joined.sent
          ++ deliveries both_joined
              (whole (message_privmsg ben (codes "#c") (codes "hi there")))
              (pos ben.client_id)
              (lists.ints.entries ch.members))
client_handle_read-relays_example =
    client_handle_read-relays (codes "irc.host") none joined_reached 1 1 ben (codes "#c") hi
      ben_there ben_silent.0 ben_silent.1 room-IsMiddle
      (refl, (refl, (refl, (refl, (refl, (refl, (refl, (refl, tt)))))))) refl (omega arith)
      room_found hi_fits

abbrev ann : Client
ann = client_of one_joined 2

one_joined_reached : Reaches beginning one_joined
unfolding program initial
one_joined_reached =
    Reaches.next (Reaches.next named_reached (Step.accepts 8 (codes "h2") true 2 two refl))
      (Step.reads 1 (some join) (pos 0) one_joined first-Fits refl)

ann_there : one_joined.client_at 2 ≡ some ann
unfolding program initial
ann_there = refl

join_or_create-member_of_example :
    (a : ℕ) × (v : World) × (join_or_create 2 (codes "#C") one_joined ≡ ok a v)
    × (lists.strings.lookup v.server.channels (lower (codes "#C")) ≡ some a)
    × ((n : Bytes) (id : ℕ)
        → length n ≤ channel_name_max
        → member_of v n id
          ≡ (member_of one_joined n id || (str_eq (lower (codes "#C")) n && ann.client_id == id)))
join_or_create-member_of_example =
    join_or_create-member_of one_joined 2 ann (codes "#C")
      (reachable-IsDirectory (codes "irc.host") none one_joined_reached)
      (reachable-IsFlushed (codes "irc.host") none one_joined_reached) ann_there (omega arith)

part_leave-member_of_example :
    (v : World) × (part_leave 1 1 none both_joined ≡ ok done v)
    × ((n : Bytes) (id : ℕ)
        → length n ≤ channel_name_max
        → member_of v n id
          ≡ (member_of both_joined n id && not (str_eq (codes "#c") n && ben.client_id == id)))
part_leave-member_of_example =
    part_leave-member_of both_joined 1 1 ben (codes "#c") none
      (reachable-IsDirectory (codes "irc.host") none joined_reached)
      (reachable-IsFlushed (codes "irc.host") none joined_reached) ben_there (omega arith)
      room_found

-- A name of 60 bytes.
abbrev long_name : Bytes
long_name = replicate 60 b'#'

server_remove_channel-dangles_example :
    (v : World) × ((server_create_channel long_name 1 >>= server_remove_channel) named ≡ ok tt v)
    × (lists.strings.lookup v.server.channels (lower long_name) ≡ some named.next_channel)
    × (v.channel_at named.next_channel ≡ none)
    × (join_or_create 1 long_name v ≡ crash)
server_remove_channel-dangles_example =
    server_remove_channel-dangles named 1 (client_of named 1) long_name named_here (omega arith)
