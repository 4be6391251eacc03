-- ===== src/Tests/Delivery.antt =====
-- The theorems on messages, at concrete states.
use circ.Base.{◌≡◌, ◌≤◌, refl, none, some, codes, arith, length}
use circ.Base.{some_inj, sym, true, false, Bytes, ◌++◌}
use circ.Base.Int.{pos}
use circ.Client.{server_accept}
use circ.HandleRead.{client_handle_read}
use circ.Msgtok.Line.{Last, IsMiddle}
use circ.Relaying.Nicknames.{told, client_handle_read-tells}
use circ.Relaying.Reading.{sent_line}
use circ.Serving.{Fits, Step, Reaches}
use circ.Tests.States.{state_after, beginning}
use circ.Channel.{channel_send_message}
use circ.Channel.Delivery.{channel_send_message-IsDelivered, deliveries, AllReady}
use circ.Glib.{Response}
use circ.Irc.{irc_msg_size}
use circ.Replies.Channels.{message_privmsg, rpl_away}
use circ.Sending.Delivery.{IsDelivered}
use circ.Serving.{initial}
use circ.Tests.Program.{program}
use circ.Tests.States.{named, named_reached, client_of, in_room, room, room_there}
use circ.Tests.Tables.{lists}
use circ.World.{Client, World, ok}

-- A second client; the first is away.
abbrev two : World
two = state_after (server_accept 8 (codes "h2") true named)

abbrev away_line : Bytes
away_line = codes "AWAY :at lunch\r\n"

abbrev gone : World
gone = state_after (client_handle_read 1 (some away_line) two)

away_line-Fits : Fits two 1 (some away_line)
unfolding program initial
away_line-Fits c here bytes e =
    let mine : client_of two 1 ≡ c = some_inj.0 here in
    let line : away_line ≡ bytes = some_inj.0 e in rw (sym mine, sym line) (omega arith)

gone_reached : Reaches beginning gone
unfolding program initial
gone_reached =
    Reaches.next (Reaches.next named_reached (Step.accepts 8 (codes "h2") true 2 two refl))
      (Step.reads 1 (some away_line) (pos 0) gone away_line-Fits refl)

is_away : (client_of gone 1).away ≡ true
unfolding program initial
is_away = refl

abbrev ann : Client
ann = client_of gone 2

ann_there : gone.client_at 2 ≡ some ann
unfolding program initial
ann_there = refl

ann_silent : (ann.conn.total_read ≡ 0) × (ann.conn.discard_next ≡ false)
unfolding program initial
ann_silent = (refl, refl)

abbrev ben : Client
ben = client_of gone 1

ben_there :
    (gone.client_at 1 ≡ some ben) × (ben.nickname ≡ codes "ben") × (ben.received_nick ≡ true)
unfolding program initial
ben_there = (refl, refl, refl)

abbrev hi : Last
hi = Last.trailing (codes "hi there")

hi_fits : length (message_privmsg ann (codes "ben") (codes "hi there")).text ≤ irc_msg_size
unfolding program initial
hi_fits = omega arith

away_fits :
    ben.away ≡ true
    → length (rpl_away ann gone.server ben.nickname ben.away_message).text ≤ irc_msg_size
unfolding program initial
away_fits away = omega arith

ben-IsMiddle : IsMiddle (codes "ben")
ben-IsMiddle = record { middle = (refl, (refl, (refl, tt))); filled = omega arith; no_colon = refl }

client_handle_read-tells_example :
    (v : World) × (client_handle_read 2 (some (sent_line (codes "ben") hi)) gone ≡ ok (pos 0) v)
    × (v.sent ≡ gone.sent ++ told gone.server ann ben (codes "ben") (codes "hi there"))
client_handle_read-tells_example =
    client_handle_read-tells (codes "irc.host") none gone_reached 2 1 ann ben (codes "ben") hi
      ann_there ann_silent.0 ann_silent.1 ben-IsMiddle
      (refl, (refl, (refl, (refl, (refl, (refl, (refl, (refl, tt)))))))) refl ben_there.0
      ben_there.1 ben_there.2 hi_fits away_fits

abbrev hello : Response
hello = record { response = codes "hello\r\n"; len = 7 }

room_ready : AllReady in_room (pos 5) (lists.ints.entries room.members)
unfolding program initial
room_ready = (λ other. record { client = client_of named 1; here = refl; empty = refl }, tt)

channel_send_message-IsDelivered_example :
    (v : World) × (channel_send_message 1 hello (pos 5) in_room ≡ ok tt v)
    × IsDelivered in_room (deliveries in_room hello (pos 5) (lists.ints.entries room.members)) v
channel_send_message-IsDelivered_example =
    channel_send_message-IsDelivered in_room 1 room hello (pos 5) room_there room_ready
