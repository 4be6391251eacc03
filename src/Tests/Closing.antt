-- ===== src/Tests/Closing.antt =====
-- The theorems on a connection that its client has closed, at a concrete state.
use circ.Base.{
  ◌≡◌, ◌≤◌, ◌+◌, ◌%◌, ◌^◌, ◌∷◌, [], ◌++◌, refl, sym, some_inj, true, false, none, some, Bytes,
  codes, arith, length,
}
use circ.Base.Int.{pos}
use circ.Channel.Delivery.{whole}
use circ.Client.{server_accept, client_try_change_nick}
use circ.Closing.{
  IsDone, in_use, client_handle_read-closed_nickname, client_handle_read-closed_told,
}
use circ.HandleRead.{client_handle_read}
use circ.Handlers.Talk.{names_channel}
use circ.Irc.{nick_max_size, irc_msg_size}
use circ.Msgtok.Line.{Last, IsMiddle}
use circ.Relaying.Reading.{sent_line}
use circ.Replies.Channels.{message_privmsg}
use circ.Serving.{Fits, initial, Step, Reaches}
use circ.Tests.Program.{program}
use circ.Tests.Tables.{lists}
use circ.Tests.States.{state_after, beginning, named, named_reached, client_of}
use circ.World.{Client, World, ok}

abbrev user_line : Bytes
user_line = codes "USER b * * :B\r\n"

-- The client with the nickname is registered, and there is a second one.
abbrev greeted : World
greeted = state_after (client_handle_read 1 (some user_line) named)

abbrev pair : World
pair = state_after (server_accept 8 (codes "h2") true greeted)

user_line-Fits : Fits named 1 (some user_line)
unfolding program initial
user_line-Fits c here bytes e =
    let mine : client_of named 1 ≡ c = some_inj.0 here in
    let line : user_line ≡ bytes = some_inj.0 e in rw (sym mine, sym line) (omega arith)

pair_reached : Reaches beginning pair
unfolding program initial
pair_reached =
    Reaches.next
      (Reaches.next named_reached
        (Step.reads 1 (some user_line) (pos 0) greeted user_line-Fits refl))
      (Step.accepts 8 (codes "h2") true 2 pair refl)

abbrev ben : Client
ben = client_of pair 1

abbrev ann : Client
ann = client_of pair 2

ben-IsDone : IsDone pair 1 ben
unfolding program initial
ben-IsDone = record { here = refl; registered = refl; received_nick = refl; total_read = refl }

ann_there : pair.client_at 2 ≡ some ann
unfolding program initial
ann_there = refl

ann_silent : (ann.conn.total_read ≡ 0) × (ann.conn.discard_next ≡ false)
unfolding program initial
ann_silent = (refl, refl)

short_names : (length ben.nickname ≤ nick_max_size) × (length ann.nickname ≤ nick_max_size)
unfolding program initial
short_names = (omega arith, omega arith)

client_handle_read-closed_nickname_example :
    (v : World) × (client_handle_read 1 (some []) pair ≡ ok (pos 1) v)
    × (v.closed ≡ pair.closed ++ (ben.conn.fd ∷ []))
    × ((v.server.n_users + 1) % 2 ^ 32 ≡ pair.server.n_users % 2 ^ 32)
    × (client_try_change_nick 2 ben.nickname v
        ≡ ok
            (some (record {
              response = in_use ann ben.nickname;
              len = length (in_use ann ben.nickname);
            }))
            v)
client_handle_read-closed_nickname_example =
    client_handle_read-closed_nickname (codes "irc.host") none pair_reached 1 2 ben ann ben-IsDone
      refl ann_there short_names.0 short_names.1

abbrev hi : Last
hi = Last.trailing (codes "hi there")

ben_present : ben.away ≡ false
unfolding program initial
ben_present = refl

ben-IsMiddle : IsMiddle ben.nickname
unfolding program initial
ben-IsMiddle = record { middle = (refl, (refl, (refl, tt))); filled = omega arith; no_colon = refl }

ben_person : names_channel ben.nickname ≡ false
unfolding program initial
ben_person = refl

hi_fits : length (message_privmsg ann ben.nickname (codes "hi there")).text ≤ irc_msg_size
unfolding program initial
hi_fits = omega arith

client_handle_read-closed_told_example :
    (v : World) × (u : World) × (client_handle_read 1 (some []) pair ≡ ok (pos 1) v)
    × (v.closed ≡ pair.closed ++ (ben.conn.fd ∷ []))
    × (client_handle_read 2 (some (sent_line ben.nickname hi)) v ≡ ok (pos 0) u)
    × (u.sent
        ≡ pair.sent
          ++ ((ben.conn.fd, whole (message_privmsg ann ben.nickname (codes "hi there"))) ∷ []))
client_handle_read-closed_told_example =
    client_handle_read-closed_told (codes "irc.host") none pair_reached 1 2 ben ann hi ben-IsDone
      ben_present refl ann_there ann_silent.0 ann_silent.1 ben-IsMiddle
      (refl, (refl, (refl, (refl, (refl, (refl, (refl, (refl, tt)))))))) ben_person hi_fits
