-- ===== src/Tests/Session.antt =====
-- Sessions of clients with the server, run on the list tables.
use circ.Base.{ℕ, ◌≡◌, refl, true, Option, none, some, List, [], ◌∷◌, Bytes, codes, map, drop}
use circ.Base.Int.{ℤ}
use mathlib.Core.Option
use circ.Client.{server_accept}
use circ.HandleRead.{client_handle_read}
use circ.Server.{start_server}
use circ.Tests.Tables.{lists}
use circ.Tests.Program.{program}
use circ.World.{World, Run, ok, crash, M, ◌>>=◌}

abbrev empty_world : World
empty_world = record {
  server = start_server (codes "irc.host") none;
  client_at = λ p. none;
  next_client = 1;
  channel_at = λ p. none;
  next_channel = 1;
  sent = [];
  closed = [];
}

-- What has been written to each socket.
abbrev texts : Run ℤ → Option (List (ℕ × Bytes))
texts crash = none
texts (ok _ w) = some (map (λ e. (e.0, e.1.response)) w.sent)

abbrev feed : ℕ → Bytes → M ℤ
feed client input = client_handle_read client (some input)

abbrev hello : Run ℤ
hello =
    (do a ← server_accept 7 (codes "h1") true; feed a (codes "NICK ben\r\nUSER b * * :Ben B\r\n"))
      empty_world

hello_sends :
    texts hello
    ≡ some ((7, codes "001 ben :Welcome to the Internet Relay Network ben!b@h1\r\n") ∷ [])
unfolding program
hello_sends = refl

-- Two clients, 1 and 2, that are registered as `ben` and `ann`.
abbrev two_clients : M ℤ
two_clients = do
  a ← server_accept 7 (codes "h1") true
  b ← server_accept 8 (codes "h2") true
  r ← feed a (codes "NICK ben\r\nUSER b * * :Ben B\r\n")
  feed b (codes "NICK ann\r\nUSER a * * :Ann\r\n")

abbrev sent_after : M ℤ → Option (List (ℕ × Bytes))
sent_after m = Option.map (drop 2) (texts ((two_clients >>= λ _. m) empty_world))

-- A message to a nickname goes to its client, with the sender in front.
privmsg_delivered :
    sent_after (feed 1 (codes "PRIVMSG ann :hi there\r\n"))
    ≡ some ((8, codes "ben!b@h1 PRIVMSG ann :hi there\r\n") ∷ [])
unfolding program
privmsg_delivered = refl

-- The second to join is told of by a JOIN to the first.
join_told :
    sent_after (do r ← feed 1 (codes "JOIN #C\r\n"); feed 2 (codes "JOIN #c\r\n"))
    ≡ some (
        (7, codes ":ben!b@h1 JOIN #c\r\n")
        ∷ (7, codes ":irc.host 353 ben #c :ben\r\n")
        ∷ (7, codes ":irc.host 366 ben #c :End of NAMES list\r\n")
        ∷ (7, codes ":ann!a@h2 JOIN #c\r\n")
        ∷ (8, codes ":ann!a@h2 JOIN #c\r\n")
        ∷ (8, codes ":irc.host 353 ann #c :ann ben\r\n")
        ∷ (8, codes ":irc.host 366 ann #c :End of NAMES list\r\n")
        ∷ [])
unfolding program
join_told = refl

-- A channel is gone when its last member has left.
part_removes :
    sent_after (feed 1 (codes "JOIN #c\r\nPART #c\r\nPART #c\r\n"))
    ≡ some (
        (7, codes ":ben!b@h1 JOIN #c\r\n")
        ∷ (7, codes ":irc.host 353 ben #c :ben\r\n")
        ∷ (7, codes ":irc.host 366 ben #c :End of NAMES list\r\n")
        ∷ (7, codes ":irc.host 403 ben #c :No such channel\r\n")
        ∷ [])
unfolding program
part_removes = refl

-- A nickname of ten bytes, where no message came before: the handler reads through NULL.
long_nick_crashes : (two_clients >>= λ _. feed 1 (codes "NICK tenletters\r\n")) empty_world ≡ crash
unfolding program
long_nick_crashes = refl

part_crashes : (two_clients >>= λ _. feed 1 (codes "PART\r\n")) empty_world ≡ crash
unfolding program
part_crashes = refl

join_zero_crashes : (two_clients >>= λ _. feed 1 (codes "JOIN 0\r\n")) empty_world ≡ crash
unfolding program
join_zero_crashes = refl
