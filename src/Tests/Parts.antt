-- ===== src/Tests/Parts.antt =====
-- The theorems on the parts beside the server, at concrete input.
use circ.Base.{
  ◌+◌, ◌++◌, ℕ, ◌≡◌, refl, true, false, none, some, List, [], ◌∷◌, codes, replicate,
  length-replicate, leb, map, to_lower, arith,
}
use circ.Base.Int.{pos}
use circ.Config.{Config, Opt, Strtol, set_default_configuration, parse_configuration}
use circ.Config.Options.{IsConfig, configuration-IsConfig}
use circ.FdReader.{
  Store, Inputs, Reading, running, waiting, returned, read_message, read_message_rounds,
  read_to_crlf, if_found, shift,
}
use circ.FdReader.Bounds.{IsResult, read_message-IsResult}
use circ.ReadMessage.{strncrlf}
use circ.Log.{parse_loglevel}
use circ.Log.Levels.{parse_loglevel-first_level, first_level, level_names}
use circ.Reactor.{
  Events, ReactorEventHandler, no_events, reactor_configure_events, configure_read,
  reactor_handle_events, Watched,
}
use circ.Reactor.Dispatch.{IsReport, reactor_handle_events-Reads, reads_in_order}
use circ.Vector.{vector_new}
use circ.Vector.Pushes.{stays, push_all, vector_push_back-fits}

abbrev any_port : Strtol
any_port s = some (pos 6667)

abbrev blank : Config
blank = record { port = 0; host = replicate 256 0 }

configuration-IsConfig_example :
    let parsed =
      parse_configuration any_port
        (Opt.port (codes "6667") ∷ Opt.host (codes "irc.host") ∷ [])
        (set_default_configuration blank)
        none in
    IsConfig parsed.conf × (parsed.conf.port ≡ 50002)
configuration-IsConfig_example =
    configuration-IsConfig any_port (Opt.port (codes "6667") ∷ Opt.host (codes "irc.host") ∷ [])
      blank none (length-replicate {A = ℕ} 256 0)

parse_loglevel-first_level_example :
    parse_loglevel (codes "Warn") ≡ first_level level_names (map to_lower (codes "Warn"))
parse_loglevel-first_level_example = parse_loglevel-first_level (codes "Warn")

vector_push_back-fits_example : stays (push_all (5 ∷ 6 ∷ 7 ∷ []) (vector_new 2)) ≡ leb 3 2
vector_push_back-fits_example = vector_push_back-fits 2 (5 ∷ 6 ∷ 7 ∷ []) (omega arith)

-- A reader that notes its instance.
abbrev reader : ℕ → ReactorEventHandler (List ℕ)
reader i = record {
  fd = i;
  instance_of = i;
  handle_read = some (λ j s. j ∷ s);
  handle_write = none;
}

abbrev readable : Events
readable = record { epollin = true; epollerr = false; epollout = false }

abbrev two_ready : Watched (List ℕ)
two_ready = (reader 1, readable) ∷ (reader 2, readable) ∷ []

asked : (i : ℕ) → IsReport (reactor_configure_events no_events (reader i)) readable
unfolding reactor_configure_events configure_read
asked i = record { epollin = λ h. refl; epollout = λ h. h }

reactor_handle_events-Reads_example :
    reactor_handle_events two_ready [] ≡ some (reads_in_order two_ready [])
reactor_handle_events-Reads_example =
    reactor_handle_events-Reads two_ready []
      (((λ j s. j ∷ s, refl, refl), asked 1), (((λ j s. j ∷ s, refl, refl), asked 2), tt))

abbrev one_line : Inputs
one_line = some (codes "NICK ben\r\n") ∷ []

abbrev no_store : Store
no_store = record { buf = replicate 512 0; total_read = 0; discard_next = false }

read_message-IsResult_example :
    IsResult (read_message (1 + 2 + 1) one_line (replicate 512 0) no_store)
read_message-IsResult_example =
    read_message-IsResult 1 one_line (replicate 512 0) no_store (length-replicate {A = ℕ} 512 0)
      (length-replicate {A = ℕ} 512 0, omega arith)

-- A message that is discarded is taken out of the buffer and not out of the count: after the next
-- message three bytes are still counted as read.
left_over : Reading → ℕ
left_over running = 0
left_over waiting = 0
left_over (returned result msg store) = store.total_read

discarded_counted :
    left_over (
      read_message 3 [] (replicate 512 0) (record {
        buf = codes "x\r\nNICK b\r\n" ++ replicate 501 0;
        total_read = 11;
        discard_next = true;
      }))
    ≡ 3
unfolding left_over read_message read_message_rounds read_to_crlf if_found strncrlf shift
discarded_counted = refl
