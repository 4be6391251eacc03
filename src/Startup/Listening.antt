-- ===== src/Startup/Listening.antt =====
-- src/circ.c: where the server listens, and when it does not start.
use circ.Base.{
  ℕ, zero, suc, ◌+◌, ◌≡◌, refl, ap, ◌∙◌, Bool, true, false, ◌&&◌, Option, none, some, List, [], ◌∷◌,
  Bytes, length, c_string, take, if◌then◌else◌,
}
use circ.Base.Int.{ℤ, pos, negsuc}
use circ.Config.{Config, Opt, Strtol, hostname_max, set_default_configuration, parse_configuration}
use circ.Config.Options.{configuration-IsConfig}
use circ.Glib.{Glib}
use circ.Motd.{Stream, motd_get}
use circ.Reactor.{configure_read, reactor_configure_events, reactor_register_handler}
use circ.Serving.{initial}
use circ.Socket.{Answers, set_reuse, bind, listen, backlog, listen_on, socket_listen}
use circ.Startup.{
  Answered, Outcome, exits, serves, server_handler, run_server, configured, main, irc_hostname_max,
}
use circ.World.{World}
use mathlib.Core.Option

-- Every call on the socket succeeds.
abbrev pub succeeds : Answers → Bool
succeeds a = a.reused && (a.converted && (a.bound && a.listening))

abbrev pub failed : ℤ → Bool
failed (negsuc zero) = true
failed _ = false

module _ ⦃g : Glib⦄ where
  -- What the server is once it listens on the port 50002.
  abbrev pub listening : (ℕ → World → World) → Answered → ℕ → Outcome
  listening on_read env fd = serves (record {
    state =
        initial (take irc_hostname_max env.hostname)
          (Option.map (λ m. c_string m.0) (motd_get env.motd));
    fd = fd;
    calls = set_reuse fd ∷ bind fd 50002 ∷ listen fd backlog ∷ [];
    watched =
        if env.added
        then (
          server_handler on_read fd,
          record { epollin = true; epollerr = true; epollout = false },
        )
          ∷ []
        else [];
  })

  -- What becomes of the run, by the answers of the system.
  abbrev pub outcome : (ℕ → World → World) → Answered → Outcome
  outcome on_read env = elim env.sockets.socket [
    | none ↦ exits
    | some fd ↦ if succeeds env.sockets && env.created then listening on_read env fd else exits
  ]

  abbrev answered :
      Option Stream → Bytes → Option ℕ → Bool → Bool → Bool → Bool → Bool → Bool → Answered
  answered motd hostname o r c b l created added = record {
    motd = motd;
    hostname = hostname;
    sockets = record { socket = o; reused = r; converted = c; bound = b; listening = l };
    created = created;
    added = added;
  }

  run-outcome :
      (on_read : ℕ → World → World) (m : Option Stream) (h host : Bytes) (o : Option ℕ)
      (r c b l created added : Bool)
      → let env = answered m h o r c b l created added in
        run_server on_read env (record { port = 50002; host = host }) ≡ outcome on_read env
  unfolding run_server socket_listen listen_on reactor_register_handler reactor_configure_events
      configure_read
  run-outcome on_read m h host none r c b l created added = refl
  run-outcome on_read m h host (some fd) false c b l created added = refl
  run-outcome on_read m h host (some fd) true false b l created added = refl
  run-outcome on_read m h host (some fd) true true false l created added = refl
  run-outcome on_read m h host (some fd) true true true false created added = refl
  run-outcome on_read m h host (some fd) true true true true false added = refl
  run-outcome on_read m h host (some fd) true true true true true false = refl
  run-outcome on_read m h host (some fd) true true true true true true = refl

  run_server-outcome :
      (on_read : ℕ → World → World) (env : Answered) (conf : Config)
      → conf.port ≡ 50002
      → run_server on_read env conf ≡ outcome on_read env
  run_server-outcome on_read env conf port =
      ap (λ n. run_server on_read env (record { port = n; host = conf.host })) port
      ∙ run-outcome on_read env.motd env.hostname conf.host env.sockets.socket env.sockets.reused
          env.sockets.converted env.sockets.bound env.sockets.listening env.created env.added

  configured-failed : (r : ℤ) (run : Outcome) → configured r run ≡ (if failed r then exits else run)
  unfolding configured
  configured-failed (negsuc zero) run = refl
  configured-failed (negsuc (suc n)) run = refl
  configured-failed (pos n) run = refl

  -- Whatever the options are and whatever `strtol` gives, for a host array of 256 bytes: `main` exits
  -- if `parse_configuration` returns -1, if a call on the socket gives -1, or if `epoll_create1`
  -- does. In all other cases the server comes to its loop in its first state, with the message of the
  -- day and the name of the host, and the socket was bound to the port 50002, the option -p or not,
  -- and listens; the reactor watches it for reading, unless `epoll_ctl` has refused it, which is not
  -- noticed.
  pub main-outcome :
      (on_read : ℕ → World → World) (strtol : Strtol) (opts : List Opt) (conf : Config)
      (env : Answered)
      → length conf.host ≡ hostname_max + 1
      → (let parsed = parse_configuration strtol opts (set_default_configuration conf) none in
          main on_read strtol opts conf env
          ≡ (if failed parsed.result then exits else outcome on_read env))
  unfolding main
  main-outcome on_read strtol opts conf env size =
      let parsed = parse_configuration strtol opts (set_default_configuration conf) none in
      let port : parsed.conf.port ≡ 50002 = (configuration-IsConfig strtol opts conf none size).1 in
      configured-failed parsed.result _
      ∙ ap (λ run. if failed parsed.result then exits else run)
          (run_server-outcome on_read env parsed.conf port)
