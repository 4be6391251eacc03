-- ===== src/Startup.antt =====
-- src/circ.c, and `start_server` of src/server.c up to its loop over events.
pub mod Listening
use circ.Base.{
  ℕ, zero, Bool, true, not, Option, none, some, List, [], ◌∷◌, Bytes, take, c_string, if◌then◌else◌,
}
use circ.Base.Int.{ℤ, pos, negsuc}
use circ.Config.{Config, Opt, Strtol, Parsed, set_default_configuration, parse_configuration}
use circ.Glib.{Glib}
use circ.Motd.{Stream, motd_get}
use circ.Reactor.{ReactorEventHandler, Watched, reactor_register_handler}
use circ.Serving.{initial}
use circ.Socket.{Answers, Call, socket_listen}
use circ.World.{World}
use mathlib.Core.Option

abbrev pub irc_hostname_max : ℕ
irc_hostname_max = 63

-- What the system answers: the file of the message of the day, the name of the host, the calls on
-- the socket, whether `epoll_create1` succeeds, and whether `epoll_ctl` adds the socket.
pub record Answered : Type 0 where
  pub motd : Option Stream
  pub hostname : Bytes
  pub sockets : Answers
  pub created : Bool
  pub added : Bool

module _ ⦃g : Glib⦄ where
  -- The server at the start of its loop: the state of `g_server`, the socket, the calls on it, and
  -- what the reactor watches.
  pub record Started : Type 0 where
    pub state : World
    pub fd : ℕ
    pub calls : List Call
    pub watched : Watched World

  pub data Outcome : Type 0 where
    exits : Outcome
    serves : Started → Outcome

  -- `serverHandler`, with `Server_HandleReadEvent` for its callback.
  abbrev pub server_handler : (ℕ → World → World) → ℕ → ReactorEventHandler World
  server_handler on_read fd = record {
    fd = fd;
    instance_of = 0;
    handle_read = some on_read;
    handle_write = none;
  }

  -- `start_server`. The result of the registration is not looked at.
  unfoldable pub run_server : (ℕ → World → World) → Answered → Config → Outcome
  run_server on_read env conf =
      let (socket, calls) = socket_listen env.sockets conf.port in
      elim socket [
        | none ↦ exits
        | some fd ↦
            if env.created
            then serves (record {
              state =
                  initial (take irc_hostname_max env.hostname)
                    (Option.map (λ m. c_string m.0) (motd_get env.motd));
              fd = fd;
              calls = calls;
              watched = (reactor_register_handler env.added (server_handler on_read fd) []).1;
            })
            else exits
      ]

  -- What `main` does with the result of `parse_configuration`.
  unfoldable pub configured : ℤ → Outcome → Outcome
  configured (negsuc zero) run = exits
  configured _ run = run

  unfoldable pub main : (ℕ → World → World) → Strtol → List Opt → Config → Answered → Outcome
  unfolding configured run_server
  main on_read strtol opts conf env =
      let parsed = parse_configuration strtol opts (set_default_configuration conf) none in
      configured parsed.result (run_server on_read env parsed.conf)
