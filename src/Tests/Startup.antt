-- ===== src/Tests/Startup.antt =====
-- The theorems on the start of the program, at concrete input.
use circ.Base.{
  ℕ, ◌++◌, ◌≡◌, refl, true, none, some, [], ◌∷◌, ◌==◌, Bytes, codes, length, length-replicate, leb,
  replicate, take, if◌then◌else◌,
}
use circ.Base.Int.{pos}
use circ.Config.{Config, Opt, Strtol, set_default_configuration, parse_configuration}
use circ.Motd.{Stream, motd_get}
use circ.Motd.Contents.{IsFile, motd_get-contents}
use circ.Startup.{Answered, exits, main}
use circ.Startup.Listening.{failed, outcome, main-outcome}
use circ.Tests.Tables.{lists}

-- A file with four bytes.
abbrev text : Bytes
text = codes "Hi!\n"

abbrev text_file : Stream
text_file = record {
  sought_end = true;
  tell = some 4;
  allocated = true;
  sought_start = true;
  fread =
      λ n. if n == 0 then (0, []) else if leb n (length text) then (1, take n text) else (0, text);
}

text-IsFile : IsFile text_file text
text-IsFile = record {
  sought_end = refl;
  tell = refl;
  allocated = refl;
  sought_start = refl;
  fread = λ n. refl;
}

motd_get-contents_example :
    motd_get (some text_file)
    ≡ (if length text == 0 then none else some (text ++ (0 ∷ []), length text))
motd_get-contents_example = motd_get-contents text_file text text-IsFile

abbrev any_port : Strtol
any_port s = some (pos 6667)

abbrev blank : Config
blank = record { port = 0; host = replicate 256 0 }

abbrev working : Answered
working = record {
  motd = some text_file;
  hostname = codes "irc.host";
  sockets = record {
    socket = some 3;
    reused = true;
    converted = true;
    bound = true;
    listening = true;
  };
  created = true;
  added = true;
}

main-outcome_example :
    let opts = Opt.port (codes "6667") ∷ [] in
    let parsed = parse_configuration any_port opts (set_default_configuration blank) none in
    main (λ i w. w) any_port opts blank working
    ≡ (if failed parsed.result then exits else outcome (λ i w. w) working)
main-outcome_example =
    main-outcome (λ i w. w) any_port (Opt.port (codes "6667") ∷ []) blank working
      (length-replicate {A = ℕ} 256 0)
