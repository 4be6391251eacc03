-- ===== src/Config.antt =====
-- src/config.c and include/config.h.
pub mod Options
use circ.Base.{
  ℕ, zero, suc, ◌+◌, Bool, true, false, Option, none, some, List, [], ◌∷◌, ◌++◌, Bytes, codes,
  c_string, length, take, drop, set, replicate, ltb, if◌then◌else◌, ◌==◌,
}
use circ.Base.Int.{ℤ, pos, negsuc}

abbrev pub hostname_max : ℕ
hostname_max = 255

abbrev pub uint16_max : ℕ
uint16_max = 65535

-- `host` has HOSTNAME_MAX + 1 bytes.
pub record Config : Type 0 where
  pub port : ℕ
  pub host : Bytes

-- One result of `getopt` with what it leaves in `optarg` or `optopt`; `other` is any other character.
pub data Opt : Type 0 where
  host : Bytes → Opt
  port : Bytes → Opt
  missing : ℕ → Opt
  unrecognized : ℕ → Opt
  other : Opt

-- The format of an error message with its arguments.
pub data Message : Type 0 where
  invalid_port : Bytes → ℕ → Message
  nan : Bytes → ℕ → Message
  missing_arg : ℕ → Message
  unexpected_case : Message
  unrecognized_opt : ℕ → Message

-- `strncpy(buf, s, n)`: the string, and then NULs, `n` bytes in all.
unfoldable pub strncpy : Bytes → Bytes → ℕ → Bytes
strncpy buf s n = take n (c_string s ++ replicate n 0) ++ drop n buf

unfoldable pub set_default_configuration : Config → Config
unfolding strncpy
set_default_configuration conf = record {
  port = 50002;
  host = set (strncpy conf.host (codes "localhost") hostname_max) hostname_max 0;
}

-- What `strtol(optarg, &s, 10)` gives: `none` where no digit was found.
abbrev pub Strtol : Type 0
Strtol = Bytes → Option ℤ

abbrev pub exceeds : ℤ → ℕ → Bool
exceeds (pos l) n = ltb n l
exceeds (negsuc l) n = false

-- The result, the configuration, and the message in `msg`, if one was written.
pub record Parsed : Type 0 where
  pub result : ℤ
  pub conf : Config
  pub msg : Option Message

-- The case of `-p`: the number is not stored. `rest` is the loop over what follows.
unfoldable pub port_option :
    Option ℤ → Bytes → Config → Option Message → (Option Message → Parsed) → Parsed
port_option none optarg conf msg rest = record {
  result = negsuc 0;
  conf = conf;
  msg = some (nan optarg b'p');
}
port_option (some l) optarg conf msg rest =
    rest (if exceeds l uint16_max then some (invalid_port optarg b'p') else msg)

-- The loop over the options. `msg` is not NULL.
unfoldable pub parse_configuration : Strtol → List Opt → Config → Option Message → Parsed
parse_configuration strtol [] conf msg = record { result = pos 0; conf = conf; msg = msg }
parse_configuration strtol (Opt.host optarg ∷ opts) conf msg =
    parse_configuration strtol opts (record conf { host = strncpy conf.host optarg hostname_max })
      msg
parse_configuration strtol (Opt.port optarg ∷ opts) conf msg =
    port_option (strtol optarg) optarg conf msg (parse_configuration strtol opts conf)
parse_configuration strtol (Opt.missing optopt ∷ opts) conf msg = record {
  result = negsuc 0;
  conf = conf;
  msg = some (missing_arg optopt);
}
parse_configuration strtol (Opt.unrecognized optopt ∷ opts) conf msg = record {
  result = negsuc 0;
  conf = conf;
  msg = some (unrecognized_opt optopt);
}
parse_configuration strtol (Opt.other ∷ opts) conf msg = record {
  result = pos 1;
  conf = conf;
  msg = some unexpected_case;
}
