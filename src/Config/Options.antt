-- ===== src/Config/Options.antt =====
-- `parse_configuration` of src/config.c: what the options do to the configuration.
use circ.Base.{
  ℕ, ◌+◌, ◌≤◌, ◌≡◌, refl, sym, ap, ◌∙◌, Option, none, some, List, [], ◌∷◌, ◌++◌, Bytes, c_string,
  codes, length, length-append, length-take, drop-append, drop-set, length-drop, length-replicate,
  length-set, take, drop, replicate, set, arith,
}
use circ.Base.Int.{ℤ}
use circ.Config.{
  Config, Opt, Message, Strtol, Parsed, hostname_max, strncpy, set_default_configuration,
  port_option, parse_configuration,
}

-- The array has its bytes, and the last is NUL.
pub record IsConfig (conf : Config) : Type 0 where
  pub size : length conf.host ≡ hostname_max + 1
  pub ends : drop hostname_max conf.host ≡ 0 ∷ []

strncpy-length : (buf s : Bytes) (n : ℕ) → n ≤ length buf → length (strncpy buf s n) ≡ length buf
unfolding strncpy
strncpy-length buf s n h =
    rw (length-append, length-take, length-append, length-replicate, length-drop) (omega (arith, h))

strncpy-drop : (buf s : Bytes) (n : ℕ) → drop n (strncpy buf s n) ≡ drop n buf
unfolding strncpy
strncpy-drop buf s n =
    let t = take n (c_string s ++ replicate n 0) in
    let full : length t ≡ n = rw (length-take, length-append, length-replicate) (omega arith) in
    ap (λ k. drop k (t ++ drop n buf)) (sym full) ∙ drop-append t (drop n buf)

copied-IsConfig :
    (conf : Config) (s : Bytes)
    → IsConfig conf
    → IsConfig (record conf { host = strncpy conf.host s hostname_max })
copied-IsConfig conf s h = record {
  size = strncpy-length conf.host s hostname_max (omega (arith, h.size)) ∙ h.size;
  ends = strncpy-drop conf.host s hostname_max ∙ h.ends;
}

port_option-same :
    (l : Option ℤ) (optarg : Bytes) (conf : Config) (msg : Option Message)
    (rest : Option Message → Parsed)
    → IsConfig conf
    → ((m : Option Message) → IsConfig (rest m).conf × ((rest m).conf.port ≡ conf.port))
    → IsConfig (port_option l optarg conf msg rest).conf
      × ((port_option l optarg conf msg rest).conf.port ≡ conf.port)
unfolding port_option
port_option-same none optarg conf msg rest h later = (h, refl)
port_option-same (some l) optarg conf msg rest h later = later _

parse_configuration-IsConfig :
    (strtol : Strtol) (opts : List Opt) (conf : Config) (msg : Option Message)
    → IsConfig conf
    → IsConfig (parse_configuration strtol opts conf msg).conf
      × ((parse_configuration strtol opts conf msg).conf.port ≡ conf.port)
unfolding parse_configuration
parse_configuration-IsConfig strtol [] conf msg h = (h, refl)
parse_configuration-IsConfig strtol (Opt.host optarg ∷ opts) conf msg h =
    parse_configuration-IsConfig strtol opts
      (record conf { host = strncpy conf.host optarg hostname_max }) msg
      (copied-IsConfig conf optarg h)
parse_configuration-IsConfig strtol (Opt.port optarg ∷ opts) conf msg h =
    port_option-same (strtol optarg) optarg conf msg _ h
      (λ m. parse_configuration-IsConfig strtol opts conf m h)
parse_configuration-IsConfig strtol (Opt.missing optopt ∷ opts) conf msg h = (h, refl)
parse_configuration-IsConfig strtol (Opt.unrecognized optopt ∷ opts) conf msg h = (h, refl)
parse_configuration-IsConfig strtol (Opt.other ∷ opts) conf msg h = (h, refl)

last_zero : (xs : Bytes) → length xs ≡ 1 → set xs 0 0 ≡ 0 ∷ []
last_zero [] h = absurd (omega (arith, h))
last_zero (x ∷ []) h = refl
last_zero (x ∷ y ∷ xs) h = absurd (omega (arith, h))

default-IsConfig :
    (conf : Config)
    → length conf.host ≡ hostname_max + 1
    → IsConfig (set_default_configuration conf)
unfolding set_default_configuration
default-IsConfig conf h =
    let named = strncpy conf.host (codes "localhost") hostname_max in
    let same = strncpy-length conf.host (codes "localhost") hostname_max (omega (arith, h)) in
    record {
      size = length-set named hostname_max 0 ∙ same ∙ h;
      ends =
          drop-set named hostname_max 0 0
          ∙ last_zero (drop hostname_max named)
              (length-drop hostname_max named ∙ omega (arith, same, h));
    }

-- Whatever the options are, and whatever `strtol` gives, `parse_configuration` after
-- `set_default_configuration` on a host array of 256 bytes leaves an array of 256 bytes with a NUL
-- at its end, so that the host is a string of at most 255 bytes, and the default port, 50002.
pub configuration-IsConfig :
    (strtol : Strtol) (opts : List Opt) (conf : Config) (msg : Option Message)
    → length conf.host ≡ hostname_max + 1
    → (let parsed = parse_configuration strtol opts (set_default_configuration conf) msg in
        IsConfig parsed.conf × (parsed.conf.port ≡ 50002))
unfolding set_default_configuration
configuration-IsConfig strtol opts conf msg h =
    parse_configuration-IsConfig strtol opts (set_default_configuration conf) msg
      (default-IsConfig conf h)
