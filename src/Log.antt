-- ===== src/Log.antt =====
-- src/log.c and include/log.h: the levels, and what is printed.
pub mod Levels
use circ.Base.{
  ℕ, zero, suc, ◌+◌, Bool, true, false, ◌&&◌, Option, none, some, List, [], ◌∷◌, ◌++◌, Bytes, codes,
  length, take, to_lower, ltb, if◌then◌else◌, ◌==◌,
}
use circ.Base.Int.{ℤ, pos, negsuc}

-- `L_TRACE` to `L_CRITICAL` are 0 to 5.
abbrev pub l_trace : ℤ
l_trace = pos 0

abbrev pub l_debug : ℤ
l_debug = pos 1

abbrev pub l_info : ℤ
l_info = pos 2

abbrev pub l_warning : ℤ
l_warning = pos 3

abbrev pub l_error : ℤ
l_error = pos 4

abbrev pub l_critical : ℤ
l_critical = pos 5

-- `strncasecmp(a, b, n) == 0` on strings: at most `n` bytes, up to the end of one.
unfoldable pub strncasecmp_eq : Bytes → Bytes → ℕ → Bool
strncasecmp_eq a b zero = true
strncasecmp_eq [] [] (suc n) = true
strncasecmp_eq (x ∷ a) (y ∷ b) (suc n) = to_lower x == to_lower y && strncasecmp_eq a b n
strncasecmp_eq _ _ (suc n) = false

unfoldable pub parse_loglevel : Bytes → ℤ
parse_loglevel levelstr =
    let len = length levelstr in
    if strncasecmp_eq (codes "TRACE") levelstr len
    then l_trace
    else if strncasecmp_eq (codes "DEBUG") levelstr len
    then l_debug
    else if strncasecmp_eq (codes "INFO") levelstr len
    then l_info
    else if strncasecmp_eq (codes "WARNING") levelstr len
    then l_warning
    else if strncasecmp_eq (codes "ERROR") levelstr len
    then l_error
    else if strncasecmp_eq (codes "CRITICAL") levelstr len
    then l_critical
    else negsuc 0

-- The `switch` over the level.
unfoldable pub level_text : ℤ → Bytes
level_text (negsuc n) = codes "UNKNOWN"
level_text (pos n) =
    if n == 5
    then codes "FATAL"
    else if n == 4
    then codes "ERROR"
    else if n == 3
    then codes "WARN"
    else if n == 2
    then codes "INFO"
    else if n == 1
    then codes "DEBUG"
    else if n == 0
    then codes "TRACE"
    else codes "UNKNOWN"

abbrev pub below : ℤ → ℤ → Bool
below (pos a) (pos b) = ltb a b
below (pos a) (negsuc b) = false
below (negsuc a) (pos b) = true
below (negsuc a) (negsuc b) = ltb b a

-- What is printed, if anything. `time` is the text that `strftime` gives, and `text` that of the
-- format string with its arguments.
unfoldable pub circlog : ℤ → ℤ → Bytes → Bytes → Option Bytes
circlog threshold level time text =
    if below level threshold
    then none
    else some (
        codes "["
        ++ (take 5 (level_text level)
            ++ (codes "]\t " ++ (time ++ (codes " - " ++ (text ++ codes "\n"))))))
