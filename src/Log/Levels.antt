-- ===== src/Log/Levels.antt =====
-- `parse_loglevel` of src/log.c: which names it takes.
use circ.Base.{
  ◌≡◌, refl, ap, Bool, true, false, ◌&&◌, List, [], ◌∷◌, map, Bytes, codes, length, to_lower,
  if◌then◌else◌, ◌==◌,
}
use circ.Base.Int.{ℤ, negsuc}
use circ.Log.{
  strncasecmp_eq, parse_loglevel, l_trace, l_debug, l_info, l_warning, l_error, l_critical,
}

-- The second begins with the first.
abbrev pub is_prefix : Bytes → Bytes → Bool
is_prefix [] b = true
is_prefix (x ∷ a) [] = false
is_prefix (x ∷ a) (y ∷ b) = y == x && is_prefix a b

abbrev pub level_names : List (Bytes × ℤ)
level_names =
    (codes "trace", l_trace)
    ∷ (codes "debug", l_debug)
    ∷ (codes "info", l_info)
    ∷ (codes "warning", l_warning)
    ∷ (codes "error", l_error)
    ∷ (codes "critical", l_critical)
    ∷ []

-- The level of the first name that begins with the text.
abbrev pub first_level : List (Bytes × ℤ) → Bytes → ℤ
first_level [] s = negsuc 0
first_level ((name, level) ∷ rest) s = if is_prefix s name then level else first_level rest s

strncasecmp_eq-is_prefix :
    (a s : Bytes) → strncasecmp_eq a s (length s) ≡ is_prefix (map to_lower s) (map to_lower a)
unfolding strncasecmp_eq
strncasecmp_eq-is_prefix a [] = refl
strncasecmp_eq-is_prefix [] (y ∷ s) = refl
strncasecmp_eq-is_prefix (x ∷ a) (y ∷ s) =
    ap (λ b. to_lower x == to_lower y && b) (strncasecmp_eq-is_prefix a s)

-- `parse_loglevel` gives the level of the first of the names trace, debug, info, warning, error
-- and critical that begins with the text, upper and lower case being the same, and -1 if none does.
pub parse_loglevel-first_level :
    (s : Bytes) → parse_loglevel s ≡ first_level level_names (map to_lower s)
unfolding parse_loglevel to_lower
parse_loglevel-first_level s =
    rw
      (
        strncasecmp_eq-is_prefix (codes "TRACE") s,
        strncasecmp_eq-is_prefix (codes "DEBUG") s,
        strncasecmp_eq-is_prefix (codes "INFO") s,
        strncasecmp_eq-is_prefix (codes "WARNING") s,
        strncasecmp_eq-is_prefix (codes "ERROR") s,
        strncasecmp_eq-is_prefix (codes "CRITICAL") s,
      )
      refl
