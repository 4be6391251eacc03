-- ===== src/Socket.antt =====
-- src/socket.c and include/socket.h. What the calls to the system answer is an argument.
use circ.Base.{ℕ, Bool, Option, none, some, List, [], ◌∷◌, if◌then◌else◌}

abbrev pub backlog : ℕ
backlog = 5

-- The descriptor that `socket` gives, `none` for -1, and whether the other calls give anything but
-- -1.
pub record Answers : Type 0 where
  pub socket : Option ℕ
  pub reused : Bool
  pub converted : Bool
  pub bound : Bool
  pub listening : Bool

-- The calls on a descriptor. The address is the wildcard with the port.
pub data Call : Type 0 where
  set_reuse : ℕ → Call
  bind : ℕ → ℕ → Call
  listen : ℕ → ℕ → Call

-- The steps after `socket`: the result, and the calls that are made.
unfoldable pub listen_on : Answers → ℕ → ℕ → Option ℕ × List Call
listen_on answers port fd =
    if answers.reused
    then (if answers.converted
        then (if answers.bound
            then (
              if answers.listening then some fd else none,
              set_reuse fd ∷ bind fd port ∷ listen fd backlog ∷ [],
            )
            else (none, set_reuse fd ∷ bind fd port ∷ []))
        else (none, set_reuse fd ∷ []))
    else (none, set_reuse fd ∷ [])

unfoldable pub socket_listen : Answers → ℕ → Option ℕ × List Call
unfolding listen_on
socket_listen answers port = elim answers.socket [
  | none ↦ (none, [])
  | some fd ↦ listen_on answers port fd
]
