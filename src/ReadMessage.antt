-- ===== src/ReadMessage.antt =====
-- src/read_message.c: `strncrlf` and `conn_read_message`, which takes one message out of the store
-- buffer of a connection.
pub mod Rounds
pub mod Bounds
pub mod Lines
use circ.Base.{
  ℕ, zero, suc, ◌+◌, ◌-◌, Bool, true, false, ◌&&◌, Option, none, some, List, [], ◌∷◌, ◌++◌, Bytes,
  take, drop, get_or, replicate, ltb, ◌==◌, if◌then◌else◌,
}
use circ.Connection.{Conn}
use circ.Irc.{irc_msg_size}
use mathlib.Core.Option

-- The loop looks at the first `limit` bytes, and does not stop at a NUL.
unfoldable pub strncrlf : Bytes → ℕ → Option ℕ
strncrlf (c ∷ d ∷ cs) (suc (suc n)) =
    let rest = Option.map suc (strncrlf (d ∷ cs) (suc n)) in
    if c == b'\r' && d == b'\n' then some 0 else rest
strncrlf _ _ = none

-- One round of the loop: the message is returned, the loop goes on, or NULL is returned.
pub data Round : Type 0 where
  returns : Conn → Round
  continues : Conn → Round
  nothing : Conn → Round

-- What each branch does at its end.
abbrev pub close_round : Conn → Round
close_round conn =
    if conn.discard_next then continues (record conn { discard_next = false }) else returns conn

-- The CRLF stands at `i`.
unfoldable pub take_message : Conn → ℕ → Round
take_message conn i =
    let message_len = i + 2 in
    let remaining_len = conn.total_read - message_len in
    close_round (record conn {
      message =
          if conn.discard_next
          then conn.message
          else take message_len conn.store ++ drop message_len conn.message;
      store =
          take remaining_len (drop message_len conn.store)
          ++ (replicate message_len 0 ++ drop conn.total_read conn.store);
      total_read = conn.total_read - message_len;
    })

-- 511 or 512 bytes with no CRLF among them.
unfoldable pub truncate_message : Conn → Round
truncate_message conn =
    let one = get_or conn.store (irc_msg_size - 2) 0 in
    let two = get_or conn.store (irc_msg_size - 1) 0 in
    let message =
      if conn.discard_next
      then conn.message
      else take (irc_msg_size - 2) conn.store ++ (b'\r' ∷ b'\n' ∷ []) in
    close_round (
      if conn.total_read == irc_msg_size - 1
      then record conn {
        message = message;
        store = one ∷ replicate (irc_msg_size - 1) 0;
        total_read = 1;
      }
      else record conn {
        message = message;
        store = one ∷ two ∷ replicate (irc_msg_size - 2) 0;
        total_read = 2;
      })

unfoldable pub read_round : Conn → Round
read_round conn = elim (strncrlf conn.store conn.total_read) [
  | some i ↦ take_message conn i
  | none ↦ if ltb (irc_msg_size - 2) conn.total_read then truncate_message conn else nothing conn
]

-- The loop, for a number of rounds; the result says whether a message is returned.
unfoldable pub read_rounds : ℕ → Conn → Bool × Conn
read_rounds zero conn = (false, conn)
read_rounds (suc n) conn = elim (read_round conn) [
  | returns after ↦ (true, after)
  | continues after ↦ read_rounds n after
  | nothing after ↦ (false, after)
]

-- Two rounds are enough: a round that goes on has cleared `discard_next`.
unfoldable pub conn_read_message : Conn → Bool × Conn
conn_read_message conn = read_rounds 2 (record conn { message = replicate irc_msg_size 0 })
