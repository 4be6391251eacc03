-- ===== src/ReadMessage/Lines.antt =====
-- src/read_message.c: a line in the store is the message that `conn_read_message` returns.
use circ.Base.{
  ℕ, zero, suc, ◌+◌, ◌-◌, ◌≤◌, ◌≡◌, refl, ap, true, false, some, [], ◌∷◌, ◌++◌, Bytes, All, arith,
  length, take, drop, drop-replicate, replicate, ◌==◌,
}
use circ.Connection.{Conn}
use circ.Irc.{irc_msg_size}
use circ.ReadMessage.{Round, strncrlf, take_message, read_round, read_rounds, conn_read_message}

-- No CR stands in the line.
abbrev pub IsLine : Bytes → Type 0
IsLine = All (λ c. c == b'\r' ≡ false)

strncrlf-line :
    (line rest : Bytes) (n : ℕ)
    → IsLine line
    → length line + 2 ≤ n
    → strncrlf (line ++ (b'\r' ∷ b'\n' ∷ rest)) n ≡ some (length line)
unfolding strncrlf
strncrlf-line line rest zero h l = absurd (omega arith)
strncrlf-line line rest (suc zero) h l = absurd (omega arith)
strncrlf-line [] rest (suc (suc n)) h l = refl
strncrlf-line (c ∷ []) rest (suc (suc n)) h l =
    rw (h.0, strncrlf-line [] rest (suc n) tt (omega arith)) refl
strncrlf-line (c ∷ d ∷ cs) rest (suc (suc n)) h l =
    rw (h.0, strncrlf-line (d ∷ cs) rest (suc n) h.1 (omega arith)) refl

take-line :
    (line rest : Bytes)
    → take (length line + 2) (line ++ (b'\r' ∷ b'\n' ∷ rest)) ≡ line ++ (b'\r' ∷ b'\n' ∷ [])
take-line [] rest = refl
take-line (c ∷ line) rest =
    let e : suc (length line) + 2 ≡ suc (length line + 2) = omega arith in
    rw e (ap (◌∷◌ c) (take-line line rest))

drop-line :
    (line rest : Bytes) (k : ℕ)
    → drop (length line + 2 + k) (line ++ (b'\r' ∷ b'\n' ∷ rest)) ≡ drop k rest
drop-line [] rest k = let e : 0 + 2 + k ≡ suc (suc k) = omega arith in rw e refl
drop-line (c ∷ line) rest k =
    let e : suc (length line) + 2 + k ≡ suc (length line + 2 + k) = omega arith in
    rw e (drop-line line rest k)

drop-line_whole :
    (line rest : Bytes) → drop (length line + 2) (line ++ (b'\r' ∷ b'\n' ∷ rest)) ≡ rest
drop-line_whole line rest =
    let e : length line + 2 ≡ length line + 2 + 0 = omega arith in rw e (drop-line line rest 0)

-- A connection with the line in its store, and `k` more bytes behind it.
pub record HasLine (conn : Conn) (line rest : Bytes) (k : ℕ) : Type 0 where
  pub is_line : IsLine line
  pub store : conn.store ≡ line ++ (b'\r' ∷ b'\n' ∷ rest)
  pub total_read : conn.total_read ≡ length line + 2 + k
  pub discard_next : conn.discard_next ≡ false

read_round-line :
    (conn : Conn) (line rest : Bytes) (k : ℕ)
    → HasLine conn line rest k
    → read_round (record conn { message = replicate irc_msg_size 0 })
      ≡ Round.returns (record conn {
        message = (line ++ (b'\r' ∷ b'\n' ∷ [])) ++ replicate (irc_msg_size - (length line + 2)) 0;
        store = take k rest ++ (replicate (length line + 2) 0 ++ drop k rest);
        total_read = k;
      })
unfolding read_round take_message
read_round-line conn line rest k h =
    let found : strncrlf conn.store conn.total_read ≡ some (length line) =
      rw (h.store, h.total_read)
        (strncrlf-line line rest (length line + 2 + k) h.is_line (omega arith)) in
    let left : length line + 2 + k - (length line + 2) ≡ k = omega arith in
    rw (found, read_round)
      (rw
        (
          h.discard_next,
          h.total_read,
          h.store,
          left,
          take-line line rest,
          drop-line_whole line rest,
          drop-line line rest k,
          drop-replicate,
        )
        refl)

-- Where the store begins with a line that has no CR in it and ends with CRLF, and nothing is
-- discarded, `conn_read_message` returns that line with its CRLF and zeros behind it; the bytes
-- that stand behind the line move to the front of the store, and only they are counted.
pub conn_read_message-line :
    (conn : Conn) (line rest : Bytes) (k : ℕ)
    → HasLine conn line rest k
    → conn_read_message conn ≡ (
      true,
      record conn {
        message = (line ++ (b'\r' ∷ b'\n' ∷ [])) ++ replicate (irc_msg_size - (length line + 2)) 0;
        store = take k rest ++ (replicate (length line + 2) 0 ++ drop k rest);
        total_read = k;
      },
    )
unfolding conn_read_message read_rounds
conn_read_message-line conn line rest k h =
    rw (read_round-line conn line rest k h, read_rounds) refl
