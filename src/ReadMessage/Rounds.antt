-- ===== src/ReadMessage/Rounds.antt =====
-- One round of the loop of `conn_read_message`, src/read_message.c.
use circ.Base.{
  ℕ, zero, suc, ◌+◌, ◌-◌, ◌≤◌, ◌<◌, ◌≡◌, refl, sym, ◌∙◌, inl, inr, Bool, true, false, Option, none,
  some, [], ◌∷◌, ◌++◌, Bytes, Bool-cases, Option-cases, none_absurd, some_inj, arith, length, take,
  drop, get_or, replicate, length-append, length-take, length-drop, length-replicate, ltb, ◌==◌,
  if◌then◌else◌, ◌&&◌,
}
use circ.Connection.{Conn}
use circ.Irc.{irc_msg_size}
use circ.ReadMessage.{Round, close_round, strncrlf, take_message, truncate_message, read_round}
use mathlib.Core.Option

-- The buffers have their 512 bytes, and the store holds no more than that.
pub record IsConn (conn : Conn) : Type 0 where
  pub message : length conn.message ≡ irc_msg_size
  pub store : length conn.store ≡ irc_msg_size
  pub total_read : conn.total_read ≤ irc_msg_size

later_in_limit :
    (here : Bool) (rest : Option ℕ) (n i : ℕ)
    → ((j : ℕ) → rest ≡ some j → j + 2 ≤ suc n)
    → (if here then some 0 else Option.map suc rest) ≡ some i
    → i + 2 ≤ suc (suc n)
later_in_limit true rest n i k h = let e : 0 ≡ i = some_inj.0 h in ground arith
later_in_limit false none n i k h = none_absurd h
later_in_limit false (some j) n i k h = let e : suc j ≡ i = some_inj.0 h in ground (arith, k j refl)

-- A CRLF that is found stands among the first `limit` bytes.
pub strncrlf-in_limit : (str : Bytes) (limit i : ℕ) → strncrlf str limit ≡ some i → i + 2 ≤ limit
unfolding strncrlf
strncrlf-in_limit (c ∷ d ∷ cs) (suc (suc n)) i h =
    later_in_limit (c == b'\r' && d == b'\n') (strncrlf (d ∷ cs) (suc n)) n i
      (strncrlf-in_limit (d ∷ cs) (suc n)) h
strncrlf-in_limit [] limit i h = none_absurd h
strncrlf-in_limit (c ∷ []) limit i h = none_absurd h
strncrlf-in_limit (c ∷ d ∷ cs) zero i h = ground arith
strncrlf-in_limit (c ∷ d ∷ cs) (suc zero) i h = ground arith

-- Where a round that takes bytes leaves the connection.
pub record Shrinks (conn after : Conn) : Type 0 where
  pub is_conn : IsConn after
  pub fewer : after.total_read + 2 ≤ conn.total_read
  pub discard_next : after.discard_next ≡ false

take-length :
    (conn : Conn) (i : ℕ)
    → IsConn conn
    → i + 2 ≤ conn.total_read
    → (length (
          take (conn.total_read - (i + 2)) (drop (i + 2) conn.store)
          ++ (replicate (i + 2) 0 ++ drop conn.total_read conn.store))
        ≡ irc_msg_size)
      × (length (take (i + 2) conn.store ++ drop (i + 2) conn.message) ≡ irc_msg_size)
take-length conn i h low = (
  rw
      (
        length-append, length-append, length-take, length-drop, length-replicate, length-drop,
        h.store,
      )
      (ground arith),
  rw (length-append, length-take, length-drop, h.store, h.message) (ground arith),
)

abbrev pub RoundIn : Conn → Round → Type 0
RoundIn conn (Round.returns after) = Shrinks conn after
RoundIn conn (Round.continues after) = Shrinks conn after × (conn.discard_next ≡ true)
RoundIn conn (Round.nothing after) =
    (after ≡ conn)
    × (strncrlf conn.store conn.total_read ≡ none)
    × (conn.total_read ≤ irc_msg_size - 2)

-- Only a round that discards goes on.
closed_RoundIn :
    (conn after : Conn)
    → Shrinks conn (record after { discard_next = false })
    → after.discard_next ≡ conn.discard_next
    → RoundIn conn (close_round after)
closed_RoundIn conn after h same = elim (Bool-cases after.discard_next) [
  | inl on ↦ rw on (h, sym same ∙ on)
  | inr off ↦ rw off h
]

take_message-RoundIn :
    (conn : Conn) (i : ℕ)
    → IsConn conn
    → i + 2 ≤ conn.total_read
    → RoundIn conn (take_message conn i)
unfolding take_message
take_message-RoundIn conn i h low =
    closed_RoundIn conn _
      (record {
        is_conn = record {
          message = elim (Bool-cases conn.discard_next) [
            | inl on ↦ rw on h.message
            | inr off ↦ rw off (take-length conn i h low).1
          ];
          store = (take-length conn i h low).0;
          total_read = ground (arith, h.total_read);
        };
        fewer = ground arith;
        discard_next = refl;
      })
      refl

-- A truncated message, for any size of the buffer.
truncated_length :
    (discard : Bool) (n : ℕ) (message store : Bytes)
    → length message ≡ n + 2
    → length store ≡ n + 2
    → length (if discard then message else take n store ++ (b'\r' ∷ b'\n' ∷ [])) ≡ n + 2
truncated_length true n message store h k = h
truncated_length false n message store h k = rw (length-append, length-take, k) (ground arith)

one_length : (n one : ℕ) → length (one ∷ replicate n 0) ≡ n + 1
one_length n one = rw length-replicate (ground arith)

two_length : (n one two : ℕ) → length (one ∷ two ∷ replicate n 0) ≡ n + 2
two_length n one two = rw length-replicate (ground arith)

truncate_message-RoundIn :
    (conn : Conn)
    → IsConn conn
    → irc_msg_size - 2 < conn.total_read
    → RoundIn conn (truncate_message conn)
unfolding truncate_message
truncate_message-RoundIn conn h full =
    closed_RoundIn conn _
      (elim (Bool-cases (conn.total_read == irc_msg_size - 1)) [
        | inl one ↦ rw one (record {
          is_conn = record {
            message =
                truncated_length conn.discard_next 510 conn.message conn.store h.message h.store;
            store = one_length 511 (get_or conn.store 510 0);
            total_read = ground arith;
          };
          fewer = ground arith;
          discard_next = refl;
        })
        | inr two ↦ rw two (record {
          is_conn = record {
            message =
                truncated_length conn.discard_next 510 conn.message conn.store h.message h.store;
            store = two_length 510 (get_or conn.store 510 0) (get_or conn.store 511 0);
            total_read = ground arith;
          };
          fewer = ground arith;
          discard_next = refl;
        })
      ])
      (elim (Bool-cases (conn.total_read == irc_msg_size - 1)) [
        | inl one ↦ rw one refl
        | inr two ↦ rw two refl
      ])

pub read_round-RoundIn : (conn : Conn) → IsConn conn → RoundIn conn (read_round conn)
unfolding read_round
read_round-RoundIn conn h = elim (Option-cases (strncrlf conn.store conn.total_read)) [
  | inl absent ↦
      rw (absent, read_round)
        (elim (Bool-cases (ltb (irc_msg_size - 2) conn.total_read)) [
          | inl full ↦ rw full (truncate_message-RoundIn conn h (ground arith))
          | inr some_room ↦ rw some_room (refl, absent, ground arith)
        ])
  | inr (i, found) ↦
      rw (found, read_round)
        (take_message-RoundIn conn i h (strncrlf-in_limit conn.store conn.total_read i found))
]
