-- ===== src/ReadMessage/Bounds.antt =====
-- src/read_message.c and src/connection.c: the sizes of the buffers, and the end of the loop.
use circ.Base.{
  ℕ, zero, suc, ◌+◌, ◌-◌, ◌≤◌, ◌≡◌, refl, sym, ◌∙◌, Bool, true, false, Option, none, some, Bytes,
  arith, length, replicate, length-append, length-drop, length-replicate,
}
use circ.Connection.{Conn, conn_read_store_buffer, read_room}
use circ.Irc.{irc_msg_size}
use circ.ReadMessage.{Round, strncrlf, read_round, read_rounds, conn_read_message}
use circ.ReadMessage.Rounds.{IsConn, RoundIn, read_round-RoundIn}

-- What `read_rounds` gives, from any number of rounds.
pub record Reads (conn : Conn) (result : Bool × Conn) : Type 0 where
  pub is_conn : IsConn result.1
  pub fewer : result.0 ≡ true → result.1.total_read + 2 ≤ conn.total_read

-- No message is in the store.
abbrev pub Drained : Bool × Conn → Type 0
Drained result =
    result.0 ≡ false
    → (strncrlf result.1.store result.1.total_read ≡ none)
      × (result.1.total_read ≤ irc_msg_size - 2)

-- The rest of the loop, after a round.
abbrev after_round : ℕ → Round → Bool × Conn
after_round n r = elim r [
  | Round.returns after ↦ (true, after)
  | Round.continues after ↦ read_rounds n after
  | Round.nothing after ↦ (false, after)
]

after_round-Reads :
    (n : ℕ) (conn : Conn) (r : Round)
    → IsConn conn
    → RoundIn conn r
    → ((after : Conn) → IsConn after → Reads after (read_rounds n after))
    → Reads conn (after_round n r)
after_round-Reads n conn (Round.returns after) h i k = record {
  is_conn = i.is_conn;
  fewer = λ e. i.fewer;
}
after_round-Reads n conn (Round.continues after) h (i, on) k =
    let later = k after i.is_conn in
    record { is_conn = later.is_conn; fewer = λ e. ground (arith, later.fewer e, i.fewer) }
after_round-Reads n conn (Round.nothing after) h (same, e, low) k = record {
  is_conn = rw same h;
  fewer = λ e. ground arith;
}

read_rounds-Reads : (n : ℕ) (conn : Conn) → IsConn conn → Reads conn (read_rounds n conn)
unfolding read_rounds
read_rounds-Reads zero conn h = record { is_conn = h; fewer = λ e. ground arith }
read_rounds-Reads (suc n) conn h =
    after_round-Reads n conn (read_round conn) h (read_round-RoundIn conn h) (read_rounds-Reads n)

-- Where nothing is discarded, one round is all.
one_round :
    (n : ℕ) (conn : Conn) (r : Round)
    → RoundIn conn r
    → conn.discard_next ≡ false
    → (after_round n r ≡ after_round 0 r) × Drained (after_round n r)
one_round n conn (Round.returns after) i off = (refl, λ e. ground arith)
one_round n conn (Round.continues after) (i, on) off = absurd (ground arith)
one_round n conn (Round.nothing after) (same, e, low) off = (refl, λ f. (rw same e, rw same low))

two_rounds :
    (n : ℕ) (conn : Conn) (r : Round)
    → RoundIn conn r
    → (after_round (suc n) r ≡ after_round 1 r) × Drained (after_round (suc n) r)
unfolding read_rounds
two_rounds n conn (Round.returns after) i = (refl, λ e. ground arith)
two_rounds n conn (Round.continues after) (i, on) =
    let round = read_round-RoundIn after i.is_conn in
    let (same, drained) = one_round n after (read_round after) round i.discard_next in
    (same ∙ sym (one_round 0 after (read_round after) round i.discard_next).0, drained)
two_rounds n conn (Round.nothing after) (same, e, low) = (refl, λ f. (rw same e, rw same low))

-- The connection with `memset(conn->message, 0, IRC_MSG_SIZE)`.
abbrev pub cleared : Conn → Conn
cleared conn = record conn { message = replicate irc_msg_size 0 }

cleared-IsConn : (conn : Conn) → IsConn conn → IsConn (cleared conn)
cleared-IsConn conn h = record {
  message = length-replicate {A = ℕ} irc_msg_size 0;
  store = h.store;
  total_read = h.total_read;
}

-- On a connection with buffers of 512 bytes that holds at most 512, whatever the bytes,
-- `conn_read_message` keeps both sizes and the bound; each message that it returns takes at least
-- two bytes out of the store.
pub conn_read_message-Reads : (conn : Conn) → IsConn conn → Reads conn (conn_read_message conn)
unfolding conn_read_message
conn_read_message-Reads conn h =
    let r = read_rounds-Reads 2 (cleared conn) (cleared-IsConn conn h) in
    record { is_conn = r.is_conn; fewer = r.fewer }

-- On a connection with buffers of 512 bytes that holds at most 512, the loop of
-- `conn_read_message` ends after at most two rounds: more rounds give the same result. Where it
-- returns NULL, the store holds no CRLF and at most 510 bytes.
pub conn_read_message-rounds :
    (n : ℕ) (conn : Conn)
    → IsConn conn
    → (read_rounds (n + 2) (cleared conn) ≡ conn_read_message conn)
      × Drained (conn_read_message conn)
unfolding conn_read_message read_rounds
conn_read_message-rounds n conn h =
    let c = cleared conn in
    let round = read_round-RoundIn c (cleared-IsConn conn h) in
    (rw suc_two (two_rounds n c (read_round c) round).0, (two_rounds 0 c (read_round c) round).1)
  where
    suc_two : n + 2 ≡ suc (suc n)
    suc_two = omega arith

-- `Conn_ReadStoreBuffer` keeps buffers of 512 bytes and at most 512 bytes held, for a `read` that
-- fails or delivers no more bytes than it is asked for.
pub conn_read_store_buffer-IsConn :
    (conn : Conn) (input : Option Bytes)
    → IsConn conn
    → ((bytes : Bytes) → input ≡ some bytes → length bytes ≤ read_room conn)
    → IsConn (conn_read_store_buffer conn input).1
unfolding conn_read_store_buffer
conn_read_store_buffer-IsConn conn none h room = h
conn_read_store_buffer-IsConn conn (some bytes) h room =
    let few = room bytes refl in
    record {
      message = h.message;
      store = rw (length-append, length-drop, h.store) (ground (arith, few, h.total_read));
      total_read = ground (arith, few, h.total_read);
    }
