-- ===== src/FdReader.antt =====
-- src/read_message.c: `read_message` and `read_to_CRLF`, the reader that the unit tests call.
pub mod Filled
pub mod Bounds
use circ.Base.{
  ℕ, zero, suc, ◌+◌, ◌-◌, Bool, true, false, Option, none, some, List, [], ◌∷◌, ◌++◌, Bytes, length,
  take, drop, replicate, leb, if◌then◌else◌,
}
use circ.Base.Int.{ℤ, pos, negsuc}
use circ.Irc.{irc_msg_size}
use circ.ReadMessage.{strncrlf}

-- `buf`, `*storeTotalRead` and `*storeDiscardNext`.
pub record Store : Type 0 where
  pub buf : Bytes
  pub total_read : ℕ
  pub discard_next : Bool

-- What `read` gives, in its order: -1 is `none`. It delivers at most what it is asked for.
abbrev pub Inputs : Type 0
Inputs = List (Option Bytes)

-- `read_to_CRLF` waits in `read`, returns 0 or -1, or returns 1: with the length of a message up to
-- its CRLF, or with a full buffer.
pub data Crlf : Type 0 where
  blocked : Crlf
  ended : ℤ → Bytes → ℕ → Crlf
  ready : Option ℕ → Bytes → ℕ → Inputs → Crlf

unfoldable pub if_found : Option ℕ → Bytes → ℕ → Inputs → Crlf → Crlf
if_found (some i) buf total_read inputs rest = ready (some (i + 2)) buf total_read inputs
if_found none buf total_read inputs rest = rest

-- `numRead` bytes are stored at `buf + *totalRead`; at 512 bytes the loop ends.
unfoldable pub store_read : Bytes → ℕ → Bytes → Inputs → Crlf → Crlf
store_read buf total_read [] inputs rest = ended (pos 0) buf total_read
store_read buf total_read (b ∷ bytes) inputs rest =
    let total = total_read + length (b ∷ bytes) in
    if leb irc_msg_size total
    then ready none (take total_read buf ++ ((b ∷ bytes) ++ drop total buf)) total inputs
    else rest

unfoldable pub read_to_crlf : Inputs → Bytes → ℕ → Crlf
read_to_crlf [] buf total_read = if_found (strncrlf buf total_read) buf total_read [] blocked
read_to_crlf (none ∷ inputs) buf total_read =
    if_found (strncrlf buf total_read) buf total_read (none ∷ inputs)
      (ended (negsuc 0) buf total_read)
read_to_crlf (some given ∷ inputs) buf total_read =
    let bytes = take (irc_msg_size - total_read) given in
    let total = total_read + length bytes in
    let rest = read_to_crlf inputs (take total_read buf ++ (bytes ++ drop total buf)) total in
    if_found (strncrlf buf total_read) buf total_read (some given ∷ inputs)
      (store_read buf total_read bytes inputs rest)

-- `memmove` and `memset`: the first `len` bytes are taken out.
unfoldable pub shift : Bytes → ℕ → ℕ → Bytes
shift buf total_read len =
    take (total_read - len) (drop len buf) ++ replicate (irc_msg_size - (total_read - len)) 0

-- The call still runs after the rounds that it was given, waits in `read`, or returns with the
-- message buffer and the store.
pub data Reading : Type 0 where
  running : Reading
  waiting : Reading
  returned : ℤ → Bytes → Store → Reading

-- `gotCRLF` and `msgLen` as a round leaves them: `none` until the first CRLF is found.
abbrev pub latest : Option ℕ → Option ℕ → Option ℕ
latest (some len) old = some len
latest none old = old

-- A CRLF has been found, in this round or in one before it. `next` is the loop from here.
unfoldable pub got_message : ℕ → Bytes → Bytes → ℕ → Bool → (Store → Reading) → Reading
got_message len msg buf total_read true next =
    next (record { buf = shift buf total_read len; total_read = total_read; discard_next = false })
got_message len msg buf total_read false next =
    returned (pos len) (take len buf ++ drop len msg) (record {
      buf = shift buf total_read len;
      total_read = total_read - len;
      discard_next = false;
    })

-- The buffer is full, and no CRLF has been found.
unfoldable pub full_buffer : Bytes → Bytes → Bool → (Store → Reading) → Reading
full_buffer msg buf true next =
    next (record { buf = replicate irc_msg_size 0; total_read = 0; discard_next = true })
full_buffer msg buf false next =
    returned (pos irc_msg_size) (take (irc_msg_size - 2) buf ++ (b'\r' ∷ b'\n' ∷ []))
      (record { buf = buf; total_read = 0; discard_next = true })

unfoldable pub after_read : Option ℕ → Bytes → Bytes → ℕ → Bool → (Store → Reading) → Reading
unfolding got_message full_buffer
after_read (some len) msg buf total_read discard next =
    got_message len msg buf total_read discard next
after_read none msg buf total_read discard next = full_buffer msg buf discard next

-- The loop, for a number of rounds.
unfoldable pub read_message_rounds : ℕ → Option ℕ → Inputs → Bytes → Store → Reading
unfolding after_read
read_message_rounds zero got inputs msg store = running
read_message_rounds (suc n) got inputs msg store =
    elim (read_to_crlf inputs store.buf store.total_read) [
      | blocked ↦ waiting
      | ended result buf total ↦
          returned result msg
            (record { buf = buf; total_read = total; discard_next = store.discard_next })
      | ready found buf total rest ↦
          let got' = latest found got in
          after_read got' msg buf total store.discard_next
            (λ s. read_message_rounds n got' rest msg s)
    ]

unfoldable pub read_message : ℕ → Inputs → Bytes → Store → Reading
unfolding read_message_rounds
read_message rounds inputs msg store = read_message_rounds rounds none inputs msg store
