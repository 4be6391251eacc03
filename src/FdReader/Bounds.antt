-- ===== src/FdReader/Bounds.antt =====
-- `read_message` of src/read_message.c keeps to its buffers.
use circ.Base.{
  ℕ, zero, suc, ◌+◌, ◌≤◌, ◌<◌, ◌≡◌, refl, ap, inl, inr, ◌⊎◌, Bool, true, false, Option, none, some,
  Bytes, length, length-append, length-take, length-drop, length-replicate, arith, if◌then◌else◌,
}
use circ.Base.Int.{ℤ, pos, negsuc}
use circ.FdReader.{
  Store, running, waiting, returned, Inputs, Crlf, blocked, ended, ready, read_to_crlf, shift,
  Reading, latest, got_message, full_buffer, after_read, read_message_rounds, read_message,
}
use circ.FdReader.Filled.{IsFilled, InBytes, IsCrlf, Fewer, read_to_crlf-IsCrlf, read_to_crlf-Fewer}
use circ.Irc.{irc_msg_size}

shift-length :
    (buf : Bytes) (total len : ℕ) → IsFilled buf total → length (shift buf total len) ≡ irc_msg_size
unfolding shift
shift-length buf total len h =
    rw (length-append, length-take, length-drop, length-replicate) (omega (arith, h.0, h.1))

-- What a call does: it waits in `read`, or it returns -1, 0 or a length of at most 512, a message buffer of 512 bytes,
-- and a store that is filled with at most 512 bytes.
abbrev pub IsResult : Reading → Type 0
IsResult running = ⊥
IsResult waiting = Unit
IsResult (returned (negsuc n) msg store) =
    (n ≡ 0) × (length msg ≡ irc_msg_size) × IsFilled store.buf store.total_read
IsResult (returned (pos n) msg store) =
    (n ≤ irc_msg_size) × (length msg ≡ irc_msg_size) × IsFilled store.buf store.total_read

got_message-IsResult :
    (len : ℕ) (msg buf : Bytes) (total : ℕ) (discard : Bool) (next : Store → Reading)
    → length msg ≡ irc_msg_size
    → IsFilled buf total
    → len ≤ total
    → (discard ≡ true
        → (s : Store) → s.discard_next ≡ false
        → IsFilled s.buf s.total_read
        → IsResult (next s))
    → IsResult (got_message len msg buf total discard next)
unfolding got_message
got_message-IsResult len msg buf total true next m h inside later =
    later refl _ refl (shift-length buf total len h, h.1)
got_message-IsResult len msg buf total false next m h inside later = (
  omega (arith, inside, h.1),
  rw (length-append, length-take, length-drop) (omega (arith, m, h.0, h.1, inside)),
  (shift-length buf total len h, omega (arith, h.1)),
)

full_buffer-IsResult :
    (msg buf : Bytes) (total : ℕ) (discard : Bool) (next : Store → Reading)
    → IsFilled buf total
    → (discard ≡ true → (s : Store) → IsFilled s.buf s.total_read → IsResult (next s))
    → IsResult (full_buffer msg buf discard next)
unfolding full_buffer
full_buffer-IsResult msg buf total true next h later =
    later refl _ (length-replicate {A = ℕ} irc_msg_size 0, omega arith)
full_buffer-IsResult msg buf total false next h later =
    (omega arith, rw (length-append, length-take) (omega (arith, h.0)), (h.0, omega arith))

-- A length that an earlier round has found is at most 512.
abbrev Earlier : Option ℕ → Type 0
Earlier none = Unit
Earlier (some len) = len ≤ irc_msg_size

-- One round more may be needed where the next message is to be discarded.
abbrev spare : Bool → ℕ
spare b = if b then 1 else 0

spare-le : (b : Bool) → spare b ≤ 1
spare-le true = omega arith
spare-le false = omega arith

-- `before` and `left` are the numbers of inputs before and after the round.
abbrev Shorter : Option ℕ → ℕ → ℕ → Type 0
Shorter none left before = left < before
Shorter (some len) left before = left ≤ before

after_read-IsResult :
    (found got : Option ℕ) (msg buf : Bytes) (total : ℕ) (discard : Bool) (next : Store → Reading)
    (left before : ℕ)
    → length msg ≡ irc_msg_size
    → IsFilled buf total
    → InBytes found total
    → Earlier got
    → Shorter found left before
    → (discard ≡ true
        → (s : Store) → spare s.discard_next + left < 1 + before
        → IsFilled s.buf s.total_read
        → IsResult (next s))
    → IsResult (after_read (latest found got) msg buf total discard next)
unfolding after_read
after_read-IsResult (some len) got msg buf total discard next left before m h inside old fewer
      later =
    got_message-IsResult len msg buf total discard next m h inside
      (λ d s off. later d s (rw off (omega (arith, fewer))))
after_read-IsResult none (some len) msg buf total discard next left before m h inside old fewer
      later =
    got_message-IsResult len msg buf total discard next m h (omega (arith, inside, old))
      (λ d s off. later d s (rw off (omega (arith, fewer))))
after_read-IsResult none none msg buf total discard next left before m h inside old fewer later =
    full_buffer-IsResult msg buf total discard next h
      (λ d s. later d s (omega (arith, fewer, spare-le s.discard_next)))

latest-Earlier :
    (found got : Option ℕ) (total : ℕ)
    → InBytes found total
    → total ≤ irc_msg_size
    → Earlier got
    → Earlier (latest found got)
latest-Earlier (some len) got total inside low old = omega (arith, inside, low)
latest-Earlier none got total inside low old = old

ended-IsResult :
    (result : ℤ) (msg buf : Bytes) (total : ℕ) (discard : Bool)
    → length msg ≡ irc_msg_size
    → IsFilled buf total
    → (result ≡ pos 0) ⊎ (result ≡ negsuc 0)
    → IsResult
        (returned result msg (record { buf = buf; total_read = total; discard_next = discard }))
ended-IsResult (pos n) msg buf total discard m h (inl e) = (ground (arith, e), m, h)
ended-IsResult (pos n) msg buf total discard m h (inr e) = absurd (ground (arith, e))
ended-IsResult (negsuc n) msg buf total discard m h (inl e) = absurd (ground (arith, e))
ended-IsResult (negsuc n) msg buf total discard m h (inr e) = (ground (arith, e), m, h)

ready-Shorter :
    (found : Option ℕ) (buf : Bytes) (total : ℕ) (inputs rest : Inputs)
    → Fewer inputs (ready found buf total rest)
    → Shorter found (length rest) (length inputs)
ready-Shorter none buf total inputs rest h = h
ready-Shorter (some len) buf total inputs rest h = h

rounds-IsResult :
    (n : ℕ) (got : Option ℕ) (inputs : Inputs) (msg : Bytes) (store : Store)
    → Earlier got
    → length msg ≡ irc_msg_size
    → IsFilled store.buf store.total_read
    → spare store.discard_next + length inputs < n
    → IsResult (read_message_rounds n got inputs msg store)
unfolding read_message_rounds
rounds-IsResult zero got inputs msg store old m h enough = absurd (omega (arith, enough))
rounds-IsResult (suc n) got inputs msg store old m h enough =
    round (read_to_crlf inputs store.buf store.total_read)
      (read_to_crlf-IsCrlf inputs store.buf store.total_read h)
      (read_to_crlf-Fewer inputs store.buf store.total_read)
      (λ g rest s e f more. rounds-IsResult n g rest msg s e m f more)
  where
    round :
        (c : Crlf)
        → IsCrlf c
        → Fewer inputs c
        → ((g : Option ℕ) (rest : Inputs) (s : Store)
            → Earlier g
            → IsFilled s.buf s.total_read
            → spare s.discard_next + length rest < n
            → IsResult (read_message_rounds n g rest msg s))
        → IsResult (elim c [
          | blocked ↦ waiting
          | ended result buf total ↦
              returned result msg
                (record { buf = buf; total_read = total; discard_next = store.discard_next })
          | ready found buf total rest ↦
              let got' = latest found got in
              after_read got' msg buf total store.discard_next
                (λ s. read_message_rounds n got' rest msg s)
        ])
    round blocked c fewer later = tt
    round (ended result buf total) c fewer later =
        ended-IsResult result msg buf total store.discard_next m c.0 c.1
    round (ready found buf total rest) c fewer later =
        after_read-IsResult found got msg buf total store.discard_next _ (length rest)
          (length inputs) m c.0 c.1 old (ready-Shorter found buf total inputs rest fewer)
          (λ d s less f.
            later (latest found got) rest s (latest-Earlier found got total c.1 c.0.1 old) f
              (omega (arith, less, enough, ap spare d)))

-- If `read` delivers no more than it is asked for: from a message buffer of 512 bytes and a store of
-- 512 bytes filled with at most that many, two rounds more than there are inputs are enough for
-- `read_message`. It waits for another input, or it returns -1, 0 or a length of at most 512, and
-- leaves both buffers with 512 bytes and the store filled with at most that many.
pub read_message-IsResult :
    (k : ℕ) (inputs : Inputs) (msg : Bytes) (store : Store)
    → length msg ≡ irc_msg_size
    → IsFilled store.buf store.total_read
    → IsResult (read_message (length inputs + 2 + k) inputs msg store)
unfolding read_message
read_message-IsResult k inputs msg store m h =
    rounds-IsResult (length inputs + 2 + k) none inputs msg store tt m h
      (omega (arith, spare-le store.discard_next))
