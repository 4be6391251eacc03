-- ===== src/FdReader/Filled.antt =====
-- `read_to_CRLF` of src/read_message.c: its buffer and its inputs.
use circ.Base.{
  ℕ, ◌+◌, ◌-◌, ◌≤◌, ◌<◌, ◌≡◌, refl, inl, inr, ◌⊎◌, Bool-cases, Option, none, some, [], ◌∷◌, ◌++◌,
  Bytes, length, length-append, length-take, length-drop, take, drop, leb, arith,
}
use circ.Base.Int.{pos, negsuc}
use circ.FdReader.{Inputs, Crlf, blocked, ended, ready, if_found, store_read, read_to_crlf}
use circ.Irc.{irc_msg_size}
use circ.ReadMessage.{strncrlf}
use circ.ReadMessage.Rounds.{strncrlf-in_limit}

-- The buffer has 512 bytes, and at most that many have been read.
abbrev pub IsFilled : Bytes → ℕ → Type 0
IsFilled buf total = (length buf ≡ irc_msg_size) × (total ≤ irc_msg_size)

-- A length that has been found lies within the bytes that were read.
abbrev pub InBytes : Option ℕ → ℕ → Type 0
InBytes none total = total ≡ irc_msg_size
InBytes (some len) total = len ≤ total

abbrev pub IsCrlf : Crlf → Type 0
IsCrlf blocked = Unit
IsCrlf (ended result buf total) = IsFilled buf total × ((result ≡ pos 0) ⊎ (result ≡ negsuc 0))
IsCrlf (ready found buf total inputs) = IsFilled buf total × InBytes found total

if_found-IsCrlf :
    (o : Option ℕ) (buf : Bytes) (total : ℕ) (inputs : Inputs) (rest : Crlf)
    → IsFilled buf total
    → strncrlf buf total ≡ o
    → IsCrlf rest
    → IsCrlf (if_found o buf total inputs rest)
unfolding if_found
if_found-IsCrlf none buf total inputs rest h e r = r
if_found-IsCrlf (some i) buf total inputs rest h e r = (h, strncrlf-in_limit buf total i e)

written : Bytes → ℕ → Bytes → Bytes
written buf total bytes = take total buf ++ (bytes ++ drop (total + length bytes) buf)

written-length :
    (buf bytes : Bytes) (total : ℕ)
    → length buf ≡ irc_msg_size
    → total + length bytes ≤ irc_msg_size
    → length (written buf total bytes) ≡ irc_msg_size
unfolding written
written-length buf bytes total h room =
    rw (length-append, length-take, length-append, length-drop) (omega (arith, h, room))

store_read-IsCrlf :
    (buf bytes : Bytes) (total : ℕ) (inputs : Inputs) (rest : Crlf)
    → IsFilled buf total
    → total + length bytes ≤ irc_msg_size
    → IsCrlf rest
    → IsCrlf (store_read buf total bytes inputs rest)
unfolding store_read written
store_read-IsCrlf buf [] total inputs rest h room r = (h, inl refl)
store_read-IsCrlf buf (b ∷ bytes) total inputs rest h room r =
    elim (Bool-cases (leb irc_msg_size (total + length (b ∷ bytes)))) [
      | inl full ↦
          rw full
            ((written-length buf (b ∷ bytes) total h.0 room, room), ground (arith, full, room))
      | inr more ↦ rw more r
    ]

pub read_to_crlf-IsCrlf :
    (inputs : Inputs) (buf : Bytes) (total : ℕ)
    → IsFilled buf total
    → IsCrlf (read_to_crlf inputs buf total)
unfolding read_to_crlf written
read_to_crlf-IsCrlf [] buf total h = if_found-IsCrlf _ buf total [] _ h refl tt
read_to_crlf-IsCrlf (none ∷ inputs) buf total h =
    if_found-IsCrlf _ buf total (none ∷ inputs) _ h refl (h, inr refl)
read_to_crlf-IsCrlf (some given ∷ inputs) buf total h =
    let bytes = take (irc_msg_size - total) given in
    let room : total + length bytes ≤ irc_msg_size =
      omega (arith, length-take (irc_msg_size - total) given, h.1) in
    if_found-IsCrlf _ buf total (some given ∷ inputs) _ h refl (
      store_read-IsCrlf buf bytes total inputs _ h room (
        read_to_crlf-IsCrlf inputs (written buf total bytes) (total + length bytes)
          (written-length buf bytes total h.0 room, room)))

-- What is left of the inputs: a full buffer has taken one.
abbrev pub Fewer : Inputs → Crlf → Type 0
Fewer inputs (ready none buf total rest) = length rest < length inputs
Fewer inputs (ready (some len) buf total rest) = length rest ≤ length inputs
Fewer inputs blocked = Unit
Fewer inputs (ended result buf total) = Unit

if_found-Fewer :
    (o : Option ℕ) (buf : Bytes) (total : ℕ) (inputs : Inputs) (rest : Crlf)
    → Fewer inputs rest
    → Fewer inputs (if_found o buf total inputs rest)
unfolding if_found
if_found-Fewer none buf total inputs rest h = h
if_found-Fewer (some i) buf total inputs rest h = omega arith

Fewer-cons : (i : Option Bytes) (inputs : Inputs) (c : Crlf) → Fewer inputs c → Fewer (i ∷ inputs) c
Fewer-cons i inputs blocked h = tt
Fewer-cons i inputs (ended result buf total) h = tt
Fewer-cons i inputs (ready none buf total rest) h = omega (arith, h)
Fewer-cons i inputs (ready (some len) buf total rest) h = omega (arith, h)

store_read-Fewer :
    (buf bytes : Bytes) (total : ℕ) (i : Option Bytes) (inputs : Inputs) (rest : Crlf)
    → Fewer inputs rest
    → Fewer (i ∷ inputs) (store_read buf total bytes inputs rest)
unfolding store_read
store_read-Fewer buf [] total i inputs rest h = tt
store_read-Fewer buf (b ∷ bytes) total i inputs rest h =
    elim (Bool-cases (leb irc_msg_size (total + length (b ∷ bytes)))) [
      | inl full ↦ rw full (omega arith)
      | inr more ↦ rw more (Fewer-cons i inputs rest h)
    ]

pub read_to_crlf-Fewer :
    (inputs : Inputs) (buf : Bytes) (total : ℕ) → Fewer inputs (read_to_crlf inputs buf total)
unfolding read_to_crlf
read_to_crlf-Fewer [] buf total = if_found-Fewer (strncrlf buf total) buf total [] blocked tt
read_to_crlf-Fewer (none ∷ inputs) buf total =
    if_found-Fewer (strncrlf buf total) buf total (none ∷ inputs) _ tt
read_to_crlf-Fewer (some given ∷ inputs) buf total =
    if_found-Fewer (strncrlf buf total) buf total (some given ∷ inputs) _ (
      store_read-Fewer buf (take (irc_msg_size - total) given) total (some given) inputs _
        (read_to_crlf-Fewer inputs _ _))
