-- ===== src/Parser/Bounds.antt =====
-- src/parser.c on any buffer: what the handlers rely on.
use circ.Base.{ℕ, ◌≤◌, ◌<◌, ◌≡◌, refl, none, some, Bytes, Ptr, length, string_at, arith}
use circ.Base.Int.{pos}
use circ.Irc.{IrcMessage, nick_max_size}
use circ.Msgtok.{msgtok_r}
use circ.Msgtok.Tokens.{msgtok_r-IsResult}
use circ.Parser.{parse_message_nick}

-- The string at the pointer has between 1 and `n` bytes.
abbrev pub Short : ℕ → Bytes → Ptr → Type 0
Short n buf ptr =
    (p : ℕ) × (ptr ≡ some p) × (0 < length (string_at buf p)) × (length (string_at buf p) ≤ n)

-- A NICK that is parsed with no error names a nickname of 1 to 9 bytes, whatever the buffer and
-- the save pointer: it fits the client's `nickname`, which has room for 9 bytes and the NUL.
pub parse_message_nick-Short :
    (buf : Bytes) (m : IrcMessage) (saveptr : Ptr)
    → let r = parse_message_nick buf m saveptr in
      r.code ≡ pos 0 → Short nick_max_size r.buf r.message.first
unfolding parse_message_nick
parse_message_nick-Short buf m saveptr = go (msgtok_r buf none saveptr).tok refl
  where
    go :
        (tok : Ptr)
        → (msgtok_r buf none saveptr).tok ≡ tok
        → let r = parse_message_nick buf m saveptr in
          r.code ≡ pos 0 → Short nick_max_size r.buf r.message.first
    go none e h = absurd (ground arith)
    go (some p) e h =
        let k = (rw e at (msgtok_r-IsResult buf none saveptr)).strlen in
        (p, ground arith, ground (arith, k), ground (arith, k))
