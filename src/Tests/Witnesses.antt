-- ===== src/Tests/Witnesses.antt =====
-- The theorems on bytes, at concrete inputs.
use circ.Base.{ℕ, ◌+◌, ◌≡◌, refl, true, false, none, some, [], ◌∷◌, ◌++◌, codes, replicate, arith}
use circ.Base.Int.{pos}
use circ.Connection.{Conn}
use circ.Irc.{MessageType, nick_max_size}
use circ.HandleRead.{zero_message}
use circ.Msgtok.{msgtok_r}
use circ.Msgtok.Line.{Last, trailing, word, IsMiddle, IsLast, every-IsText, word-IsMiddle}
use circ.Msgtok.Message.{cut, cut-line}
use circ.Msgtok.Tokens.{IsResult, msgtok_r-IsResult}
use circ.Parser.{parse_message, parse_message_nick}
use circ.Parser.Bounds.{Short, parse_message_nick-Short}
use circ.Parser.Commands.{parse_message-privmsg, parse_message-topic_query}
use circ.Parser.Encode.{Says, Holds}
use circ.ReadMessage.{conn_read_message, read_rounds}
use circ.ReadMessage.Rounds.{IsConn}
use circ.ReadMessage.Bounds.{Drained, cleared, conn_read_message-rounds}
use circ.ReadMessage.Lines.{HasLine, conn_read_message-line}
use circ.Tests.Program.{program}
use circ.Tests.Tables.{lists}
use circ.Handlers.Fragments.{motd_parts-concat, motd_parts-lost}
use circ.Handlers.Basic.{motd_parts, num_parts, motd_fragment_max}
use circ.Base.{◌≤◌, take, length, All, ◌-◌}
use circ.Replies.{concat}

-- `ann :hi there`
abbrev hi_there : Last
hi_there = trailing (codes "hi there")

hi_there-IsLast : IsLast hi_there
hi_there-IsLast = every-IsText (codes "hi there") refl

ann-IsMiddle : IsMiddle (codes "ann")
ann-IsMiddle = word-IsMiddle _ _ refl

cut-line_example :
    cut 3 (codes "PRIVMSG ann :hi there\r\n") (some 0)
    ≡ codes "PRIVMSG" ∷ codes "ann" ∷ codes "hi there" ∷ []
cut-line_example =
    cut-line (codes "PRIVMSG" ∷ codes "ann" ∷ []) [] hi_there [] 3
      (word-IsMiddle _ _ refl, (ann-IsMiddle, tt)) hi_there-IsLast (ground arith)

msgtok_r-IsResult_example :
    IsResult (codes "PING a\r\n") (msgtok_r (codes "PING a\r\n") (some 0) none)
msgtok_r-IsResult_example = msgtok_r-IsResult (codes "PING a\r\n") (some 0) none

parse_message-privmsg_example :
    let r = parse_message (codes "PRIVMSG ann :hi there\r\n") zero_message in
    Says r MessageType.privmsg (codes "ann") × Holds r.buf r.message.second (codes "hi there")
parse_message-privmsg_example =
    parse_message-privmsg hi_there [] zero_message hi_there-IsLast (codes "ann") ann-IsMiddle

parse_message-topic_query_example :
    let r = parse_message (codes "TOPIC ann\r\n") zero_message in
    Says r MessageType.topic (codes "ann") × (r.message.second ≡ none)
parse_message-topic_query_example =
    parse_message-topic_query (word (codes "ann")) [] zero_message ann-IsMiddle (ground arith)

nick_parsed : (parse_message_nick (codes "ann\r\n") zero_message (some 0)).code ≡ pos 0
unfolding program
nick_parsed = refl

parse_message_nick-Short_example :
    let r = parse_message_nick (codes "ann\r\n") zero_message (some 0) in
    Short nick_max_size r.buf r.message.first
parse_message_nick-Short_example =
    parse_message_nick-Short (codes "ann\r\n") zero_message (some 0) nick_parsed

-- A connection that has read `PING a` and the beginning of another message.
abbrev pinged : Conn
pinged = record {
  fd = 7;
  discard_next = false;
  total_read = 10;
  message = replicate 512 0;
  store = codes "PING a\r\nNI" ++ replicate 502 0;
}

pinged-IsConn : IsConn pinged
pinged-IsConn = record { message = refl; store = refl; total_read = ground arith }

conn_read_message-rounds_example :
    (read_rounds (3 + 2) (cleared pinged) ≡ conn_read_message pinged)
    × Drained (conn_read_message pinged)
conn_read_message-rounds_example = conn_read_message-rounds 3 pinged pinged-IsConn

pinged-HasLine : HasLine pinged (codes "PING a") (codes "NI" ++ replicate 502 0) 2
pinged-HasLine = record {
  is_line = (refl, (refl, (refl, (refl, (refl, (refl, tt))))));
  store = refl;
  total_read = refl;
  discard_next = refl;
}

conn_read_message-line_example : conn_read_message pinged ≡ (
  true,
  record pinged {
    message = codes "PING a\r\n" ++ replicate 504 0;
    store = codes "NI" ++ (replicate 8 0 ++ replicate 502 0);
    total_read = 2;
  },
)
conn_read_message-line_example =
    conn_read_message-line pinged (codes "PING a") (codes "NI" ++ replicate 502 0) 2 pinged-HasLine

-- Two texts, of 81 and of 80 bytes.
motd_parts-concat_example :
    let motd = replicate {A = ℕ} 81 b'a' in
    let parts = motd_parts (num_parts (length motd)) (length motd) motd in
    (concat parts ≡ motd) × All (λ part. length part ≤ motd_fragment_max) parts
motd_parts-concat_example = motd_parts-concat (replicate {A = ℕ} 81 b'a') (ground arith)

motd_parts-lost_example :
    let motd = replicate {A = ℕ} 80 b'a' in
    concat (motd_parts (num_parts (length motd)) (length motd) motd)
    ≡ take (length motd - motd_fragment_max) motd
motd_parts-lost_example = motd_parts-lost (replicate {A = ℕ} 80 b'a') (ground arith) (ground arith)
