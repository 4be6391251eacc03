-- ===== src/Parser/Encode.antt =====
-- src/parser.c: what `parse_message` makes of well-formed messages.
use circ.Base.{
  ℕ, ◌+◌, ◌≡◌, refl, ◌∙◌, false, none, some, List, [], ◌∷◌, ◌++◌, Bytes, Ptr, length, string_at,
  ◌==◌, ltb, All, arith, append_assoc,
}
use circ.Base.Int.{pos}
use circ.Irc.{MessageType, IrcMessage, nick_max_size}
use circ.Msgtok.Line.{Last, IsMiddle, IsLast, last_text, colon, line, middle-string}
use circ.Msgtok.Message.{next-middle, next-last, last-string, first-middle, next-none}
use circ.Parser.{
  Parsed, parse_message, message_type, parse_as, parse_message_privmsg, parse_message_nick,
  parse_message_user, parse_message_topic,
}

-- The command is cut off, and its parser goes on behind it.
pub parse_message-command :
    (cmd : Bytes) (ws : List Bytes) (last : Last) (rest : Bytes) (m : IrcMessage)
    → All IsMiddle (cmd ∷ ws)
    → IsLast last
    → parse_message (line (cmd ∷ ws) last rest) m
      ≡ parse_as
          (message_type cmd)
          ((cmd ++ (0 ∷ [])) ++ line ws last rest)
          (record m { command = some 0 })
          (some (length (cmd ++ (0 ∷ []))))
unfolding parse_message
parse_message-command cmd ws last rest m hs h =
    let t = first-middle cmd ws last rest none hs h in
    let some_length : (length cmd == 0) ≡ false = ground (arith, hs.0.filled) in
    rw (t, parse_message, t, some_length, middle-string [] cmd (line ws last rest) hs.0)

-- The pointer is not NULL, and the string there is `text`.
abbrev pub Holds : Bytes → Ptr → Bytes → Type 0
Holds buf ptr text = (p : ℕ) × (ptr ≡ some p) × (string_at buf p ≡ text)

-- A parser that succeeds, with its type and its first word.
pub record Says (r : Parsed) (type : MessageType) (first : Bytes) : Type 0 where
  pub returns : r.code ≡ pos 0
  pub type_is : r.message.type ≡ type
  pub no_err : r.message.parse_err ≡ 0
  pub first_is : Holds r.buf r.message.first first

module _ (pre : Bytes) (last : Last) (rest : Bytes) (m : IrcMessage) (h : IsLast last) where
  -- One parameter: the struct's second word stays as it was.
  pub nick-Says :
      (length (last_text last) == 0) ≡ false
      → ltb nick_max_size (length (last_text last)) ≡ false
      → Says
          (parse_message_nick (pre ++ line [] last rest) m (some (length pre)))
          MessageType.nick
          (last_text last)
  unfolding parse_message_nick
  nick-Says filled short =
      rw (next-last pre last rest h, filled, short)
        (record {
          returns = refl;
          type_is = refl;
          no_err = refl;
          first_is = (length pre + length (colon last), refl, last-string pre last rest h);
        })

  pub topic_query-Says :
      (length (last_text last) == 0) ≡ false
      → let r = parse_message_topic (pre ++ line [] last rest) m (some (length pre)) in
        Says r MessageType.topic (last_text last) × (r.message.second ≡ m.second)
  unfolding parse_message_topic
  topic_query-Says filled =
      let after = pre ++ (colon last ++ (last_text last ++ (0 ∷ b'\n' ∷ rest))) in
      rw (next-last pre last rest h, filled, next-none after)
        (
          record {
            returns = refl;
            type_is = refl;
            no_err = refl;
            first_is = (length pre + length (colon last), refl, last-string pre last rest h);
          },
          refl,
        )

  -- Two parameters.
  module _ (w : Bytes) (hw : IsMiddle w) where
    filled_word : (length w == 0) ≡ false
    filled_word = ground (arith, hw.filled)

    abbrev pub after_word : Bytes
    after_word = pre ++ (w ++ (0 ∷ []))

    pub privmsg-Says :
        let r = parse_message_privmsg (pre ++ line (w ∷ []) last rest) m (some (length pre)) in
        Says r MessageType.privmsg w × Holds r.buf r.message.second (last_text last)
    unfolding parse_message_privmsg
    privmsg-Says =
        rw
          (next-middle pre last rest h w [] (hw, tt), filled_word, next-last after_word last rest h)
          (
            record {
              returns = refl;
              type_is = refl;
              no_err = refl;
              first_is = (length pre, refl, middle-string pre w _ hw);
            },
            (length after_word + length (colon last), refl, last-string after_word last rest h),
          )

    pub topic-Says :
        let r = parse_message_topic (pre ++ line (w ∷ []) last rest) m (some (length pre)) in
        Says r MessageType.topic w × Holds r.buf r.message.second (last_text last)
    unfolding parse_message_topic
    topic-Says =
        rw
          (next-middle pre last rest h w [] (hw, tt), filled_word, next-last after_word last rest h)
          (
            record {
              returns = refl;
              type_is = refl;
              no_err = refl;
              first_is = (length pre, refl, middle-string pre w _ hw);
            },
            (length after_word + length (colon last), refl, last-string after_word last rest h),
          )

  -- Four parameters: the second and the third are skipped.
  module _ (name mode unused : Bytes) (h1 : IsMiddle name) (h2 : IsMiddle mode)
      (h3 : IsMiddle unused) where
    pub user-Says :
        let r =
          parse_message_user
            (pre ++ line (name ∷ mode ∷ unused ∷ []) last rest)
            m
            (some (length pre)) in
        Says r MessageType.user name × Holds r.buf r.message.second (last_text last)
    unfolding parse_message_user
    user-Says =
        let b1 = after_word name h1 in
        let b2 = b1 ++ (mode ++ (0 ∷ [])) in
        let b3 = b2 ++ (unused ++ (0 ∷ [])) in
        let end = colon last ++ (last_text last ++ (0 ∷ b'\n' ∷ rest)) in
        let shape =
          append_assoc b2 (unused ++ (0 ∷ [])) end
          ∙ append_assoc b1 (mode ++ (0 ∷ [])) ((unused ++ (0 ∷ [])) ++ end) in
        rw
          (
            next-middle pre last rest h name (mode ∷ unused ∷ []) (h1, (h2, (h3, tt))),
            filled_word name h1,
            next-middle b1 last rest h mode (unused ∷ []) (h2, (h3, tt)),
            next-middle b2 last rest h unused [] (h3, tt),
            next-last b3 last rest h,
          )
          (
            record {
              returns = refl;
              type_is = refl;
              no_err = refl;
              first_is = (length pre, refl, rw shape (middle-string pre name _ h1));
            },
            (length b3 + length (colon last), refl, last-string b3 last rest h),
          )
