-- ===== src/Client/Nicknames.antt =====
-- `Client_TryChangeNick` of src/client.c on every branch.
use circ.Base.{
  ℕ, ◌≤◌, ◌≡◌, refl, ◌∙◌, true, false, ◌&&◌, none, some, Bytes, arith, length, length-append, ltb,
  str_eq, if◌then◌else◌, Bool-cases, inl, inr, ==_iff, ◌==◌,
}
use circ.Client.{client_try_change_nick}
use circ.Glib.{Glib, Response}
use circ.Irc.{irc_msg_size, nick_max_size}
use circ.Registry.Naming.{renamed, lookup-renamed, change-renamed}
use circ.Replies.Decimal.{decimal}
use circ.Replies.{Reply, nick_or_star, err_nickname_in_use}
use circ.Sending.{format}
use circ.World.{Client, World, ok, pure, get_server}
use circ.World.Runs.{bind-ok, load_client-ok}

module _ ⦃g : Glib⦄ where
  -- The text with no bound, where it fits the buffer.
  pub format-short :
      (r : Reply) (w : World)
      → r.bounded ≡ false
      → length r.text ≤ irc_msg_size
      → format r w ≡ ok (record { response = r.text; len = length r.text }) w
  unfolding format pure
  format-short r w unbounded fits =
      let short : ltb irc_msg_size (length r.text) ≡ false = ground arith in
      rw (unbounded, short) refl

  decimal-433 : length (decimal 433) ≡ 3
  unfolding decimal
  decimal-433 = refl

  in_use_unbounded : (c : Client) (nick : Bytes) → (err_nickname_in_use c nick).bounded ≡ false
  unfolding err_nickname_in_use
  in_use_unbounded c nick = refl

  in_use_fits :
      (c : Client) (nick : Bytes)
      → length c.nickname ≤ nick_max_size
      → length nick ≤ 400
      → length (err_nickname_in_use c nick).text ≤ irc_msg_size
  unfolding err_nickname_in_use nick_or_star
  in_use_fits c nick h l =
      let star : length (nick_or_star c) ≤ nick_max_size = elim (Bool-cases c.received_nick) [
        | inl named ↦ rw (named, nick_or_star) h
        | inr unnamed ↦ rw (unnamed, nick_or_star) (ground arith)
      ] in
      rw (length-append, length-append, length-append, length-append, length-append)
        (ground (arith, star, decimal-433))

  -- The reply for a nickname that is in use.
  abbrev pub refusal : Client → Bytes → Response
  refusal c nick = record {
    response = (err_nickname_in_use c nick).text;
    len = length (err_nickname_in_use c nick).text;
  }

  -- For a client that exists and a nickname that the table has, that of the client itself
  -- included: the state does not change, and the response is ERR_NICKNAMEINUSE. The client's
  -- nickname has at most 9 bytes, and the other at most 400.
  pub client_try_change_nick-taken :
      (w : World) (p : ℕ) (c : Client) (nick : Bytes) (id : ℕ)
      → w.client_at p ≡ some c
      → g.strings.lookup w.server.nicks nick ≡ some id
      → length c.nickname ≤ nick_max_size
      → length nick ≤ 400
      → client_try_change_nick p nick w ≡ ok (some (refusal c nick)) w
  unfolding client_try_change_nick get_server pure
  client_try_change_nick-taken w p c nick id here taken short l =
      bind-ok _ _ w c w (load_client-ok p w c here)
      ∙ bind-ok get_server _ w w.server w refl
      ∙ rw taken (
          bind-ok (format (err_nickname_in_use c nick)) (λ r. pure (some r)) w (refusal c nick) w
            (format-short _ w (in_use_unbounded c nick) (in_use_fits c nick short l)))

  change-free :
      (w : World) (p : ℕ) (c : Client) (nick : Bytes)
      → w.client_at p ≡ some c
      → g.strings.lookup w.server.nicks nick ≡ none
      → length nick ≤ nick_max_size
      → client_try_change_nick p nick w ≡ ok none (renamed w p c nick)
  unfolding client_try_change_nick get_server
  change-free w p c nick here free short =
      let fits : ltb nick_max_size (length nick) ≡ false = ground arith in
      bind-ok _ _ w c w (load_client-ok p w c here)
      ∙ bind-ok get_server _ w w.server w refl
      ∙ rw free (change-renamed w p c nick here ∙ rw fits refl)

  -- For a client that exists and a nickname of at most 9 bytes that the table does not have:
  -- there is no response, the client bears the nickname, the table has it under the client's id,
  -- the nickname that the client had is gone from the table, and every other nickname is looked
  -- up as before.
  pub client_try_change_nick-free :
      (w : World) (p : ℕ) (c : Client) (nick : Bytes)
      → w.client_at p ≡ some c
      → g.strings.lookup w.server.nicks nick ≡ none
      → length nick ≤ nick_max_size
      → (v : World) × (client_try_change_nick p nick w ≡ ok none v)
        × (v.client_at p ≡ some (record c { nickname = nick; received_nick = true }))
        × ((n : Bytes)
            → g.strings.lookup v.server.nicks n ≡ (
                if str_eq nick n
                then some c.client_id
                else if c.received_nick && str_eq c.nickname n
                then none
                else g.strings.lookup w.server.nicks n))
  client_try_change_nick-free w p c nick here free short =
      let same : p == p ≡ true = (==_iff p p).1 refl in
      (
        renamed w p c nick,
        change-free w p c nick here free short,
        rw same refl,
        lookup-renamed w.server.nicks c nick,
      )
