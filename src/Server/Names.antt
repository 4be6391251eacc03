-- ===== src/Server/Names.antt =====
-- src/server.c: a channel that is made is found under its name in any case.
use circ.Base.{
  ℕ, ◌+◌, ◌≡◌, refl, ap, ◌∙◌, true, none, some, [], Bytes, str_eq, take, if◌then◌else◌, ==_iff,
  ◌==◌,
}
use circ.Channel.{channel_new, channel_name_max}
use circ.Glib.{Glib}
use circ.Server.{lower, server_get_channel, server_create_channel}
use circ.World.{
  Client, Channel, World, ok, crash, ◌>>=◌, ◌>>◌, pure, get_server, modify_server, alloc_channel,
  store_channel, load_client, update,
}
use circ.World.Runs.{bind-ok, bind-crash, load_client-ok, load_client-crash}

module _ ⦃g : Glib⦄ where
  abbrev pub new_channel : Client → Bytes → ℕ → Channel
  new_channel c name operator = record {
    name = take channel_name_max name;
    topic = [];
    members = g.ints.insert g.ints.new c.client_id operator;
    member_modes = g.ints.new;
  }

  -- The state once the channel is made.
  abbrev pub with_channel : World → Client → Bytes → ℕ → World
  with_channel w c name operator = record w {
    server = record (w.server) {
      channels = g.strings.insert w.server.channels (lower name) w.next_channel;
    };
    next_channel = w.next_channel + 1;
    channel_at = update w.channel_at w.next_channel (some (new_channel c (lower name) operator));
  }

  pub create-ok :
      (w : World) (operator : ℕ) (c : Client) (name : Bytes)
      → w.client_at operator ≡ some c
      → server_create_channel name operator w ≡ ok w.next_channel (with_channel w c name operator)
  unfolding server_create_channel channel_new alloc_channel store_channel modify_server pure ◌>>◌
      ◌>>=◌
  create-ok w operator c name here =
      bind-ok (channel_new (lower name) operator)
        (λ channel.
          modify_server
            (λ s. record s { channels = g.strings.insert s.channels (lower name) channel })
          >> pure channel)
        w w.next_channel _
        (bind-ok (load_client operator) _ w c w (load_client-ok operator w c here))

  pub create-crash :
      (w : World) (operator : ℕ) (name : Bytes)
      → w.client_at operator ≡ none
      → server_create_channel name operator w ≡ crash
  unfolding server_create_channel channel_new
  create-crash w operator name gone = bind-crash _ _ w (load_client-crash operator _ w gone)

  pub get-ok :
      (w : World) (name : Bytes)
      → server_get_channel name w ≡ ok (g.strings.lookup w.server.channels (lower name)) w
  unfolding server_get_channel get_server ◌>>=◌ pure
  get-ok w name = refl

  -- For a client that exists, `server_create_channel` returns a new channel, whose only member is
  -- that client and whose topic is empty; afterwards `server_get_channel` finds this channel under
  -- every spelling of its name in upper and lower case, and finds what it found before under
  -- every other name.
  pub server_create_channel-server_get_channel :
      (w : World) (operator : ℕ) (c : Client) (name : Bytes)
      → w.client_at operator ≡ some c
      → (v : World) × (server_create_channel name operator w ≡ ok w.next_channel v)
        × (v.channel_at w.next_channel ≡ some (new_channel c (lower name) operator))
        × ((other : Bytes)
            → server_get_channel other v
              ≡ ok
                  (if str_eq (lower name) (lower other)
                    then some w.next_channel
                    else g.strings.lookup w.server.channels (lower other))
                  v)
  server_create_channel-server_get_channel w operator c name here =
      let v = with_channel w c name operator in
      let same : w.next_channel == w.next_channel ≡ true = (==_iff _ w.next_channel).1 refl in
      (
        v,
        create-ok w operator c name here,
        rw same refl,
        λ other.
            get-ok v other
            ∙ ap (λ found. ok found v)
                (g.strings.lookup-insert w.server.channels (lower name) (lower other)
                  w.next_channel),
      )
