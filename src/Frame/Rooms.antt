-- ===== src/Frame/Rooms.antt =====
-- The handlers of src/handlers.c for JOIN, PART, LIST, TOPIC and NAMES.
use circ.Base.{ℕ, Option, none, some, Bytes, List, [], ◌∷◌}
use circ.Glib.{Glib}
use circ.Handlers.Rooms.{
  handler_join, handler_part, handler_list, handler_topic, handler_names, nicknames, push_names,
  join_or_create, push_topic, join_one, join_all, part_leave, part_found, push_list, list_all,
  list_named, topic_query, topic_set, names_all,
}
use circ.Irc.{IrcMessage}
use circ.Frame.{Allows}
use circ.Channel.{channel_join, channel_set_topic}
use circ.Frame.Forward.{Keeps-channel_is_member, Keeps-server_get_channel}
use circ.Frame.Replying.{Keeps-push_reply, Keeps-lower_in_place}
use circ.Server.{server_create_channel}
use circ.World.{World}
use circ.World.Keeps.{
  Keeps, Keeps-pure, Keeps-fault, Keeps-bind, Keeps-seq, Keeps-maybe, Keeps-load_client, run_rules,
}

module _ ⦃g : Glib⦄ {P : World → Type 0} {me : ℕ} (allows : Allows P me) where
  Keeps-server_create_channel : (name : Bytes) → Keeps P (server_create_channel name me)
  Keeps-server_create_channel = allows.create

  Keeps-channel_join : (channel : ℕ) → Keeps P (channel_join channel me)
  Keeps-channel_join = allows.join

  Keeps-part_leave : (channel : ℕ) (text : Option Bytes) → Keeps P (part_leave me channel text)
  Keeps-part_leave = allows.leave

  Keeps-channel_set_topic :
      (channel : ℕ) (topic : Bytes) → Keeps P (channel_set_topic channel topic)
  Keeps-channel_set_topic = allows.topic

  ruleset rooms = (run_rules, Keeps-push_reply, Keeps-server_get_channel)

  Keeps-nicknames : (l : List (ℕ × ℕ)) → Keeps P (nicknames l)
  unfolding nicknames
  Keeps-nicknames [] = Keeps-pure []
  Keeps-nicknames ((key, client) ∷ rest) =
      Keeps-bind _ _ (Keeps-load_client client)
        (λ c. Keeps-bind _ _ (Keeps-nicknames rest) (λ names. Keeps-pure _))

  Keeps-push_names : (channel : ℕ) → Keeps P (push_names me channel)
  unfolding push_names
  Keeps-push_names channel = search (rooms, Keeps-nicknames) depth 15

  Keeps-join_or_create : (name : Bytes) → Keeps P (join_or_create me name)
  unfolding join_or_create
  Keeps-join_or_create name =
      search (rooms, Keeps-server_create_channel, Keeps-channel_join) depth 15

  Keeps-push_topic : (channel : ℕ) → Keeps P (push_topic me channel)
  unfolding push_topic
  Keeps-push_topic channel = search (rooms) depth 15

  Keeps-join_one : (name : Bytes) → Keeps P (join_one me name)
  unfolding join_one
  Keeps-join_one name =
      search (rooms, Keeps-join_or_create, Keeps-push_topic, Keeps-push_names) depth 15

  Keeps-join_all : (l : List Bytes) → Keeps P (join_all me l)
  unfolding join_all
  Keeps-join_all [] = Keeps-pure tt
  Keeps-join_all (name ∷ rest) = Keeps-seq _ _ (Keeps-join_one name) (Keeps-join_all rest)

  pub Keeps-handler_join : (message : IrcMessage) → Keeps P (handler_join me message)
  unfolding handler_join
  Keeps-handler_join message = search (rooms, Keeps-join_all) depth 15

  Keeps-part_found : (channel : ℕ) (message : IrcMessage) → Keeps P (part_found me channel message)
  unfolding part_found
  Keeps-part_found channel message =
      search (rooms, Keeps-channel_is_member, Keeps-part_leave) depth 15

  pub Keeps-handler_part : (message : IrcMessage) → Keeps P (handler_part me message)
  unfolding handler_part
  Keeps-handler_part message = search (rooms, Keeps-part_found, Keeps-lower_in_place) depth 15

  Keeps-push_list : (channel : ℕ) → Keeps P (push_list me channel)
  unfolding push_list
  Keeps-push_list channel = search (rooms) depth 15

  Keeps-list_all : (l : List (Bytes × ℕ)) → Keeps P (list_all me l)
  unfolding list_all
  Keeps-list_all [] = Keeps-pure tt
  Keeps-list_all ((key, channel) ∷ rest) =
      Keeps-seq _ _ (Keeps-push_list channel) (Keeps-list_all rest)

  Keeps-list_named : (l : List Bytes) → Keeps P (list_named me l)
  unfolding list_named
  Keeps-list_named [] = Keeps-pure tt
  Keeps-list_named (name ∷ rest) = Keeps-bind _ _ (Keeps-server_get_channel name) (λ found.
      Keeps-seq _ _ (Keeps-maybe found _ _ (Keeps-pure tt) (Keeps-push_list))
        (Keeps-list_named rest))

  pub Keeps-handler_list : (message : IrcMessage) → Keeps P (handler_list me message)
  unfolding handler_list
  Keeps-handler_list message = search (rooms, Keeps-list_all, Keeps-list_named) depth 15

  Keeps-topic_query : (name : Bytes) (channel : Option ℕ) → Keeps P (topic_query me name channel)
  unfolding topic_query
  Keeps-topic_query name none = search rooms depth 15
  Keeps-topic_query name (some channel) = search rooms depth 15

  Keeps-topic_set : (channel : Option ℕ) (topic : Bytes) → Keeps P (topic_set channel topic)
  unfolding topic_set
  Keeps-topic_set none topic = Keeps-fault
  Keeps-topic_set (some channel) topic = search (rooms, Keeps-channel_set_topic) depth 15

  pub Keeps-handler_topic : (message : IrcMessage) → Keeps P (handler_topic me message)
  unfolding handler_topic
  Keeps-handler_topic message =
      search (rooms, Keeps-lower_in_place, Keeps-topic_query, Keeps-topic_set) depth 18

  Keeps-names_all : (l : List Bytes) → Keeps P (names_all me l)
  unfolding names_all
  Keeps-names_all [] = Keeps-pure tt
  Keeps-names_all (name ∷ rest) = Keeps-bind _ _ (Keeps-server_get_channel name) (λ found.
      Keeps-seq _ _ (Keeps-maybe found _ _ (Keeps-pure tt) (Keeps-push_names))
        (Keeps-names_all rest))

  pub Keeps-handler_names : (message : IrcMessage) → Keeps P (handler_names me message)
  unfolding handler_names
  Keeps-handler_names message = search (rooms, Keeps-names_all) depth 15
