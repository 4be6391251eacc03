-- ===== src/Tests/Program.antt =====
-- Everything that a test runs, to be named on one `unfolding` line.
use circ.World.{
  pure, ◌>>=◌, ◌>>◌, fault, get_server, modify_server, load_client, store_client, modify_client,
  maybe, load_channel, store_channel, deref, alloc_client, alloc_channel, write, read_string,
  read_string?, lower_in_place,
}
use circ.Msgtok.{skip_spaces, strstr_crlf, find_space, token_before, token_at, msgtok_r, msgtok}
use circ.Parser.{
  parse_message_nick, parse_message_user, parse_message_privmsg, parse_message_ping,
  parse_message_pong, parse_message_motd, parse_message_lusers, parse_message_whois,
  parse_message_join, parse_message_part, parse_message_list, parse_message_topic,
  parse_message_names, parse_message_away, message_type, parse_as, parse_message,
}
use circ.Connection.{conn_read_store_buffer}
use circ.Sending.{format, enqueue, push_reply, send_all, client_try_empty_buffer, client_send}
use circ.Channel.{
  channel_verify_name, channel_new, forward, channel_send_message, channel_sendall_join,
  channel_sendall_part, channel_sendall_privmsg, channel_join, channel_is_member,
  channel_remove_member, channel_size, channel_set_topic,
}
use circ.Server.{
  start_server, server_generate_id, server_get_channel, server_create_channel,
  server_remove_channel,
}
use circ.Client.{
  client_try_register, set_nickname, client_try_change_nick, client_set_away, client_unset_away,
  client_join_channel, new_client, server_accept, client_closed,
}
use circ.Handlers.{handle_as, handle_message}
use circ.Handlers.Basic.{
  num_parts, motd_parts, find_nick, find_client, enqueue?, handler_unknown, nick_changed,
  handler_nick, handler_user, handler_ping, handler_pong, push_parts, handler_motd, push_if,
  handler_lusers, whois_found, handler_whois,
}
use circ.Handlers.Talk.{
  privmsg_channel, privmsg_deliver, privmsg_nick, handler_privmsg, handler_away,
}
use circ.Handlers.Rooms.{
  split_commas, nicknames, push_names, join_or_create, push_topic, join_one, join_all, handler_join,
  part_leave, part_found, handler_part, push_list, list_all, list_named, handler_list, topic_query,
  topic_set, handler_topic, names_all, handler_names,
}
use circ.ReadMessage.{
  strncrlf, take_message, truncate_message, read_round, read_rounds, conn_read_message,
}
use circ.HandleRead.{
  set_conn, run_handler, handle_one, handle_all, read_and_handle, client_handle_read,
}
use circ.Replies.{
  nick_or_star, rpl_welcome, rpl_motd_start, rpl_motd, rpl_end_of_motd, err_no_such_nick,
  err_no_motd, err_no_nickname_given, err_nickname_in_use, err_need_more_params, err_no_recipient,
  err_no_text_to_send, rpl_luser_client, rpl_luser_op, rpl_luser_unknown, rpl_luser_channels,
  rpl_luser_me, rpl_whois_user, rpl_whois_server, rpl_end_of_whois, err_already_registered,
  err_unknown_command, err_not_registered, pong,
}
use circ.Replies.Decimal.{decimal, signed_decimal, decimal3}
use circ.Replies.Channels.{
  message_privmsg, message_join, part_text, message_part, rpl_topic, rpl_no_topic, spaced,
  rpl_nam_reply, rpl_end_of_names, err_no_such_channel, err_not_on_channel, rpl_list_start,
  rpl_list, rpl_list_end, rpl_unaway, rpl_nowaway, rpl_away,
}
use circ.Base.{str_eq, to_lower}
use circ.Tests.Tables.{tables}

unfoldable pub program : Unit {0}
unfolding pure ◌>>=◌ ◌>>◌ fault get_server modify_server load_client store_client modify_client
    maybe load_channel store_channel deref alloc_client alloc_channel write read_string read_string?
    lower_in_place skip_spaces strstr_crlf find_space token_before token_at msgtok_r msgtok
    parse_message_nick parse_message_user parse_message_privmsg parse_message_ping
    parse_message_pong parse_message_motd parse_message_lusers parse_message_whois
    parse_message_join parse_message_part parse_message_list parse_message_topic parse_message_names
    parse_message_away message_type parse_as parse_message conn_read_store_buffer format enqueue
    push_reply send_all client_try_empty_buffer client_send channel_verify_name channel_new forward
    channel_send_message channel_sendall_join channel_sendall_part channel_sendall_privmsg
    channel_join channel_is_member channel_remove_member channel_size channel_set_topic start_server
    server_generate_id server_get_channel server_create_channel server_remove_channel
    client_try_register set_nickname client_try_change_nick client_set_away client_unset_away
    client_join_channel new_client server_accept client_closed handle_as handle_message num_parts
    motd_parts find_nick find_client enqueue? handler_unknown nick_changed handler_nick handler_user
    handler_ping handler_pong push_parts handler_motd push_if handler_lusers whois_found
    handler_whois privmsg_channel privmsg_deliver privmsg_nick handler_privmsg handler_away
    split_commas nicknames push_names join_or_create push_topic join_one join_all handler_join
    part_leave part_found handler_part push_list list_all list_named handler_list topic_query
    topic_set handler_topic names_all handler_names strncrlf take_message truncate_message
    read_round read_rounds conn_read_message set_conn run_handler handle_one handle_all
    read_and_handle client_handle_read nick_or_star rpl_welcome rpl_motd_start rpl_motd
    rpl_end_of_motd err_no_such_nick err_no_motd err_no_nickname_given err_nickname_in_use
    err_need_more_params err_no_recipient err_no_text_to_send rpl_luser_client rpl_luser_op
    rpl_luser_unknown rpl_luser_channels rpl_luser_me rpl_whois_user rpl_whois_server
    rpl_end_of_whois err_already_registered err_unknown_command err_not_registered pong decimal
    signed_decimal decimal3 message_privmsg message_join part_text message_part rpl_topic
    rpl_no_topic spaced rpl_nam_reply rpl_end_of_names err_no_such_channel err_not_on_channel
    rpl_list_start rpl_list rpl_list_end rpl_unaway rpl_nowaway rpl_away str_eq to_lower tables
program = tt
