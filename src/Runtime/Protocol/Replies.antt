-- ===== src/Runtime/Protocol/Replies.antt =====
-- runtime/protocol.py: the classes of the gateway's answers to the tools.
use tri_onyx.Runtime.Json.{string, array, object, nil, Members, empty, find_or}
use tri_onyx.Runtime.Protocol.Classes.{
  Message, reply_of, send_message_response, send_email_response, github_response,
  save_draft_response, move_email_response, create_folder_response, restart_agent_response,
  calendar_query_response, calendar_create_response, calendar_update_response,
  calendar_delete_response, submit_item_response, submit_image_response, submit_page_response,
  speak_response,
}

unfoldable pub send_message_from_dict : Members → Message
unfolding reply_of
send_message_from_dict d = send_message_response (reply_of d)

unfoldable pub send_email_from_dict : Members → Message
unfolding reply_of find_or
send_email_from_dict d = send_email_response (reply_of d) (find_or "message_id" (string "") d)

unfoldable pub github_from_dict : Members → Message
unfolding reply_of find_or
github_from_dict d = github_response (reply_of d) (find_or "output" (string "") d)

unfoldable pub save_draft_from_dict : Members → Message
unfolding reply_of
save_draft_from_dict d = save_draft_response (reply_of d)

unfoldable pub move_email_from_dict : Members → Message
unfolding reply_of
move_email_from_dict d = move_email_response (reply_of d)

unfoldable pub create_folder_from_dict : Members → Message
unfolding reply_of
create_folder_from_dict d = create_folder_response (reply_of d)

unfoldable pub restart_agent_from_dict : Members → Message
unfolding reply_of
restart_agent_from_dict d = restart_agent_response (reply_of d)

unfoldable pub calendar_query_from_dict : Members → Message
unfolding reply_of find_or
calendar_query_from_dict d = calendar_query_response (reply_of d) (find_or "events" (array nil) d)

unfoldable pub calendar_create_from_dict : Members → Message
unfolding reply_of find_or
calendar_create_from_dict d =
    calendar_create_response (reply_of d) (find_or "event" (object empty) d)

unfoldable pub calendar_update_from_dict : Members → Message
unfolding reply_of find_or
calendar_update_from_dict d =
    calendar_update_response (reply_of d) (find_or "event" (object empty) d)

unfoldable pub calendar_delete_from_dict : Members → Message
unfolding reply_of
calendar_delete_from_dict d = calendar_delete_response (reply_of d)

unfoldable pub submit_item_from_dict : Members → Message
unfolding reply_of
submit_item_from_dict d = submit_item_response (reply_of d)

unfoldable pub submit_image_from_dict : Members → Message
unfolding reply_of
submit_image_from_dict d = submit_image_response (reply_of d)

unfoldable pub submit_page_from_dict : Members → Message
unfolding reply_of
submit_page_from_dict d = submit_page_response (reply_of d)

unfoldable pub speak_from_dict : Members → Message
unfolding reply_of
speak_from_dict d = speak_response (reply_of d)
