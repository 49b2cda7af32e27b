-- ===== src/Conn/InProgress.antt =====
-- Which event occupies which slot of a connection (src/conninline.h). The assertions of these
-- functions are debugging aids that change nothing.
use connio.Prelude.{ℕ, none, some}
use connio.Conn.{Conn, ConnState, ConnEventClass, class_connect, class_receive, class_send}

unfoldable pub conn_change_state : Conn → ConnState → Conn
conn_change_state c s = record c { state = s }

unfoldable pub conn_event_connect_in_progress_set : Conn → ℕ → Conn
conn_event_connect_in_progress_set c ce = record c {
  active = record c.active { connect = some ce };
}

unfoldable pub conn_event_receive_in_progress_set : Conn → ℕ → Conn
conn_event_receive_in_progress_set c ce = record c {
  active = record c.active { receive = some ce };
}

unfoldable pub conn_event_send_in_progress_set : Conn → ℕ → Conn
conn_event_send_in_progress_set c ce = record c { active = record c.active { send = some ce } }

-- The event is named by the source for its log and its assertion alone.
unfoldable pub conn_event_connect_in_progress_clear : Conn → ℕ → Conn
conn_event_connect_in_progress_clear c ce = record c { active = record c.active { connect = none } }

unfoldable pub conn_event_receive_in_progress_clear : Conn → ℕ → Conn
conn_event_receive_in_progress_clear c ce = record c { active = record c.active { receive = none } }

unfoldable pub conn_event_send_in_progress_clear : Conn → ℕ → Conn
conn_event_send_in_progress_clear c ce = record c { active = record c.active { send = none } }

set_slot : ConnEventClass → Conn → ℕ → Conn
unfolding conn_event_connect_in_progress_set conn_event_receive_in_progress_set
    conn_event_send_in_progress_set
set_slot class_connect c ce = conn_event_connect_in_progress_set c ce
set_slot class_receive c ce = conn_event_receive_in_progress_set c ce
set_slot class_send c ce = conn_event_send_in_progress_set c ce

unfoldable pub conn_event_in_progress_set : Conn → ℕ → Conn
unfolding set_slot
conn_event_in_progress_set c ce = set_slot (c.events.event_class ce) c ce

clear_slot : ConnEventClass → Conn → ℕ → Conn
unfolding conn_event_connect_in_progress_clear conn_event_receive_in_progress_clear
    conn_event_send_in_progress_clear
clear_slot class_connect c ce = conn_event_connect_in_progress_clear c ce
clear_slot class_receive c ce = conn_event_receive_in_progress_clear c ce
clear_slot class_send c ce = conn_event_send_in_progress_clear c ce

unfoldable pub conn_event_in_progress_clear : Conn → ℕ → Conn
unfolding clear_slot
conn_event_in_progress_clear c ce = clear_slot (c.events.event_class ce) c ce
