-- ===== src/SessionManager/Tests.antt =====
-- Two clients at endpoints that are numbers.
use micro_xrce_dds_agent.Common.{ℕ, ◌≡◌, [], some}
use micro_xrce_dds_agent.Common.Map.{nat_eq, find}
use micro_xrce_dds_agent.SessionManager.{
  SessionManager, establish_session, destroy_session_of_client, get_client_key,
}
use micro_xrce_dds_agent.SessionManager.Consistency.{
  IsConsistent, establish_session-IsConsistent, get_client_key-establish_session,
  destroy_session_of_client-IsConsistent,
}

abbrev empty : SessionManager ℕ
empty = record { endpoint_to_client_map = []; client_to_endpoint_map = [] }

empty-IsConsistent : IsConsistent empty
unfolding get_client_key find
empty-IsConsistent e k found = cc

establish_session-IsConsistent_example : IsConsistent (establish_session empty 7 42 129)
establish_session-IsConsistent_example =
    establish_session-IsConsistent empty 7 42 129 empty-IsConsistent

destroy_session_of_client-IsConsistent_example :
    IsConsistent (destroy_session_of_client (establish_session empty 7 42 129) 42)
destroy_session_of_client-IsConsistent_example =
    destroy_session_of_client-IsConsistent (establish_session empty 7 42 129) 42
      (establish_session-IsConsistent empty 7 42 129 empty-IsConsistent)

get_client_key-establish_session_example :
    get_client_key (establish_session empty 7 42 129) 7 ≡ some 42
get_client_key-establish_session_example = get_client_key-establish_session empty 7 42 129 7
