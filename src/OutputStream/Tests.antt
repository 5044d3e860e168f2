-- ===== src/OutputStream/Tests.antt =====
-- A reliable output stream with one message.
use micro_xrce_dds_agent.Common.{
  ℕ, ◌<◌, ◌≡◌, refl, Bool, true, [], ◌∷◌, none, some, inl, inr, ◌⊎◌, arith,
}
use micro_xrce_dds_agent.Cdr.ListCdr.{list_cdr}
use micro_xrce_dds_agent.Message.Header.{MessageHeader}
use micro_xrce_dds_agent.Message.Output
use micro_xrce_dds_agent.Message.Output.{OutputMessage}
use micro_xrce_dds_agent.OutputStream.Types.{SessionInfo}
use micro_xrce_dds_agent.OutputStream.BestEffort.{next_header}
use micro_xrce_dds_agent.OutputStream.Reliable.{
  ReliableOutputStream, init, push_next, get_next_message, get_message, update_from_acknack,
}
use micro_xrce_dds_agent.OutputStream.Reliable.Window.{
  Window, init-Window, push_next-Window, get_next_message-Window, get_message-Window,
  update_from_acknack-Window,
}

abbrev info : SessionInfo
info = record { client_key = 1 ∷ 2 ∷ 3 ∷ 4 ∷ []; session_id = 1; mtu = 16 }

-- A message of a header only.
abbrev build : MessageHeader → Bool × OutputMessage list_cdr
build h = (true, Output.create list_cdr h 8)

abbrev pub message : ℕ → OutputMessage list_cdr
message i = (build (next_header info 128 i)).1

abbrev one : ReliableOutputStream list_cdr
one = (push_next list_cdr build info 128 (init list_cdr)).1

abbrev pub taken_one : ReliableOutputStream list_cdr
taken_one = (get_next_message list_cdr one).1

push_next-Window_example :
    ((push_next list_cdr build info 128 (init list_cdr)).0 ≡ true)
    × Window list_cdr message 0 0 1 one
push_next-Window_example =
    push_next-Window list_cdr message build info 128 0 0 0 (init list_cdr) (omega arith) refl
      (init-Window list_cdr message)

one-Window : Window list_cdr message 0 0 1 one
one-Window =
    (push_next-Window list_cdr message build info 128 0 0 0 (init list_cdr) (omega arith) refl
      (init-Window list_cdr message)).1

get_next_message-Window_example :
    ((0 < 1)
      × ((get_next_message list_cdr one).0 ≡ some (some (message 0)))
      × Window list_cdr message 0 1 1 taken_one)
    ⊎ ((let n : ℕ = 0 in n ≡ 1) × (get_next_message list_cdr one ≡ (none, one)))
get_next_message-Window_example = get_next_message-Window list_cdr message 0 0 1 one one-Window

get_message-Window_example : get_message list_cdr 0 one ≡ some (message 0)
get_message-Window_example =
    get_message-Window list_cdr message 0 0 1 0 one (omega arith) (omega arith) one-Window

pub taken_one-Window : Window list_cdr message 0 1 1 taken_one
taken_one-Window = elim (get_next_message-Window list_cdr message 0 0 1 one one-Window) [
  | inl (_, _, v) ↦ v
  | inr (none_left, _) ↦ absurd (omega arith)
]

update_from_acknack-Window_example :
    Window list_cdr message 1 1 1 (update_from_acknack list_cdr 1 taken_one)
update_from_acknack-Window_example =
    update_from_acknack-Window list_cdr message 0 1 1 1 taken_one (omega arith) (omega arith)
      taken_one-Window
