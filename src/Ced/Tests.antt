-- ===== src/Ced/Tests.antt =====
-- A topic with two samples, the manager with a callback, and a client with a few entities.
use micro_xrce_dds_agent.Common.{
  length, ℕ, ◌≡◌, refl, true, false, List, [], ◌∷◌, ◌++◌, none, drop, arith,
}
use micro_xrce_dds_agent.Common.Int.{pos}
use micro_xrce_dds_agent.Common.Map.{nat_eq, octets_eq, pair_eq, find, erase, emplace}
use micro_xrce_dds_agent.Object.{participant, ObjectVariant, by_reference}
use micro_xrce_dds_agent.Object.Id.{objectid_to_raw}
use micro_xrce_dds_agent.Client.Types.{ObjectStore}
use micro_xrce_dds_agent.Client.Objects.{create_object}
use micro_xrce_dds_agent.Client.Prefix.{has}
use micro_xrce_dds_agent.SeqNum.{increment, add_int}
use micro_xrce_dds_agent.Ced.GlobalTopic.{
  external_access, Access, TopicSource, internal, external, internal_access, complete_access,
  GlobalTopic, global_topic, check_access, put, put_all, get_data, wait_until, read, read_now,
}
use micro_xrce_dds_agent.Ced.Log.{seq, resumed}
use micro_xrce_dds_agent.Ced.Delivery.{received, permitted}
use micro_xrce_dds_agent.Ced.Published.{write_all, accepted, received-write_all}
use micro_xrce_dds_agent.Ced.Names.{
  remove_suffix_form_topic_ref, remove_suffix_form_datawriter_ref,
  remove_suffix_form_datareader_ref, topic_suffix, datawriter_suffix, datareader_suffix,
  remove_suffix-append, find_text,
}
use micro_xrce_dds_agent.Ced.Manager.{register_topic, register_on_new_topic_cb}
use micro_xrce_dds_agent.Ced.Told.{IsInformed}
use micro_xrce_dds_agent.Ced.Notified.{
  here, next, topic_cb, registered, no_topics, Reach-IsInformed,
}
use micro_xrce_dds_agent.Ced.Store.{Store}
use micro_xrce_dds_agent.Ced.Entities.{
  Ced, ced_middleware, delete_entity, create_participant_by_ref, create_subscriber_by_xml,
  create_datareader_by_ref, has_value,
}
use micro_xrce_dds_agent.Ced.Middleware.{Binary, ced}
use micro_xrce_dds_agent.Ced.Live.{live}
use micro_xrce_dds_agent.Ced.Client.{new, created, Reached-AreOwned}

abbrev memory : ℕ → TopicSource
memory i = internal

abbrev empty_topic : GlobalTopic
empty_topic = global_topic memory [] (pos 0)

-- A client's sample and one of another agent, which a reader with access to those of clients does
-- not get.
abbrev writes : List (List ℕ × Access × TopicSource)
writes = (7 ∷ [], complete_access, internal) ∷ (8 ∷ [], external_access, external) ∷ []

received-write_all_example :
    received 17 internal_access (write_all writes (global_topic memory [] (pos 0))) (seq 0)
    ≡ permitted internal_access (drop (resumed (length (accepted writes)) 0) (accepted writes))
received-write_all_example =
    received-write_all memory [] (pos 0) writes internal_access 0 (omega arith)

-- Of two samples that are written before the time is over, the reader looks at the first one only,
-- and times out though it may read the second one.
waits_too_long :
    (read internal_access
      (((external, 1 ∷ []) ∷ (internal, 2 ∷ []) ∷ []) ∷ [])
      empty_topic
      65535).0.0
    ≡ none
unfolding read read_now wait_until put_all put get_data check_access global_topic increment add_int
waits_too_long = refl

abbrev square : List ℕ
square = b'S' ∷ b'q' ∷ []

remove_suffix-append_example :
    (remove_suffix_form_topic_ref (square ++ (topic_suffix ++ [])) ≡ square)
    × (remove_suffix_form_datawriter_ref (square ++ (datawriter_suffix ++ [])) ≡ square)
    × (remove_suffix_form_datareader_ref (square ++ (datareader_suffix ++ [])) ≡ square)
    × (remove_suffix_form_topic_ref square ≡ square)
    × (remove_suffix_form_datawriter_ref square ≡ square)
    × (remove_suffix_form_datareader_ref square ≡ square)
unfolding find_text
remove_suffix-append_example = remove_suffix-append square [] refl refl refl

Reach-IsInformed_example :
    IsInformed (register_on_new_topic_cb 1 1 (register_topic memory square (pos 0) no_topics).1)
Reach-IsInformed_example = Reach-IsInformed memory (
    next (next here (registered square (pos 0) no_topics))
      (topic_cb 1 1 (register_topic memory square (pos 0) no_topics).1))

abbrev no_binary : Binary
no_binary = record {
  participant_domain = λ domain endianness octets. domain;
  topic_name = λ endianness octets. octets;
  datawriter_topic = λ endianness octets. (0, 0);
  datareader_topic = λ endianness octets. (0, 0);
}

abbrev store : Store
store = record { manager = no_topics; participants = []; topics = []; next = 0; faulted = false }

-- A participant in the domain 0.
abbrev variant : ObjectVariant
variant = record { d = 1; domain_id = pos 0; parent_id = (0, 0); representation = by_reference [] }

abbrev client : ObjectStore Ced
client =
    (create_object (ced memory no_binary) (record { reuse = false; replace = false }) (1, 32)
      variant (record { objects = []; world = ced_middleware 1 store })).1

Reached-AreOwned_example :
    live client.world.tables participant (objectid_to_raw (1, 33))
    ≡ has client.objects participant (1, 33)
Reached-AreOwned_example =
    Reached-AreOwned memory no_binary 1 store
      (created (record { reuse = false; replace = false }) (1, 32) variant new
        (omega arith, omega arith) (omega arith))
      participant (1, 33) (omega arith, omega arith)

-- A data reader is made of a subscriber whose participant was deleted.
abbrev orphan : Ced
orphan =
    let w = (create_participant_by_ref 18 (pos 0) (ced_middleware 1 store)).1 in
    let w' = (create_subscriber_by_xml 18 18 w).1 in (delete_entity participant 18 w').1

follows_the_reference : (create_datareader_by_ref 18 18 square orphan).1.store.faulted ≡ true
unfolding create_datareader_by_ref delete_entity create_subscriber_by_xml create_participant_by_ref
    ced_middleware find erase emplace has_value
follows_the_reference = refl
