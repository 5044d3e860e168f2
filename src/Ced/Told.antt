-- ===== src/Ced/Told.antt =====
-- What every operation of a `CedTopicManager` (src/cpp/middleware/ced/CedEntities.cpp) leaves of
-- what its callbacks are told.
use micro_xrce_dds_agent.Common.{
  ℕ, ◌≡◌, refl, sym, subst, [], ◌++◌, some, if◌then◌else◌, is_empty, Option-cases, if_each, ◌⊎◌,
  inl, inr, ◌==◌,
}
use micro_xrce_dds_agent.Common.Int.{ℤ}
use micro_xrce_dds_agent.Common.Map.{
  nat_eq, octets_eq, Map, find, erase, emplace, assign, find_of_erased, find-emplace_inv,
}
use micro_xrce_dds_agent.Ced.GlobalTopic.{GlobalTopic, TopicSource}
use micro_xrce_dds_agent.Ced.Manager.{
  Name, int_eq, Call, new_topic, CedTopicManager, topic_calls, call_all, names_of,
  register_on_new_topic_cb, register_domain, lock, register_topic, unregister_topic, release,
}
use micro_xrce_dds_agent.Ced.Informed.{
  WasMade, WasMade-append, found-call_all, IsRegistered, found-topic_calls, IsRegistered-assign,
  IsRegistered-erase,
}

-- Every callback for topics was called for every topic that is registered.
pub record IsInformed (m : CedTopicManager) : Type 0 where
  pub told :
      (key cb : ℕ) (domain : ℤ) (name : Name)
      → find key m.on_new_topic_map ≡ some cb
      → IsRegistered domain name m.topics
      → WasMade (new_topic cb domain name) m.calls

-- With no other callbacks, no more topics and all the calls, a manager stays informed.
pub no_more-IsInformed :
    (m m' : CedTopicManager)
    → ((key cb : ℕ)
        → find key m'.on_new_topic_map ≡ some cb
        → find key m.on_new_topic_map ≡ some cb)
    → ((domain : ℤ) (name : Name)
        → IsRegistered domain name m'.topics
        → IsRegistered domain name m.topics)
    → ((c : Call) → WasMade c m.calls → WasMade c m'.calls)
    → IsInformed m
    → IsInformed m'
no_more-IsInformed m m' callbacks topics calls ok = record {
  told = λ key cb domain name registered there.
      calls _ (ok.told key cb domain name (callbacks key cb registered) (topics domain name there));
}

register_domain-IsInformed :
    (domain : ℤ) (m : CedTopicManager) → IsInformed m → IsInformed (register_domain domain m)
unfolding register_domain find
register_domain-IsInformed domain m ok = elim (Option-cases (find domain m.topics)) [
  | inr (names, there) ↦ rw (there, register_domain) ok
  | inl absent ↦
      rw (absent, register_domain)
        (no_more-IsInformed m _ (λ key cb e. e) fewer (λ c made. WasMade-append c _ _ (inr made))
          ok)
]
  where
    fewer :
        (d : ℤ) (name : Name)
        → IsRegistered d name (assign domain [] m.topics)
        → IsRegistered d name m.topics
    fewer d name there = elim (IsRegistered-assign domain d name [] m.topics there) [
      | inl (same, (w, found)) ↦ cc
      | inr before ↦ before
    ]

lock-IsInformed : (w : ℕ) (m : CedTopicManager) → IsInformed m → IsInformed (lock w m).1
unfolding lock
lock-IsInformed w m ok = elim (Option-cases (find w m.heap)) [
  | inl gone ↦ rw (gone, lock) ok
  | inr (cell, there) ↦
      rw (there, lock) (no_more-IsInformed m _ (λ key cb e. e) (λ d name e. e) (λ c e. e) ok)
]

-- The topic that is new is registered now, and all callbacks are called for it.
new_topic-IsInformed :
    (domain : ℤ) (name : Name) (w : ℕ) (m m' : CedTopicManager)
    → m'.on_new_topic_map ≡ m.on_new_topic_map
    → m'.topics ≡ assign domain (emplace name w (names_of domain m.topics)) m.topics
    → m'.calls ≡ call_all (λ cb. new_topic cb domain name) m.on_new_topic_map ++ m.calls
    → IsInformed m
    → IsInformed m'
new_topic-IsInformed domain name w m m' callbacks topics calls ok = record {
  told = λ key cb d other registered there. subst (WasMade (new_topic cb d other)) (sym calls) (
      WasMade-append _ _ m.calls (
        told_of key cb d other (subst (λ c. find key c ≡ some cb) callbacks registered)
          (subst (IsRegistered d other) topics there)));
}
  where
    told_of :
        (key cb : ℕ) (d : ℤ) (other : Name)
        → find key m.on_new_topic_map ≡ some cb
        → IsRegistered d other (assign domain (emplace name w (names_of domain m.topics)) m.topics)
        → WasMade
            (new_topic cb d other)
            (call_all (λ cb. new_topic cb domain name) m.on_new_topic_map)
          ⊎ WasMade (new_topic cb d other) m.calls
    told_of key cb d other registered there =
        elim (IsRegistered-assign domain d other _ m.topics there) [
          | inr before ↦ inr (ok.told key cb d other registered before)
          | inl (same, (v, found)) ↦
              elim (find-emplace_inv name other w v (names_of domain m.topics) found) [
                | inl before ↦ inr (
                    subst (λ x. WasMade (new_topic cb x other) m.calls) same
                      (ok.told key cb domain other registered (v, before)))
                | inr (is_name, is_new) ↦ inl (
                    subst
                      (λ c.
                        WasMade c (call_all (λ cb. new_topic cb domain name) m.on_new_topic_map))
                      (cc)
                      (found-call_all (λ cb. new_topic cb domain name) key cb m.on_new_topic_map
                        registered))
              ]
        ]

pub register_topic-IsInformed :
    (uninitialised : ℕ → TopicSource) (name : Name) (domain : ℤ) (m : CedTopicManager)
    → IsInformed m
    → IsInformed (register_topic uninitialised name domain m).1
unfolding register_topic
register_topic-IsInformed uninitialised name domain m ok =
    let m' = register_domain domain m in
    let ok' = register_domain-IsInformed domain m ok in
    elim (Option-cases (find name (names_of domain m'.topics))) [
      | inl absent ↦
          rw (absent, register_topic)
            (new_topic-IsInformed domain name m'.next m' _ refl refl refl ok')
      | inr (w, there) ↦ rw (there, register_topic) (lock-IsInformed w m' ok')
    ]

pub register_on_new_topic_cb-IsInformed :
    (key cb : ℕ) (m : CedTopicManager)
    → IsInformed m
    → IsInformed (register_on_new_topic_cb key cb m)
unfolding register_on_new_topic_cb
register_on_new_topic_cb-IsInformed key cb m ok = record {
  told = λ k b domain name registered there.
      WasMade-append _ (topic_calls cb m.topics) m.calls
        (elim (find-emplace_inv key k cb b m.on_new_topic_map registered) [
          | inl before ↦ inr (ok.told k b domain name before there)
          | inr (same, is) ↦ inl (
              subst (λ x. WasMade (new_topic x domain name) (topic_calls cb m.topics)) is
                (found-topic_calls cb domain name m.topics there))
        ]);
}

unregister_topic-IsInformed :
    (name : Name) (domain : ℤ) (m : CedTopicManager)
    → IsInformed m
    → IsInformed (unregister_topic name domain m).1
unfolding unregister_topic
unregister_topic-IsInformed name domain m ok = elim (Option-cases (find domain m.topics)) [
  | inl absent ↦ rw (absent, unregister_topic) ok
  | inr (names, there) ↦ elim (Option-cases (find name names)) [
    | inl absent ↦ rw (there, absent, unregister_topic) ok
    | inr (w, found) ↦ elim (Option-cases (find w m.heap)) [
      | inr (cell, owned) ↦ rw (there, found, owned, unregister_topic) ok
      | inl expired ↦
          rw (there, found, expired, unregister_topic)
            (no_more-IsInformed m _ (λ key cb e. e) (fewer names there) (λ c e. e) ok)
    ]
  ]
]
  where
    fewer :
        (names : Map Name ℕ)
        → find domain m.topics ≡ some names
        → (d : ℤ) (other : Name)
        → IsRegistered d other (
            if is_empty (erase name names)
            then erase domain m.topics
            else assign domain (erase name names) m.topics)
        → IsRegistered d other m.topics
    fewer names there d other =
        if_each (λ topics. IsRegistered d other topics → IsRegistered d other m.topics)
          (is_empty (erase name names)) _ _ (IsRegistered-erase domain d other m.topics)
          (λ e. elim (IsRegistered-assign domain d other (erase name names) m.topics e) [
            | inr before ↦ before
            | inl (same, (w, found)) ↦
                let at_d : find d m.topics ≡ some names =
                  subst (λ x. find x m.topics ≡ some names) same there in
                (w, rw (at_d, names_of) (find_of_erased name other w names found).0)
          ])

pub release-IsInformed : (w : ℕ) (m : CedTopicManager) → IsInformed m → IsInformed (release w m)
unfolding release
release-IsInformed w m ok = elim (Option-cases (find w m.heap)) [
  | inl gone ↦ rw (gone, release) ok
  | inr ((owners, t), there) ↦
      rw (there, release)
        (if_each IsInformed (owners == 1) _ _
          (unregister_topic-IsInformed t.name t.domain_id _ (same_topics _)) (same_topics _))
]
  where
    same_topics : (heap : Map ℕ (ℕ × GlobalTopic)) → IsInformed (record m { heap = heap })
    same_topics heap = no_more-IsInformed m _ (λ key cb e. e) (λ d name e. e) (λ c e. e) ok
