-- ===== src/Ced/Manager.antt =====
-- The topics of all clients (`CedTopicManager` in src/cpp/middleware/ced/CedEntities.cpp). Every
-- function holds the lock. A topic is shared; `heap` has the topics that have owners, with their
-- number, so that a `weak_ptr` to a number that is not there has expired. A callback is a number,
-- and its calls are kept, the last one first.
use micro_xrce_dds_agent.Common.{
  ℕ, suc, ◌-◌, Bool, true, false, List, [], ◌∷◌, ◌++◌, Option, none, some, ◌==◌, if◌then◌else◌,
  is_empty, ◌≡◌, ◌↔◌, arith,
}
use micro_xrce_dds_agent.Common.Int.{ℤ, pos, negsuc}
use micro_xrce_dds_agent.Common.Map.{Eq, nat_eq, octets_eq, Map, find, erase, emplace, assign}
use micro_xrce_dds_agent.Ced.GlobalTopic.{GlobalTopic, TopicSource, global_topic}

abbrev pub int_beq : ℤ → ℤ → Bool
int_beq (pos m) (pos n) = m == n
int_beq (negsuc m) (negsuc n) = m == n
int_beq (pos m) (negsuc n) = false
int_beq (negsuc m) (pos n) = false

pub int_beq_iff : (a b : ℤ) → (int_beq a b ≡ true) ↔ (a ≡ b)
int_beq_iff a b = ground arith

instance abbrev pub int_eq : Eq ℤ
int_eq = record { beq = int_beq; beq_iff = int_beq_iff }

abbrev pub Name : Type 0
Name = List ℕ

pub data Call : Type 0 where
  new_domain : ℕ → ℤ → Call
  new_topic : ℕ → ℤ → Name → Call

pub record CedTopicManager : Type 0 where
  pub on_new_domain_map : Map ℕ ℕ
  pub on_new_topic_map : Map ℕ ℕ
  pub topics : Map ℤ (Map Name ℕ)
  pub heap : Map ℕ (ℕ × GlobalTopic)
  pub next : ℕ
  pub calls : List Call

-- `for (auto& topic : topics_)`, and for each domain the loop over its topics.
unfoldable pub domain_calls : ℕ → Map ℤ (Map Name ℕ) → List Call
domain_calls cb [] = []
domain_calls cb ((domain, names) ∷ rest) = new_domain cb domain ∷ domain_calls cb rest

unfoldable pub names_calls : ℕ → ℤ → Map Name ℕ → List Call → List Call
names_calls cb domain [] others = others
names_calls cb domain ((name, w) ∷ rest) others =
    new_topic cb domain name ∷ names_calls cb domain rest others

unfoldable pub topic_calls : ℕ → Map ℤ (Map Name ℕ) → List Call
topic_calls cb [] = []
topic_calls cb ((domain, names) ∷ rest) = names_calls cb domain names (topic_calls cb rest)

unfoldable pub register_on_new_domain_cb : ℕ → ℕ → CedTopicManager → CedTopicManager
register_on_new_domain_cb key cb m = record m {
  calls = domain_calls cb m.topics ++ m.calls;
  on_new_domain_map = emplace key cb m.on_new_domain_map;
}

unfoldable pub unregister_on_new_domain_cb : ℕ → CedTopicManager → CedTopicManager
unregister_on_new_domain_cb key m = record m { on_new_domain_map = erase key m.on_new_domain_map }

unfoldable pub register_on_new_topic_cb : ℕ → ℕ → CedTopicManager → CedTopicManager
register_on_new_topic_cb key cb m = record m {
  calls = topic_calls cb m.topics ++ m.calls;
  on_new_topic_map = emplace key cb m.on_new_topic_map;
}

unfoldable pub unregister_on_new_topic_cb : ℕ → CedTopicManager → CedTopicManager
unregister_on_new_topic_cb key m = record m { on_new_topic_map = erase key m.on_new_topic_map }

-- The calls of all callbacks.
unfoldable pub call_all : (ℕ → Call) → Map ℕ ℕ → List Call
call_all call [] = []
call_all call ((key, cb) ∷ rest) = call cb ∷ call_all call rest

-- `Register domain`.
unfoldable pub register_domain : ℤ → CedTopicManager → CedTopicManager
register_domain domain m = elim (find domain m.topics) [
  | some names ↦ m
  | none ↦ record m {
    topics = assign domain [] m.topics;
    calls = call_all (λ cb. new_domain cb domain) m.on_new_domain_map ++ m.calls;
  }
]

-- `topics_[domain_id]`.
abbrev pub names_of : ℤ → Map ℤ (Map Name ℕ) → Map Name ℕ
names_of domain topics = elim (find domain topics) [ none ↦ [] | some names ↦ names ]

-- `lock()`, which makes one more owner.
unfoldable pub lock : ℕ → CedTopicManager → Option ℕ × CedTopicManager
lock w m = elim (find w m.heap) [
  | none ↦ (none, m)
  | some (owners, t) ↦ (some w, record m { heap = assign w (suc owners, t) m.heap })
]

-- The topic, which its caller owns then, and the manager; a `shared_ptr` that is empty is `none`.
-- The first argument is what is in memory where a topic is made.
unfoldable pub register_topic :
    (ℕ → TopicSource) → Name → ℤ → CedTopicManager → Option ℕ × CedTopicManager
register_topic uninitialised name domain m =
    let m' = register_domain domain m in
    elim (find name (names_of domain m'.topics)) [
      | some w ↦ lock w m'
      | none ↦ (
        some m'.next,
        record m' {
          calls = call_all (λ cb. new_topic cb domain name) m'.on_new_topic_map ++ m'.calls;
          topics = assign domain (emplace name m'.next (names_of domain m'.topics)) m'.topics;
          heap = (m'.next, (1, global_topic uninitialised name domain)) ∷ m'.heap;
          next = suc m'.next;
        },
      )
    ]

unfoldable pub unregister_topic : Name → ℤ → CedTopicManager → Bool × CedTopicManager
unregister_topic name domain m = elim (find domain m.topics) [
  | none ↦ (false, m)
  | some names ↦ (elim (find name names) [
    | none ↦ (false, m)
    | some w ↦ (elim (find w m.heap) [
      | some owned ↦ (false, m)
      | none ↦
          (let left = erase name names in
            (
              true,
              record m {
                topics =
                    if is_empty left then erase domain m.topics else assign domain left m.topics;
              },
            ))
    ])
  ])
]

-- An owner of a topic goes. With the last one the topic goes, and is unregistered.
unfoldable pub release : ℕ → CedTopicManager → CedTopicManager
release w m = elim (find w m.heap) [
  | none ↦ m
  | some (owners, t) ↦
      if owners == 1
      then (unregister_topic t.name t.domain_id (record m { heap = erase w m.heap })).1
      else record m { heap = assign w (owners - 1, t) m.heap }
]
