-- ===== src/Ced/Notified.antt =====
-- Every callback is told of every topic (`CedTopicManager` in
-- src/cpp/middleware/ced/CedEntities.cpp), whatever happens in whatever order.
use micro_xrce_dds_agent.Common.{ℕ, [], inr}
use micro_xrce_dds_agent.Common.Int.{ℤ}
use micro_xrce_dds_agent.Common.Map.{nat_eq, octets_eq, find, find_of_erased}
use micro_xrce_dds_agent.Ced.GlobalTopic.{TopicSource}
use micro_xrce_dds_agent.Ced.Manager.{
  Name, int_eq, CedTopicManager, register_on_new_domain_cb, unregister_on_new_domain_cb,
  register_on_new_topic_cb, unregister_on_new_topic_cb, register_topic, release,
}
use micro_xrce_dds_agent.Ced.Informed.{WasMade-append}
use micro_xrce_dds_agent.Ced.Told.{
  IsInformed, no_more-IsInformed, register_on_new_topic_cb-IsInformed, register_topic-IsInformed,
  release-IsInformed,
}

-- What happens to the manager: callbacks come and go, and topics are made, shared and given up by
-- the clients.
pub data Step (uninitialised : ℕ → TopicSource) : CedTopicManager → CedTopicManager → Type 0 where
  domain_cb :
      (key cb : ℕ) (m : CedTopicManager) → Step uninitialised m (register_on_new_domain_cb key cb m)
  no_domain_cb :
      (key : ℕ) (m : CedTopicManager) → Step uninitialised m (unregister_on_new_domain_cb key m)
  topic_cb :
      (key cb : ℕ) (m : CedTopicManager) → Step uninitialised m (register_on_new_topic_cb key cb m)
  no_topic_cb :
      (key : ℕ) (m : CedTopicManager) → Step uninitialised m (unregister_on_new_topic_cb key m)
  registered :
      (name : Name) (domain : ℤ) (m : CedTopicManager)
      → Step uninitialised m (register_topic uninitialised name domain m).1
  released : (w : ℕ) (m : CedTopicManager) → Step uninitialised m (release w m)

pub data Reach (uninitialised : ℕ → TopicSource) (start : CedTopicManager)
    : CedTopicManager → Type 0 where
  here : Reach uninitialised start start
  next :
      {m m' : CedTopicManager}
      → Reach uninitialised start m
      → Step uninitialised m m'
      → Reach uninitialised start m'

Step-IsInformed :
    {uninitialised : ℕ → TopicSource} {m m' : CedTopicManager}
    → Step uninitialised m m'
    → IsInformed m
    → IsInformed m'
unfolding register_on_new_domain_cb unregister_on_new_domain_cb unregister_on_new_topic_cb
Step-IsInformed (domain_cb key cb m) ok =
    no_more-IsInformed m _ (λ key cb e. e) (λ d name e. e)
      (λ c made. WasMade-append c _ m.calls (inr made)) ok
Step-IsInformed (no_domain_cb key m) ok =
    no_more-IsInformed m _ (λ key cb e. e) (λ d name e. e) (λ c made. made) ok
Step-IsInformed (topic_cb key cb m) ok = register_on_new_topic_cb-IsInformed key cb m ok
Step-IsInformed (no_topic_cb key m) ok =
    no_more-IsInformed m _ (λ k cb e. (find_of_erased key k cb m.on_new_topic_map e).0)
      (λ d name e. e) (λ c made. made) ok
Step-IsInformed (registered name domain m) ok = register_topic-IsInformed _ name domain m ok
Step-IsInformed (released w m) ok = release-IsInformed w m ok

abbrev pub no_topics : CedTopicManager
no_topics = record {
  on_new_domain_map = [];
  on_new_topic_map = [];
  topics = [];
  heap = [];
  next = 0;
  calls = [];
}

-- Whatever callbacks and topics come and go, in whatever order, every callback for topics was
-- called with the domain and the name of every topic that is registered.
pub Reach-IsInformed :
    (uninitialised : ℕ → TopicSource) {m : CedTopicManager}
    → Reach uninitialised no_topics m
    → IsInformed m
unfolding find
Reach-IsInformed uninitialised here = record { told = λ key cb domain name e. cc }
Reach-IsInformed uninitialised (next before step) =
    Step-IsInformed step (Reach-IsInformed uninitialised before)
