-- ===== src/Ced/Published.antt =====
-- What is written to a topic and what its readers get (src/cpp/middleware/ced/CedEntities.cpp).
use micro_xrce_dds_agent.Common.{
  ℕ, ◌≤◌, ◌≡◌, refl, sym, subst, List, [], ◌∷◌, ◌++◌, if◌then◌else◌, length, drop, Bool-cases, inl,
  inr, arith,
}
use mathlib.Core.List.{append-nil, append_assoc}
use micro_xrce_dds_agent.Common.Int.{ℤ}
use micro_xrce_dds_agent.Ced.GlobalTopic.{
  Sample, Access, TopicSource, GlobalTopic, global_topic, check_access, write,
}
use micro_xrce_dds_agent.Ced.Log.{seq, Shows, Holds, resumed}
use micro_xrce_dds_agent.Ced.Delivery.{put-Holds, permitted, received, received_lem}

-- A topic that is new holds what an empty log leaves.
pub global_topic-Holds :
    (uninitialised : ℕ → TopicSource) (name : List ℕ) (domain : ℤ)
    → Holds [] (global_topic uninitialised name domain)
unfolding global_topic Shows
global_topic-Holds uninitialised name domain = refl

-- A write is reported to succeed exactly if the writer has access for the source; then the data
-- is the next sample of the log, and otherwise the log stays as it is.
pub write-Holds :
    (octets : List ℕ) (a : Access) (src : TopicSource) (log : List Sample) (t : GlobalTopic)
    → Holds log t
    → ((write octets a src t).0 ≡ check_access a src)
      × Holds
          (if check_access a src then log ++ ((src, octets) ∷ []) else log)
          (write octets a src t).1
unfolding write
write-Holds octets a src log t holds = elim (Bool-cases (check_access a src)) [
  | inl may ↦ rw (may, write) (refl, put-Holds (src, octets) log t holds)
  | inr may_not ↦ rw (may_not, write) (refl, holds)
]

-- Writes, one after the other: the data, the access of the writer and its source.
unfoldable pub write_all : List (List ℕ × Access × TopicSource) → GlobalTopic → GlobalTopic
write_all [] t = t
write_all ((octets, a, src) ∷ ws) t = write_all ws (write octets a src t).1

-- The samples that are let in.
unfoldable pub accepted : List (List ℕ × Access × TopicSource) → List Sample
accepted [] = []
accepted ((octets, a, src) ∷ ws) =
    if check_access a src then (src, octets) ∷ accepted ws else accepted ws

write_all-Holds :
    (ws : List (List ℕ × Access × TopicSource)) (log : List Sample) (t : GlobalTopic)
    → Holds log t
    → Holds (log ++ accepted ws) (write_all ws t)
unfolding write_all accepted
write_all-Holds [] log t holds = subst (λ xs. Holds xs t) (sym (append-nil log)) holds
write_all-Holds ((octets, a, src) ∷ ws) log t holds =
    let step = (write-Holds octets a src log t holds).1 in
    elim (Bool-cases (check_access a src)) [
      | inl may ↦ rw may (
          subst (λ xs. Holds xs (write_all ws (write octets a src t).1))
            (append_assoc log ((src, octets) ∷ []) (accepted ws))
            (write_all-Holds ws (log ++ ((src, octets) ∷ [])) _ (
              subst
                (λ b.
                  Holds (if b then log ++ ((src, octets) ∷ []) else log) (write octets a src t).1)
                may step)))
      | inr may_not ↦ rw may_not (
          write_all-Holds ws log _ (
            subst
              (λ b. Holds (if b then log ++ ((src, octets) ∷ []) else log) (write octets a src t).1)
              may_not step))
    ]

-- After any writes to a topic that is new, a reader that has got as far as the `p`-th of the
-- samples that were let in, and reads until there is nothing more, gets the data of all that it
-- may read, in the order in which they were written, each once: of those behind `p`, or of the
-- last sixteen where more are behind it, as far as sequence numbers of sixteen bits tell.
pub received-write_all :
    (uninitialised : ℕ → TopicSource) (name : List ℕ) (domain : ℤ)
    (ws : List (List ℕ × Access × TopicSource)) (a : Access) (p : ℕ)
    → p ≤ length (accepted ws)
    → received 17 a (write_all ws (global_topic uninitialised name domain)) (seq p)
      ≡ permitted a (drop (resumed (length (accepted ws)) p) (accepted ws))
received-write_all uninitialised name domain ws a p behind =
    received_lem 17 a (accepted ws) _ p
      (write_all-Holds ws [] _ (global_topic-Holds uninitialised name domain)) behind (omega arith)
