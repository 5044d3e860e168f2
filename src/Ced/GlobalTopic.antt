-- ===== src/Ced/GlobalTopic.antt =====
-- A topic and its last sixteen samples (`CedGlobalTopic` in src/cpp/middleware/ced/CedEntities.cpp).
-- The error code of `read`, which no caller looks at, is left out.
use micro_xrce_dds_agent.Common.{
  ℕ, zero, suc, ◌%◌, Bool, true, false, ◌||◌, List, [], ◌∷◌, Option, none, some, ◌==◌,
  if◌then◌else◌,
}
use micro_xrce_dds_agent.Common.Int.{ℤ, pos}
use micro_xrce_dds_agent.SeqNum.{increment, add_int, sub_int, le, gt}

pub data TopicSource : Type 0 where
  internal : TopicSource
  external : TopicSource

-- WriteAccess and ReadAccess have the same enumerators.
pub data Access : Type 0 where
  no_access : Access
  internal_access : Access
  external_access : Access
  complete_access : Access

-- A slot has what `srcs_` and `history_` hold at its index.
abbrev pub Sample : Type 0
Sample = TopicSource × List ℕ

pub record GlobalTopic : Type 0 where
  pub name : List ℕ
  pub domain_id : ℤ
  pub last_write : ℕ
  pub history : ℕ → Sample

-- The constructor, which leaves the sources as they are in memory.
unfoldable pub global_topic : (ℕ → TopicSource) → List ℕ → ℤ → GlobalTopic
global_topic uninitialised topic_name domain_id = record {
  name = topic_name;
  domain_id = domain_id;
  last_write = 65535;
  history = λ i. (uninitialised i, []);
}

abbrev pub is_source : TopicSource → TopicSource → Bool
is_source internal internal = true
is_source external external = true
is_source internal external = false
is_source external internal = false

-- `check_write_access`, and `check_read_access` at a slot's source.
unfoldable pub check_access : Access → TopicSource → Bool
check_access complete_access src = true
check_access internal_access src = is_source internal src
check_access external_access src = is_source external src
check_access no_access src = false

-- The write behind the check.
unfoldable pub put : Sample → GlobalTopic → GlobalTopic
put x t =
    let index = add_int t.last_write (pos 1) % 16 in
    record t {
      history = λ i. if i == index then x else t.history i;
      last_write = increment t.last_write;
    }

unfoldable pub write : List ℕ → Access → TopicSource → GlobalTopic → Bool × GlobalTopic
write octets write_access topic_src t =
    if check_access write_access topic_src then (true, put (topic_src, octets) t) else (false, t)

-- The data, if it may be read, and `last_read`.
unfoldable pub get_data : Access → GlobalTopic → ℕ → Option (List ℕ) × ℕ
get_data read_access t last_read =
    let next = increment last_read in
    let (src, octets) = t.history (next % 16) in
    (if check_access read_access src then some octets else none, next)

-- `while(!rv && (last_read != last_write_))`, behind a round.
abbrev pub unless_done : ℕ → (ℕ → Option (List ℕ) × ℕ) → Option (List ℕ) × ℕ → Option (List ℕ) × ℕ
unless_done last_write again (some octets, last_read) = (some octets, last_read)
unless_done last_write again (none, last_read) = elim (last_read == last_write) [
  | true ↦ (none, last_read)
  | false ↦ again last_read
]

unfoldable pub get_data_loop : ℕ → Access → GlobalTopic → ℕ → Option (List ℕ) × ℕ
get_data_loop zero read_access t last_read = (none, last_read)
get_data_loop (suc fuel) read_access t last_read =
    unless_done t.last_write (get_data_loop fuel read_access t) (get_data read_access t last_read)

-- `Fix last_read`.
unfoldable pub fix_last_read : GlobalTopic → ℕ → ℕ
fix_last_read t last_read =
    let oldest = sub_int t.last_write (pos 16) in
    if le last_read oldest || gt last_read t.last_write then oldest else last_read

-- The part of `read` without a timeout. Sixteen rounds are enough, as there are no more samples.
unfoldable pub read_now : Access → GlobalTopic → ℕ → Option (List ℕ) × ℕ
read_now read_access t last_read =
    if last_read == t.last_write
    then (none, last_read)
    else get_data_loop 16 read_access t (fix_last_read t last_read)

unfoldable pub put_all : List Sample → GlobalTopic → GlobalTopic
put_all [] t = t
put_all (x ∷ xs) t = put_all xs (put x t)

-- `wait_until` with its predicate, which is looked at each time the thread wakes up and when the
-- time is over. A round is the samples that were written since the lock was released; the last
-- one is that of the time-out.
unfoldable pub wait_until :
    Access → List (List Sample) → GlobalTopic → ℕ → (Option (List ℕ) × ℕ) × GlobalTopic
wait_until read_access [] t last_read = ((none, last_read), t)
wait_until read_access (written ∷ rounds) t last_read =
    let t' = put_all written t in
    elim (last_read == t'.last_write) [
      | true ↦ wait_until read_access rounds t' last_read
      | false ↦
          (let (rv, next) = get_data read_access t' last_read in
            elim rv [
              | some octets ↦ ((some octets, next), t')
              | none ↦ wait_until read_access rounds t' next
            ])
    ]

-- The data, if `rv`, with `last_read` and the topic.
unfoldable pub read :
    Access → List (List Sample) → GlobalTopic → ℕ → (Option (List ℕ) × ℕ) × GlobalTopic
read read_access rounds t last_read =
    let (rv, next) = read_now read_access t last_read in
    elim rv [
      | some octets ↦ ((some octets, next), t)
      | none ↦
          if next == t.last_write then wait_until read_access rounds t next else ((none, next), t)
    ]
