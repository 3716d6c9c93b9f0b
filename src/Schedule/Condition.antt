-- ===== src/Schedule/Condition.antt =====
-- application/src/server/schedule/mod.rs: the conditions of a schedule. An f64 is of any type with
-- the three comparisons that its operators stand on; what a condition reads of the server does not
-- change while it is evaluated.
pub mod Meaning
use cyrogopus.Prelude.{ℕ, String, Bool, true, false, ◌==◌, ltb, leb, if◌then◌else◌}
use cyrogopus.State.{ServerState, same}

pub data ScheduleComparator : Type 0 where
  smaller_than smaller_than_or_equals equal greater_than greater_than_or_equals : ScheduleComparator

pub record Order : Type 1 where
  pub F64 : Type 0
  pub lt : F64 → F64 → Bool
  pub le : F64 → F64 → Bool
  pub eq : F64 → F64 → Bool

-- The `match` on the comparator for a u64, as it stands in three of the arms.
unfoldable pub compare_u64 : ScheduleComparator → ℕ → ℕ → Bool
compare_u64 smaller_than usage value = ltb usage value
compare_u64 smaller_than_or_equals usage value = leb usage value
compare_u64 equal usage value = usage == value
compare_u64 greater_than usage value = ltb value usage
compare_u64 greater_than_or_equals usage value = leb value usage

module _ (order : Order) where
  open order use {F64, lt, le, eq}

  unfoldable pub compare_f64 : ScheduleComparator → F64 → F64 → Bool
  compare_f64 smaller_than usage value = lt usage value
  compare_f64 smaller_than_or_equals usage value = le usage value
  compare_f64 equal usage value = eq usage value
  compare_f64 greater_than usage value = lt value usage
  compare_f64 greater_than_or_equals usage value = le value usage

  mutual
    pub data ScheduleCondition : Type 0 where
      no_condition : ScheduleCondition
      and or : Conditions → ScheduleCondition
      server_state : ServerState → ScheduleCondition
      uptime : ScheduleComparator → ℕ → ScheduleCondition
      cpu_usage : ScheduleComparator → F64 → ScheduleCondition
      memory_usage : ScheduleComparator → ℕ → ScheduleCondition
      disk_usage : ScheduleComparator → ℕ → ScheduleCondition
      file_exists : String → ScheduleCondition

    pub data Conditions : Type 0 where
      nil : Conditions
      cons : ScheduleCondition → Conditions → Conditions

  -- What the conditions read of a server.
  pub record View : Type 0 where
    pub state : ServerState
    pub uptime_seconds : ℕ
    pub cpu_absolute : F64
    pub memory_bytes : ℕ
    pub disk_bytes : ℕ
    pub has_file : String → Bool

  unfoldable mutual
    pub evaluate : View → ScheduleCondition → Bool
    evaluate v no_condition = true
    evaluate v (and cs) = evaluate_and v cs
    evaluate v (or cs) = evaluate_or v cs
    evaluate v (server_state s) = same v.state s
    evaluate v (uptime c value) = compare_u64 c v.uptime_seconds value
    evaluate v (cpu_usage c value) = compare_f64 c v.cpu_absolute value
    evaluate v (memory_usage c value) = compare_u64 c v.memory_bytes value
    evaluate v (disk_usage c value) = compare_u64 c v.disk_bytes value
    evaluate v (file_exists file) = v.has_file file

    -- The loops, which stop at the first condition that decides.
    pub evaluate_and : View → Conditions → Bool
    evaluate_and v nil = true
    evaluate_and v (cons c cs) =
        let rest = evaluate_and v cs in if evaluate v c then rest else false

    pub evaluate_or : View → Conditions → Bool
    evaluate_or v nil = false
    evaluate_or v (cons c cs) = let rest = evaluate_or v cs in if evaluate v c then true else rest
