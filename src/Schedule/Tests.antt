-- ===== src/Schedule/Tests.antt =====
-- Runs of a schedule that is started by a cron expression and by a crash.
use cyrogopus.Prelude.{
  ℕ, String, true, false, List, [], ◌∷◌, none, some, ◌≡◌, ◌↔◌, refl, ltb, leb, ◌==◌,
}
use cyrogopus.State.{offline, running}
use cyrogopus.Schedule.{
  ScheduleTrigger, cron, crash, kept_triggers, cron_tasks, RawSchedule, Schedule, new, refresh,
  update_schedules,
}
use cyrogopus.Schedule.Update.{find, find_raw, wanted_from, find-update_schedules}
use cyrogopus.Schedule.Condition.{
  Order, ScheduleCondition, and, or, server_state, cpu_usage, disk_usage, nil, cons, greater_than,
  smaller_than, View, evaluate,
}
use cyrogopus.Schedule.Condition.Meaning.{Holds, evaluate-Holds}
use cyrogopus.Schedule.Executor.{ScheduleAction}

abbrev nightly : RawSchedule String ℕ
nightly = record {
  uuid = 1;
  triggers = cron "0 0 3 * * *" ∷ crash ∷ [];
  condition = "always";
  actions = 5;
}

abbrev on_crash : RawSchedule String ℕ
on_crash = record { uuid = 1; triggers = crash ∷ []; condition = "never"; actions = 6 }

abbrev other : RawSchedule String ℕ
other = record { uuid = 2; triggers = []; condition = "always"; actions = 7 }

find-update_schedules_example :
    find String ℕ (update_schedules String ℕ (new String ℕ nightly ∷ []) (on_crash ∷ other ∷ [])) 1
    ≡ wanted_from String ℕ
        (find String ℕ (new String ℕ nightly ∷ []) 1)
        (find_raw String ℕ (on_crash ∷ other ∷ []) 1)
        none
find-update_schedules_example =
    find-update_schedules String ℕ (new String ℕ nightly ∷ []) (on_crash ∷ other ∷ []) 1
      (refl, (refl, tt))

abbrev natural : Order
natural = record { F64 = ℕ; lt = ltb; le = leb; eq = λ a b. a == b }

abbrev view : View natural
view = record {
  state = running;
  uptime_seconds = 10;
  cpu_absolute = 80;
  memory_bytes = 1000;
  disk_bytes = 500;
  has_file = λ file. false;
}

abbrev busy : ScheduleCondition natural
busy = and (
    cons (or (cons (server_state offline) (cons (server_state running) nil)))
      (cons (cpu_usage greater_than 50) nil))

busy-now : evaluate natural view busy ≡ true
unfolding evaluate cyrogopus.Schedule.Condition.compare_f64
busy-now = refl

evaluate-Holds_example : (evaluate natural view busy ≡ true) ↔ Holds natural view busy
evaluate-Holds_example = evaluate-Holds natural view busy

-- The failure of the first action is ignored, that of the second is not.
abbrev actions : List ScheduleAction
actions =
    record { uuid = 1; ignore_failure = true; result = some "no such file" }
    ∷ record { uuid = 2; ignore_failure = false; result = some "server is in a locked state." }
    ∷ record { uuid = 3; ignore_failure = false; result = none }
    ∷ []
