-- ===== src/Schedule/Update.antt =====
-- application/src/server/schedule/manager.rs: the schedules and their cron tasks after an update.
use cyrogopus.Prelude.{
  ℕ, Bool, true, false, List, [], ◌∷◌, Option, none, some, ◌≡◌, ◌≢◌, refl, ap, ◌∙◌, arith, ◌==◌,
  if◌then◌else◌, Bool-cases, Option-cases, inl, inr,
}
use cyrogopus.Server.Power.{ServerPowerAction, start_action}
use cyrogopus.Schedule.Triggers.{
  agree, same_triggers-agree, without_cron, crons, kept_triggers-without_cron, cron_tasks-crons,
}
use cyrogopus.Schedule.{
  ScheduleTrigger, cron, power_action, server_state, crash, same_action, same_triggers,
  kept_triggers, cron_tasks, RawSchedule, Schedule, new, refresh, retain_listed, put, put_all,
  recreate_triggers, update, update_schedules, is_listed,
}

module _ (Condition Actions : Type 0) where
  -- The schedule with a uuid, and the configuration's one.
  unfoldable pub find : List (Schedule Condition Actions) → ℕ → Option (Schedule Condition Actions)
  find [] uuid = none
  find (s ∷ ss) uuid = if s.uuid == uuid then some s else find ss uuid

  unfoldable pub find_raw :
      List (RawSchedule Condition Actions) → ℕ → Option (RawSchedule Condition Actions)
  find_raw [] uuid = none
  find_raw (raw ∷ raws) uuid = if raw.uuid == uuid then some raw else find_raw raws uuid

  -- No uuid stands twice in the configuration.
  abbrev pub IsDistinct : List (RawSchedule Condition Actions) → Type 0
  IsDistinct [] = Unit
  IsDistinct (raw ∷ raws) = (is_listed Condition Actions raws raw.uuid ≡ false) × IsDistinct raws

  -- A schedule that was there, by whether it keeps its triggers and its tasks.
  abbrev pub refreshed :
      Schedule Condition Actions → RawSchedule Condition Actions → Bool → Schedule Condition Actions
  refreshed s raw keeps = record {
    uuid = s.uuid;
    triggers = if keeps then s.triggers else without_cron raw.triggers;
    condition = raw.condition;
    raw_actions = raw.actions;
    trigger_tasks = if keeps then s.trigger_tasks else crons raw.triggers;
  }

  -- A schedule as the configuration wants it. One that was there keeps its triggers and its tasks
  -- where its triggers are those of the configuration.
  abbrev pub wanted :
      Option (Schedule Condition Actions)
      → RawSchedule Condition Actions
      → Schedule Condition Actions
  wanted none raw = record {
    uuid = raw.uuid;
    triggers = without_cron raw.triggers;
    condition = raw.condition;
    raw_actions = raw.actions;
    trigger_tasks = crons raw.triggers;
  }
  wanted (some s) raw = refreshed s raw (agree s.triggers raw.triggers)

  new-wanted : (raw : RawSchedule Condition Actions) → new Condition Actions raw ≡ wanted none raw
  unfolding new
  new-wanted raw = rw (kept_triggers-without_cron raw.triggers, cron_tasks-crons raw.triggers) refl

  update-refreshed :
      (s : Schedule Condition Actions) (raw : RawSchedule Condition Actions) (b : Bool)
      → (if b
          then update Condition Actions s raw
          else update Condition Actions (recreate_triggers Condition Actions s raw.triggers) raw)
        ≡ refreshed s raw b
  unfolding recreate_triggers update
  update-refreshed s raw true = refl
  update-refreshed s raw false =
      rw (kept_triggers-without_cron raw.triggers, cron_tasks-crons raw.triggers) refl

  refresh-wanted :
      (s : Schedule Condition Actions) (raw : RawSchedule Condition Actions)
      → refresh Condition Actions s raw ≡ wanted (some s) raw
  unfolding refresh recreate_triggers update
  refresh-wanted s raw =
      ap
        (λ b.
          if b
          then update Condition Actions s raw
          else update Condition Actions (recreate_triggers Condition Actions s raw.triggers) raw)
        (same_triggers-agree s.triggers raw.triggers)
      ∙ update-refreshed s raw (agree s.triggers raw.triggers)

  abbrev pub wanted_from :
      Option (Schedule Condition Actions)
      → Option (RawSchedule Condition Actions)
      → Option (Schedule Condition Actions)
      → Option (Schedule Condition Actions)
  wanted_from s none otherwise = otherwise
  wanted_from s (some raw) otherwise = some (wanted s raw)

  uuid-refresh :
      (s : Schedule Condition Actions) (raw : RawSchedule Condition Actions)
      → (refresh Condition Actions s raw).uuid ≡ s.uuid
  unfolding refresh
  uuid-refresh s raw = ground arith

  find-put :
      (ss : List (Schedule Condition Actions)) (raw : RawSchedule Condition Actions) (uuid : ℕ)
      → find (put Condition Actions ss raw) uuid
        ≡ (if raw.uuid == uuid then some (wanted (find ss uuid) raw) else find ss uuid)
  unfolding find put new
  find-put [] raw uuid = ground (arith, new-wanted raw)
  find-put (s ∷ ss) raw uuid =
      ground (arith, find-put ss raw uuid, uuid-refresh s raw, refresh-wanted s raw)

  find_raw-unlisted :
      (raws : List (RawSchedule Condition Actions)) (uuid : ℕ)
      → is_listed Condition Actions raws uuid ≡ false
      → find_raw raws uuid ≡ none
  unfolding find_raw
  find_raw-unlisted [] uuid h = refl
  find_raw-unlisted (raw ∷ raws) uuid h = ground (arith, find_raw-unlisted raws uuid)

  find-put_all :
      (ss : List (Schedule Condition Actions)) (raws : List (RawSchedule Condition Actions))
      (uuid : ℕ)
      → IsDistinct raws
      → find (put_all Condition Actions ss raws) uuid
        ≡ wanted_from (find ss uuid) (find_raw raws uuid) (find ss uuid)
  unfolding put_all find_raw
  find-put_all ss [] uuid h = refl
  find-put_all ss (raw ∷ raws) uuid h = elim (Bool-cases (raw.uuid == uuid)) [
    | inl e ↦ ground (
      arith,
      e,
      find-put ss raw uuid,
      find-put_all (put Condition Actions ss raw) raws uuid h.1,
      find_raw-unlisted raws uuid,
      h.0,
    )
    | inr e ↦
        ground (
          arith,
          e,
          find-put ss raw uuid,
          find-put_all (put Condition Actions ss raw) raws uuid h.1,
        )
  ]

  find-retain_listed :
      (raws : List (RawSchedule Condition Actions)) (ss : List (Schedule Condition Actions))
      (uuid : ℕ)
      → find (retain_listed Condition Actions raws ss) uuid
        ≡ (if is_listed Condition Actions raws uuid then find ss uuid else none)
  unfolding find retain_listed
  find-retain_listed raws [] uuid = ground arith
  find-retain_listed raws (s ∷ ss) uuid = elim (Bool-cases (s.uuid == uuid)) [
    | inl e ↦
        let listed : is_listed Condition Actions raws s.uuid
            ≡ is_listed Condition Actions raws uuid =
          ap (is_listed Condition Actions raws) (ground (arith, e)) in
        ground (arith, e, listed, find-retain_listed raws ss uuid)
    | inr e ↦ ground (arith, e, find-retain_listed raws ss uuid)
  ]

  find_raw-listed :
      (raws : List (RawSchedule Condition Actions)) (uuid : ℕ)
      → is_listed Condition Actions raws uuid ≡ true
      → find_raw raws uuid ≢ none
  unfolding find_raw
  find_raw-listed [] uuid h = ground arith
  find_raw-listed (raw ∷ raws) uuid h = ground (arith, find_raw-listed raws uuid)

  -- After an update by a configuration in which no uuid stands twice, the schedules are those of the
  -- configuration and no others, each with the condition and the actions of the configuration. One
  -- that was not there has the triggers of the configuration but for the cron expressions, and a task
  -- for each of these; one that was there keeps its triggers and its tasks where its triggers, from
  -- which the cron expressions are gone, are those of the configuration, and gets them as a new one
  -- does otherwise.
  pub find-update_schedules :
      (ss : List (Schedule Condition Actions)) (raws : List (RawSchedule Condition Actions))
      (uuid : ℕ)
      → IsDistinct raws
      → find (update_schedules Condition Actions ss raws) uuid
        ≡ wanted_from (find ss uuid) (find_raw raws uuid) none
  unfolding update_schedules
  find-update_schedules ss raws uuid h = elim (Bool-cases (is_listed Condition Actions raws uuid)) [
    | inl e ↦ elim (Option-cases (find_raw raws uuid)) [
      | inl n ↦ absurd (find_raw-listed raws uuid e n)
      | inr (raw, r) ↦
          rw (find-put_all (retain_listed Condition Actions raws ss) raws uuid h, r)
            (rw (find-retain_listed raws ss uuid, e) refl)
    ]
    | inr e ↦
        rw
          (
            find-put_all (retain_listed Condition Actions raws ss) raws uuid h,
            find_raw-unlisted raws uuid e,
          )
          (rw (find-retain_listed raws ss uuid, e) refl)
  ]

  same_action_refl : (a : ServerPowerAction) → same_action a a ≡ true
  same_action_refl start_action = refl
  same_action_refl _ = refl

  same_triggers-kept :
      (ts : List ScheduleTrigger) → same_triggers (kept_triggers ts) (kept_triggers ts) ≡ true
  unfolding same_triggers kept_triggers
  same_triggers-kept [] = refl
  same_triggers-kept (cron s ∷ ts) = same_triggers-kept ts
  same_triggers-kept (power_action a ∷ ts) =
      ground (arith, same_action_refl a, same_triggers-kept ts)
  same_triggers-kept (server_state s ∷ ts) = ground (arith, same_triggers-kept ts)
  same_triggers-kept (crash ∷ ts) = same_triggers-kept ts

  -- The cron tasks of a schedule outlive their removal: where the configuration drops all cron
  -- triggers of a new schedule and no other trigger, the update leaves every task as it was.
  trigger_tasks-refresh :
      (raw next : RawSchedule Condition Actions)
      → next.triggers ≡ kept_triggers raw.triggers
      → (refresh Condition Actions (new Condition Actions raw) next).trigger_tasks
        ≡ cron_tasks raw.triggers
  unfolding refresh new
  trigger_tasks-refresh raw next h = ground (arith, h, same_triggers-kept raw.triggers)
