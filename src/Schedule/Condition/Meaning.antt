-- ===== src/Schedule/Condition/Meaning.antt =====
-- application/src/server/schedule/mod.rs: what a condition means, apart from how it is evaluated.
use cyrogopus.Prelude.{
  ℕ, ◌<◌, ◌≤◌, Bool, true, false, ◌≡◌, ◌↔◌, ◌⊎◌, inl, inr, refl, sym, ap, ◌∙◌, arith, if◌then◌else◌,
}
use mathlib.Core.Option.{some-injective}
use cyrogopus.State.{ServerState, same, to_u8, from_u8}
use cyrogopus.State.Stream.{from_u8-to_u8}
use cyrogopus.Schedule.Condition.{
  ScheduleComparator, smaller_than, smaller_than_or_equals, equal, greater_than,
  greater_than_or_equals, Order, compare_u64, compare_f64, ScheduleCondition, no_condition, and, or,
  server_state, uptime, cpu_usage, memory_usage, disk_usage, file_exists, Conditions, nil, cons,
  View, evaluate, evaluate_and, evaluate_or,
}

abbrev pub Compares : ScheduleComparator → ℕ → ℕ → Type 0
Compares smaller_than usage value = usage < value
Compares smaller_than_or_equals usage value = usage ≤ value
Compares equal usage value = usage ≡ value
Compares greater_than usage value = value < usage
Compares greater_than_or_equals usage value = value ≤ usage

compare_u64-Compares :
    (c : ScheduleComparator) (usage value : ℕ)
    → (compare_u64 c usage value ≡ true) ↔ Compares c usage value
unfolding compare_u64
compare_u64-Compares smaller_than usage value = (ground arith, ground arith)
compare_u64-Compares _ usage value = (ground arith, ground arith)

same_self : (s : ServerState) → same s s ≡ true
same_self s = ground arith

to_u8-injective : (s t : ServerState) → same s t ≡ true → s ≡ t
to_u8-injective s t h =
    let stored : to_u8 s ≡ to_u8 t = ground (arith, h) in
    some-injective _ _ (sym (from_u8-to_u8 s) ∙ (ap from_u8 stored ∙ from_u8-to_u8 t))

same_iff : (s t : ServerState) → (same s t ≡ true) ↔ (s ≡ t)
same_iff s t = (to_u8-injective s t, λ e. rw e (same_self t))

module _ (order : Order) where
  open order use {F64, lt, le, eq}

  -- The comparisons of f64, as each operator reads: the usage stands on its left.
  abbrev pub ComparesF64 : ScheduleComparator → F64 → F64 → Type 0
  ComparesF64 smaller_than usage value = lt usage value ≡ true
  ComparesF64 smaller_than_or_equals usage value = le usage value ≡ true
  ComparesF64 equal usage value = eq usage value ≡ true
  ComparesF64 greater_than usage value = lt value usage ≡ true
  ComparesF64 greater_than_or_equals usage value = le value usage ≡ true

  compare_f64-ComparesF64 :
      (c : ScheduleComparator) (usage value : F64)
      → (compare_f64 order c usage value ≡ true) ↔ ComparesF64 c usage value
  unfolding compare_f64
  compare_f64-ComparesF64 smaller_than usage value = (λ h. h, λ h. h)
  compare_f64-ComparesF64 smaller_than_or_equals usage value = (λ h. h, λ h. h)
  compare_f64-ComparesF64 equal usage value = (λ h. h, λ h. h)
  compare_f64-ComparesF64 greater_than usage value = (λ h. h, λ h. h)
  compare_f64-ComparesF64 greater_than_or_equals usage value = (λ h. h, λ h. h)

  unfoldable mutual
    -- A list of conditions under `and` holds where each does, and one under `or` where any does.
    pub Holds : View order → ScheduleCondition order → Type 0
    Holds v no_condition = Unit
    Holds v (and cs) = HoldsEach v cs
    Holds v (or cs) = HoldsAny v cs
    Holds v (server_state s) = v.state ≡ s
    Holds v (uptime c value) = Compares c v.uptime_seconds value
    Holds v (cpu_usage c value) = ComparesF64 c v.cpu_absolute value
    Holds v (memory_usage c value) = Compares c v.memory_bytes value
    Holds v (disk_usage c value) = Compares c v.disk_bytes value
    Holds v (file_exists file) = v.has_file file ≡ true

    pub HoldsEach : View order → Conditions order → Type 0
    HoldsEach v nil = Unit
    HoldsEach v (cons c cs) = Holds v c × HoldsEach v cs

    pub HoldsAny : View order → Conditions order → Type 0
    HoldsAny v nil = ⊥
    HoldsAny v (cons c cs) = Holds v c ⊎ HoldsAny v cs

  if-each :
      {P Q : Type 0} (a b : Bool)
      → ((a ≡ true) ↔ P)
      → ((b ≡ true) ↔ Q)
      → ((if a then b else false) ≡ true) ↔ (P × Q)
  if-each true b f g = (λ h. (f.0 refl, g.0 h), λ p. g.1 p.1)
  if-each false b f g = (λ h. absurd (ground (arith, h)), λ p. f.1 p.0)

  if-any :
      {P Q : Type 0} (a b : Bool)
      → ((a ≡ true) ↔ P)
      → ((b ≡ true) ↔ Q)
      → ((if a then true else b) ≡ true) ↔ (P ⊎ Q)
  if-any true b f g = (λ h. inl (f.0 refl), λ p. refl)
  if-any false b f g =
      (λ h. inr (g.0 h), λ p. elim p [ inl x ↦ absurd (ground (arith, f.1 x)) | inr y ↦ g.1 y ])

  mutual
    unfolding evaluate Holds

    evaluate_iff :
        (v : View order) (c : ScheduleCondition order) → (evaluate order v c ≡ true) ↔ Holds v c
    evaluate_iff v no_condition = (λ h. tt, λ h. refl)
    evaluate_iff v (and cs) = evaluate_and_iff v cs
    evaluate_iff v (or cs) = evaluate_or_iff v cs
    evaluate_iff v (server_state s) = same_iff v.state s
    evaluate_iff v (uptime c value) = compare_u64-Compares c v.uptime_seconds value
    evaluate_iff v (cpu_usage c value) = compare_f64-ComparesF64 c v.cpu_absolute value
    evaluate_iff v (memory_usage c value) = compare_u64-Compares c v.memory_bytes value
    evaluate_iff v (disk_usage c value) = compare_u64-Compares c v.disk_bytes value
    evaluate_iff v (file_exists file) = (λ h. h, λ h. h)

    evaluate_and_iff :
        (v : View order) (cs : Conditions order) → (evaluate_and order v cs ≡ true) ↔ HoldsEach v cs
    evaluate_and_iff v nil = (λ h. tt, λ h. refl)
    evaluate_and_iff v (cons c cs) =
        if-each (evaluate order v c) (evaluate_and order v cs) (evaluate_iff v c)
          (evaluate_and_iff v cs)

    evaluate_or_iff :
        (v : View order) (cs : Conditions order) → (evaluate_or order v cs ≡ true) ↔ HoldsAny v cs
    evaluate_or_iff v nil = (λ h. absurd (ground (arith, h)), λ h. absurd h)
    evaluate_or_iff v (cons c cs) =
        if-any (evaluate order v c) (evaluate_or order v cs) (evaluate_iff v c)
          (evaluate_or_iff v cs)

  -- A condition is evaluated to true exactly where it holds: `and` where each part does, `or` where
  -- one does, and each comparison as its operator reads.
  pub evaluate-Holds :
      (v : View order) (c : ScheduleCondition order) → (evaluate order v c ≡ true) ↔ Holds v c
  evaluate-Holds v c = evaluate_iff v c
