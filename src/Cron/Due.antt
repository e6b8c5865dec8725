-- ===== src/Cron/Due.antt =====
-- Which jobs are due.
use native.Mathlib.Nat.{div-add-mod', mul-mod_left, mul-zero}
use bridge_framework.Base.{
  ℕ, ◌≡◌, ◌↔◌, ◌∙◌, ◌%◌, ◌/◌, ◌==◌, ◌&&◌, sym, some, both, Bool-cases, inl, inr, is_some-keep_if,
  ◌≤◌, ◌*◌, ==_iff, arith, refl, true, nat_eq, String, map, contains, Named,
  contains-filterb-values, insert-Named, remove-Named, string_eq,
}
use bridge_framework.Base.Map.{Distinct, insert-Distinct, remove-Distinct}
use bridge_framework.Cron
use bridge_framework.Cron.{
  any, specific, range, step, list, CronField, CronExpression, is_multiple_of, field_matches, Job,
  Scheduler, new, is_due, get_job, jobs_due,
}

pub data Step : Scheduler → Scheduler → Type 0 where
  add_job : (j : Job) (s : Scheduler) → Step s (Cron.add_job j s)
  remove_job : (id : String) (s : Scheduler) → Step s (Cron.remove_job id s).0

pub data Reach : Scheduler → Type 0 where
  start : Reach new
  next : {r s : Scheduler} → Reach r → Step r s → Reach s

-- Every job stands under its own id, and no id twice.
pub record IsFiled (s : Scheduler) : Type 0 where
  pub distinct : Distinct s
  pub named : Named (λ j. j.id) s

Step-IsFiled : {r s : Scheduler} → Step r s → IsFiled r → IsFiled s
unfolding Cron.add_job Cron.remove_job
Step-IsFiled (add_job j s) i = record {
  distinct = insert-Distinct j.id j s i.distinct;
  named = insert-Named (λ x. x.id) j s i.named;
}
Step-IsFiled (remove_job id s) i = record {
  distinct = remove-Distinct id s i.distinct;
  named = remove-Named (λ x. x.id) id s i.named;
}

Reach-IsFiled : {s : Scheduler} → Reach s → IsFiled s
Reach-IsFiled start = record { distinct = tt; named = tt }
Reach-IsFiled (next h s) = Step-IsFiled s (Reach-IsFiled h)

-- The times that a field of a schedule stands for: a step counts from 0 and ends at its bound, and a
-- step of 0 is 0 alone.
pub Covers : CronField → ℕ → Type 0
Covers any value = Unit {0}
Covers (specific v) value = value ≡ v
Covers (range first last) value = (first ≤ value) × (value ≤ last)
Covers (step n max) value = ((k : ℕ) × (value ≡ k * n)) × (value ≤ max)
Covers (list values) value = contains value values ≡ true

is_multiple_of_iff : (value n : ℕ) → (is_multiple_of value n ≡ true) ↔ ((k : ℕ) × (value ≡ k * n))
is_multiple_of_iff value n = elim (Bool-cases (n == 0)) [
  | inl nought ↦ (
    λ h. (0, ground arith),
    λ (k, same).
        let nothing : n ≡ 0 = ground arith in
        let absent : value ≡ 0 = same ∙ rw (nothing) (mul-zero k) in ground arith,
  )
  | inr positive ↦ (
    λ h.
        let whole : value % n ≡ 0 = ground arith in
        (value / n, omega (arith, div-add-mod' value n)),
    λ (k, same). let whole : value % n ≡ 0 = rw (same) (mul-mod_left k n) in ground arith,
  )
]

field_matches_iff : (f : CronField) (value : ℕ) → (field_matches f value ≡ true) ↔ Covers f value
unfolding Covers
field_matches_iff any value = (λ h. tt, λ h. refl)
field_matches_iff (specific v) value = ground (arith, ==_iff v value)
field_matches_iff (range first last) value = ground arith
field_matches_iff (step n max) value =
    let whole = is_multiple_of_iff value n in
    (
      λ h. let (divides, within) = both _ _ h in (whole.0 divides, ground arith),
      λ (divides, within). let divided = whole.1 divides in ground arith,
    )
field_matches_iff (list values) value = (λ h. h, λ h. h)

-- The five fields of a schedule cover a time.
pub record Falls (e : CronExpression) (minute hour day month weekday : ℕ) : Type 0 where
  pub in_minute : Covers e.minute minute
  pub in_hour : Covers e.hour hour
  pub in_day : Covers e.day day
  pub in_month : Covers e.month month
  pub in_weekday : Covers e.weekday weekday

is_due_iff :
    (minute hour day month weekday : ℕ) (j : Job)
    → (is_due minute hour day month weekday j ≡ true)
      ↔ ((j.enabled ≡ true) × Falls j.schedule minute hour day month weekday)
is_due_iff minute hour day month weekday j =
    let e = j.schedule in
    let m = field_matches e.minute minute in
    let o = field_matches e.hour hour in
    let d = field_matches e.day day in
    let n = field_matches e.month month in
    let w = field_matches e.weekday weekday in
    (
      λ h.
          let (on, all_five) = both j.enabled (m && o && d && n && w) h in
          let (first_four, in_w) = both (m && o && d && n) w all_five in
          let (first_three, in_n) = both (m && o && d) n first_four in
          let (first_two, in_d) = both (m && o) d first_three in
          let (in_m, in_o) = both m o first_two in
          (
            on,
            record {
              in_minute = (field_matches_iff e.minute minute).0 in_m;
              in_hour = (field_matches_iff e.hour hour).0 in_o;
              in_day = (field_matches_iff e.day day).0 in_d;
              in_month = (field_matches_iff e.month month).0 in_n;
              in_weekday = (field_matches_iff e.weekday weekday).0 in_w;
            },
          ),
      λ (on, f).
          let in_m = (field_matches_iff e.minute minute).1 f.in_minute in
          let in_o = (field_matches_iff e.hour hour).1 f.in_hour in
          let in_d = (field_matches_iff e.day day).1 f.in_day in
          let in_n = (field_matches_iff e.month month).1 f.in_month in
          let in_w = (field_matches_iff e.weekday weekday).1 f.in_weekday in
          rw (on, in_m, in_o, in_d, in_n, in_w) refl,
    )

-- In every scheduler that additions and removals lead to, the jobs due at a time are those, by their
-- ids, whose registered job is enabled and whose schedule has all five fields cover the time.
pub contains-jobs_due :
    {s : Scheduler}
    → Reach s
    → (minute hour day month weekday : ℕ) (id : String)
    → (contains id (map (λ j. j.id) (jobs_due minute hour day month weekday s)) ≡ true) ↔ (
        (j : Job) × (get_job id s ≡ some j)
        × (j.enabled ≡ true)
        × Falls j.schedule minute hour day month weekday)
unfolding jobs_due
contains-jobs_due {s} h minute hour day month weekday id =
    let i = Reach-IsFiled h in
    let due = is_due minute hour day month weekday in
    let listed = contains-filterb-values (λ j. j.id) due id s i.distinct i.named in
    let kept = is_some-keep_if due (get_job id s) in
    (
      λ inside.
          let (j, found, passes) = kept.0 (sym listed ∙ inside) in
          let (on, falls) = (is_due_iff minute hour day month weekday j).0 passes in
          (j, found, on, falls),
      λ (j, found, on, falls).
          listed ∙ kept.1 (j, found, (is_due_iff minute hour day month weekday j).1 (on, falls)),
    )
