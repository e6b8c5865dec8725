-- ===== src/Cron/Tests.antt =====
-- Runs of the cron parser and scheduler on small inputs.
use bridge_framework.Base.{
  ◌≡◌, ◌↔◌, refl, true, some, [], ◌∷◌, map, contains, string_eq, decimal, split, split_whitespace,
  ok, err,
}
use bridge_framework.Base.Map
use bridge_framework.Cron.{
  any, specific, range, step, CronExpression, Scheduler, new, new_job, add_job, remove_job, get_job,
  Job, jobs_due, out_of_range, parse, parse_field, parse_u32,
}
use bridge_framework.Cron.Due
use bridge_framework.Cron.Due.{Reach, start, next, Step}

program : Unit {0}
unfolding parse parse_field parse_u32 split split_whitespace add_job remove_job jobs_due decimal
    Map.get Map.insert Map.remove
program = tt

abbrev office_hours : CronExpression
office_hours = record {
  minute = step 15 59;
  hour = range 9 17;
  day = any;
  month = any;
  weekday = specific 1;
}

parse_run :
    (parse "*/15 9-17 * * +1" ≡ ok office_hours) × (parse_field "99" 0 59 ≡ err out_of_range)
unfolding program
parse_run = (refl, refl)

-- The bounds of a range are not compared with those of its place.
range_run : parse_field "50-99" 0 59 ≡ ok (range 50 99)
unfolding program
range_run = refl

abbrev one : Scheduler
one = add_job (new_job "j1" "report" office_hours "report") new

jobs_due_run :
    (map (λ j. j.id) (jobs_due 30 9 1 1 1 one) ≡ "j1" ∷ []) × (jobs_due 31 9 1 1 1 one ≡ [])
unfolding program
jobs_due_run = (refl, refl)

one-Reach : Reach one
one-Reach = next start (Step.add_job (new_job "j1" "report" office_hours "report") new)

contains-jobs_due_example : (contains "j1" (map (λ j. j.id) (jobs_due 30 9 1 1 1 one)) ≡ true) ↔ (
    (j : Job) × (get_job "j1" one ≡ some j) × (j.enabled ≡ true) × Due.Falls j.schedule 30 9 1 1 1)
contains-jobs_due_example = Due.contains-jobs_due one-Reach 30 9 1 1 1 "j1"
