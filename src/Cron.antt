-- ===== src/Cron.antt =====
-- The cron scheduler of daemon/src/cron.rs: expressions of five fields, their parser, and the jobs
-- that are due at a time. A 32-bit number is a number below `2 ^ 32`; an error message is one
-- constructor for each of the source's messages.
pub mod Due
pub mod Words
mod Tests
use Prim.Native.Char.{code}
use bridge_framework.Base.{
  parse_unsigned, ℕ, ◌+◌, ◌-◌, ◌*◌, ◌%◌, ◌^◌, Bool, true, false, not, ◌&&◌, ◌||◌, String, Option,
  none, some, List, [], ◌∷◌, map, length, filterb, contains, keep_if, ltb, leb, if◌then◌else◌,
  is_whitespace, is_empty_text, split, split_whitespace, chars, ◌==◌, nat_eq, string_eq, Result, ok,
  err, ◌>>=◌,
}
use bridge_framework.Base.Map
use bridge_framework.Base.Map.{Map}

pub data CronField : Type 0 where
  any : CronField
  specific : ℕ → CronField
  range : ℕ → ℕ → CronField
  step : ℕ → ℕ → CronField
  list : List ℕ → CronField

abbrev pub is_multiple_of : ℕ → ℕ → Bool
is_multiple_of n d = if d == 0 then n == 0 else n % d == 0

abbrev pub field_matches : CronField → ℕ → Bool
field_matches any value = true
field_matches (specific v) value = v == value
field_matches (range first last) value = leb first value && leb value last
field_matches (step n max) value = is_multiple_of value n && leb value max
field_matches (list values) value = contains value values

pub record CronExpression : Type 0 where
  pub minute : CronField
  pub hour : CronField
  pub day : CronField
  pub month : CronField
  pub weekday : CronField

pub data Error : Type 0 where
  field_count out_of_range invalid_range invalid_start invalid_end invalid_step_format invalid_step
        invalid_list invalid_field :
      Error

unfoldable pub parse_u32 : String → Option ℕ
unfolding parse_unsigned
parse_u32 = parse_unsigned (2 ^ 32)

abbrev pub parse_or : Error → String → Result Error ℕ
parse_or e s = elim (parse_u32 s) [ none ↦ err e | some v ↦ ok v ]

abbrev pub parse_list : List String → Result Error (List ℕ)
parse_list [] = ok []
parse_list (s ∷ parts) = do v ← parse_or invalid_list s; values ← parse_list parts; ok (v ∷ values)

abbrev pub parse_range : List String → Result Error CronField
parse_range (first ∷ last ∷ []) = do
  start ← parse_or invalid_start first
  end ← parse_or invalid_end last
  ok (range start end)
parse_range _ = err invalid_range

abbrev pub parse_step : ℕ → List String → Result Error CronField
parse_step max (first ∷ every ∷ []) = do n ← parse_or invalid_step every; ok (step n max)
parse_step max _ = err invalid_step_format

unfoldable pub parse_field : String → ℕ → ℕ → Result Error CronField
unfolding parse_u32 split
parse_field field min max = if field == "*" then ok any else (elim (parse_u32 field) [
  | some v ↦ if leb min v && leb v max then ok (specific v) else err out_of_range
  | none ↦
      if contains b'-' (chars field)
      then parse_range (split b'-' field)
      else (if contains b'/' (chars field)
          then parse_step max (split b'/' field)
          else (if contains b',' (chars field)
              then parse_list (split b',' field) >>= (λ values. ok (list values))
              else err invalid_field))
])

abbrev pub parse_parts : List String → Result Error CronExpression
parse_parts (m ∷ h ∷ d ∷ mo ∷ w ∷ []) = do
  minute ← parse_field m 0 59
  hour ← parse_field h 0 23
  day ← parse_field d 1 31
  month ← parse_field mo 1 12
  weekday ← parse_field w 0 6
  ok (record { minute = minute; hour = hour; day = day; month = month; weekday = weekday })
parse_parts _ = err field_count

unfoldable pub parse : String → Result Error CronExpression
unfolding parse_field split_whitespace
parse expr = parse_parts (split_whitespace expr)

abbrev pub matches : CronExpression → ℕ → ℕ → ℕ → ℕ → ℕ → Bool
matches e minute hour day month weekday =
    field_matches e.minute minute
    && field_matches e.hour hour
    && field_matches e.day day
    && field_matches e.month month
    && field_matches e.weekday weekday

pub record Job : Type 0 where
  pub id : String
  pub name : String
  pub schedule : CronExpression
  pub handler : String
  pub enabled : Bool

abbrev pub new_job : String → String → CronExpression → String → Job
new_job id name schedule handler = record {
  id = id;
  name = name;
  schedule = schedule;
  handler = handler;
  enabled = true;
}

abbrev pub disable : Job → Job
disable j = record j { enabled = false }

abbrev pub Scheduler : Type 0
Scheduler = Map String Job

abbrev pub new : Scheduler
new = []

unfoldable pub add_job : Job → Scheduler → Scheduler
add_job j s = Map.insert j.id j s

abbrev pub get_job : String → Scheduler → Option Job
get_job id s = Map.get id s

abbrev pub list_jobs : Scheduler → List Job
list_jobs s = Map.values s

unfoldable pub remove_job : String → Scheduler → Scheduler × Bool
remove_job id s = (Map.remove id s, Map.contains_key id s)

abbrev pub is_due : ℕ → ℕ → ℕ → ℕ → ℕ → Job → Bool
is_due minute hour day month weekday j =
    j.enabled && matches j.schedule minute hour day month weekday

unfoldable pub jobs_due : ℕ → ℕ → ℕ → ℕ → ℕ → Scheduler → List Job
jobs_due minute hour day month weekday s =
    filterb (is_due minute hour day month weekday) (Map.values s)
