-- ===== src/Format/Words.antt =====
-- web/src/lib/format.ts: the English of schedules and of dates. What `formatRelative` makes of a date is
-- an argument.
pub mod Spelled
pub mod Labels
pub mod Preview
use prox_back.Prelude.{
  ℕ, zero, suc, ◌+◌, ◌-◌, ◌/◌, ◌%◌, Bool, true, false, not, List, [], ◌∷◌, ◌++◌, Option, none, some,
  ◌&&◌, ◌==◌, leb, length, map, if◌then◌else◌, is_empty,
}
use prox_back.Js.Text.{Text, codes, same_text, join, print_nat, pad_start}
use prox_back.Js.Array.{sort}
use prox_back.Js.Value.{Value}
use prox_back.Api.Schedule.{Schedule, parse_schedule}
use prox_back.Format.Time.{pad_time}
use prox_back.Format.Calendar.{Date, get_day, get_hours, get_minutes, get_month}

-- `texts[index] ?? fallback`.
unfoldable pub text_at : List Text → ℕ → Text → Text
text_at [] index fallback = fallback
text_at (text ∷ texts) zero fallback = text
text_at (text ∷ texts) (suc index) fallback = text_at texts index fallback

abbrev pub short_days : List Text
short_days =
    codes "Sun"
    ∷ codes "Mon"
    ∷ codes "Tue"
    ∷ codes "Wed"
    ∷ codes "Thu"
    ∷ codes "Fri"
    ∷ codes "Sat"
    ∷ []

abbrev pub long_days : List Text
long_days =
    codes "Sunday"
    ∷ codes "Monday"
    ∷ codes "Tuesday"
    ∷ codes "Wednesday"
    ∷ codes "Thursday"
    ∷ codes "Friday"
    ∷ codes "Saturday"
    ∷ []

abbrev pub short_months : List Text
short_months =
    codes "Jan"
    ∷ codes "Feb"
    ∷ codes "Mar"
    ∷ codes "Apr"
    ∷ codes "May"
    ∷ codes "Jun"
    ∷ codes "Jul"
    ∷ codes "Aug"
    ∷ codes "Sep"
    ∷ codes "Oct"
    ∷ codes "Nov"
    ∷ codes "Dec"
    ∷ []

-- `weekdayShort` and `weekdayLong`; `((day % 7) + 7) % 7` of a day that is not negative.
unfoldable pub weekday_short : ℕ → Text
unfolding text_at
weekday_short day = text_at short_days ((day % 7 + 7) % 7) (codes "—")

unfoldable pub weekday_long : ℕ → Text
unfolding text_at
weekday_long day = text_at long_days ((day % 7 + 7) % 7) (codes "—")

-- The ending of `ordinal`.
unfoldable pub ordinal_suffix : ℕ → Text
ordinal_suffix n =
    if leb 11 (n % 100) && leb (n % 100) 13
    then codes "th"
    else if n % 10 == 1
    then codes "st"
    else if n % 10 == 2
    then codes "nd"
    else if n % 10 == 3
    then codes "rd"
    else codes "th"

unfoldable pub ordinal : ℕ → Text
unfolding print_nat ordinal_suffix
ordinal n = print_nat n ++ ordinal_suffix n

-- `joinAnd`: the parts but the last are joined by commas.
unfoldable pub but_last : List Text → List Text
but_last [] = []
but_last (part ∷ []) = []
but_last (part ∷ next ∷ parts) = part ∷ but_last (next ∷ parts)

unfoldable pub last_text : List Text → Text
last_text [] = []
last_text (part ∷ []) = part
last_text (part ∷ next ∷ parts) = last_text (next ∷ parts)

unfoldable pub join_and : List Text → Text
unfolding join but_last last_text
join_and [] = []
join_and (part ∷ []) = part
join_and (part ∷ next ∷ parts) =
    join (codes ", ") (but_last (part ∷ next ∷ parts))
    ++ (codes " and " ++ last_text (part ∷ next ∷ parts))

-- `days.length === count && days.join() === text`.
unfoldable pub are_days : ℕ → Text → List ℕ → Bool
unfolding same_text join print_nat
are_days count text days =
    length days == count && same_text (join (codes ",") (map print_nat days)) text

-- `describeSchedule` of a schedule that is read.
unfoldable pub describe : Schedule → Text
unfolding are_days weekday_short join ordinal pad_start print_nat sort
describe Schedule.manual = codes "Manual only"
describe (Schedule.hourly minute) =
    if minute == 0
    then codes "Hourly, on the hour"
    else codes "Hourly at :" ++ pad_start (print_nat minute)
describe (Schedule.daily time) = codes "Daily at " ++ time
describe (Schedule.weekly time weekdays) =
    let days = sort weekdays in
    if length days == 7
    then codes "Every day at " ++ time
    else if are_days 5 (codes "1,2,3,4,5") days
    then codes "Mon to Fri at " ++ time
    else if are_days 2 (codes "0,6") days
    then codes "Weekends at " ++ time
    else codes "Weekly on "
      ++ (join (codes ", ") (map weekday_short days) ++ (codes " at " ++ time))
describe (Schedule.monthly time day) =
    if day == 31
    then codes "Monthly on the last day at " ++ time
    else codes "Monthly on the " ++ (ordinal day ++ (codes " at " ++ time))
describe (Schedule.advanced cron) =
    if is_empty cron then codes "Advanced" else codes "Advanced · " ++ cron

-- `describeSchedule`.
unfoldable pub describe_schedule : Value → Text
unfolding describe parse_schedule
describe_schedule value = describe (parse_schedule value)

-- `describeScheduleSentence`.
unfoldable pub describe_schedule_sentence : Schedule → Text
unfolding weekday_long join_and ordinal pad_start print_nat sort
describe_schedule_sentence Schedule.manual =
    codes "Never runs on its own. You start it from the Backup Jobs page."
describe_schedule_sentence (Schedule.hourly minute) =
    if minute == 0
    then codes "Runs every hour, on the hour."
    else codes "Runs every hour at " ++ (pad_start (print_nat minute) ++ codes " minutes past.")
describe_schedule_sentence (Schedule.daily time) = codes "Runs every day at " ++ (time ++ codes ".")
describe_schedule_sentence (Schedule.weekly time weekdays) =
    if is_empty weekdays
    then codes "Pick at least one day."
    else if length (sort weekdays) == 7
    then codes "Runs every day at " ++ (time ++ codes ".")
    else codes "Runs every "
      ++ (join_and (map weekday_long (sort weekdays)) ++ (codes " at " ++ (time ++ codes ".")))
describe_schedule_sentence (Schedule.monthly time day) =
    if day == 31
    then codes "Runs on the last day of every month at " ++ (time ++ codes ".")
    else codes "Runs on the "
      ++ (ordinal day ++ (codes " of every month at " ++ (time ++ codes ".")))
describe_schedule_sentence (Schedule.advanced cron) =
    if is_empty cron
    then codes "Enter a five-field cron expression."
    else codes "Runs on the cron expression " ++ (cron ++ codes ".")

-- `formatWallClock`.
unfoldable pub format_wall_clock : Option Date → Text
unfolding text_at pad_time print_nat
format_wall_clock none = codes "—"
format_wall_clock (some d) =
    text_at long_days (get_day d) []
    ++ (codes " "
        ++ (print_nat d.date
            ++ (codes " "
                ++ (text_at short_months (get_month d) []
                    ++ (codes ", " ++ pad_time (get_hours d) (get_minutes d))))))

abbrev pub is_manual : Schedule → Bool
is_manual Schedule.manual = true
is_manual _ = false

-- `describeNextRun`; an empty text is no next run.
unfoldable pub describe_next_run : (Text → Text) → Text → Bool → Value → Text
unfolding parse_schedule
describe_next_run format_relative next_run enabled schedule =
    if not (is_empty next_run)
    then codes "Next run " ++ format_relative next_run
    else if not enabled
    then codes "Disabled"
    else if is_manual (parse_schedule schedule)
    then codes "Manual"
    else codes "Not scheduled"
