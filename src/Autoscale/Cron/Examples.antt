-- ===== src/Autoscale/Cron/Examples.antt =====
-- The theorems on internal/autoscale/evaluator/schedule.go at a concrete expression.
use capper.Prelude.{
  ◌⊎◌, ◌+◌, ◌-◌, ◌<◌, ◌≤◌, String, true, false, List, [], ◌∷◌, Option, some, ◌≡◌, refl, inr, arith,
}
use capper.Prelude.Bytes.{codes, has_prefix, bytes_eq, cut}
use capper.Prelude.Int.{pos, sub64}
use capper.Autoscale.Evaluators.Range.{Good}
use capper.Autoscale.Cron.{
  Calendar, ScheduleEntry, last_fired, words, match_field, match_part, split, atoi, match_cron,
  schedule_evaluate, week,
}
use capper.Autoscale.Cron.Latest.{last_fired_latest, schedule_evaluate-Good}
use capper.Autoscale.Examples.{policy}

-- Every minute is minute 0 or 1 of its hour.
abbrev clock : Calendar
clock = record {
  minute = λ t. t - 10_080;
  hour = λ t. 8;
  day = λ t. 1;
  month = λ t. 1;
  weekday = λ t. 1;
}

abbrev at_eight : String
at_eight = "1-2/1,40 */4 * * 1"

fired : last_fired clock (codes at_eight) 10_083 ≡ some 10_082
unfolding last_fired words match_cron match_field match_part split atoi has_prefix bytes_eq cut
    sub64
fired = refl

last_fired_latest_example :
    (match_cron clock (words (codes at_eight)) 10_082 ≡ true)
    × (10_082 ≤ 10_083)
    × (10_083 < 10_082 + week)
    × ((10_083 ≤ 10_082)
        ⊎ ((10_083 < 10_083) ⊎ (match_cron clock (words (codes at_eight)) 10_083 ≡ false)))
last_fired_latest_example =
    last_fired_latest clock (codes at_eight) 10_083 10_082 10_083 (omega arith) fired

abbrev entries : String → Option (List ScheduleEntry)
entries text = some (record { cron = codes at_eight; desired_replicas = pos 40 } ∷ [])

schedule_evaluate-Good_example :
    Good (pos 1) (pos 10) (pos 4) (schedule_evaluate clock entries 10_083 policy (pos 4))
schedule_evaluate-Good_example =
    schedule_evaluate-Good policy (pos 4) (inr (omega arith)) clock entries 10_083
