-- ===== src/Autoscale/Cron.antt =====
-- The schedule evaluator of internal/autoscale/evaluator/schedule.go: cron fields, the search for the
-- last minute at which an expression fired, and the choice of an entry. Minutes are counted from an
-- origin; what Go's `time` makes of a minute, and the JSON decoder, are parameters.
pub mod Examples
pub mod Latest
use capper.Prelude.{
  ℕ, zero, suc, ◌+◌, ◌*◌, ◌-◌, ◌%◌, ◌<◌, ◌≤◌, String, Bool, true, false, not, ◌&&◌, ◌||◌, List, [],
  ◌∷◌, ◌++◌, Option, none, some, any, drop, str_eq, ltb, leb, ◌==◌, if◌then◌else◌,
}
use capper.Prelude.Bytes.{Bytes, codes, bytes_eq, has_prefix, cut}
use capper.Prelude.Int.{ℤ, pos, negsuc, ltb_ℤ, leb_ℤ, eq_ℤ, sub64, pos_part, neg_part}
use capper.Autoscale.{
  AutoscalePolicy, Evaluation, stay, move, hold, disabled, error, clamp, compare_to,
}

-- strconv.Atoi: a sign or none, then digits, within 64 bits.
digits_value : ℕ → Bytes → Option ℕ
digits_value acc [] = some acc
digits_value acc (c ∷ cs) =
    let rest = digits_value (acc * 10 + (c - b'0')) cs in
    if leb b'0' c && leb c b'9' then rest else none

magnitude : Bytes → Option ℕ
magnitude [] = none
magnitude (c ∷ cs) = digits_value 0 (c ∷ cs)

bounded : ℕ → (ℕ → ℤ) → Option ℕ → Option ℤ
bounded limit sign none = none
bounded limit sign (some n) = if leb n limit then some (sign n) else none

negated : ℕ → ℤ
negated zero = pos 0
negated (suc n) = negsuc n

pub atoi : Bytes → Option ℤ
unfolding bounded magnitude digits_value negated
atoi [] = none
atoi (c ∷ cs) =
    if c == b'-'
    then bounded 9_223_372_036_854_775_808 negated (magnitude cs)
    else bounded 9_223_372_036_854_775_807 pos (magnitude (if c == b'+' then cs else c ∷ cs))

-- `a % step == 0` for a positive step.
divides : ℤ → ℤ → Bool
divides step a = (pos_part a + neg_part a) % pos_part step == 0

positive : ℤ → Bool
positive s = ltb_ℤ (pos 0) s

step_part : Option ℤ → ℤ → ℤ → Bool
step_part none val min = false
step_part (some step) val min = positive step && divides step (sub64 val min)

within : Option ℤ → Option ℤ → ℤ → ℤ → Bool
within none hi step val = false
within (some lo) none step val = false
within (some lo) (some hi) step val = leb_ℤ lo val && (leb_ℤ val hi && divides step (sub64 val lo))

-- `lo-hi`, after the step has been cut off.
range_part : Bytes × Option Bytes → ℤ → ℤ → Bool
range_part (lo, none) step val = false
range_part (lo, some hi) step val = within (atoi lo) (atoi hi) step val

stepped_range : Bytes → Option ℤ → ℤ → Bool
stepped_range range none val = false
stepped_range range (some step) val =
    if positive step then range_part (cut b'-' range) step val else false

range_or_step : Bytes × Option Bytes → ℤ → Bool
range_or_step (range, none) val = range_part (cut b'-' range) (pos 1) val
range_or_step (range, some step) val = stepped_range range (atoi step) val

exactly : Option ℤ → ℤ → Bool
exactly none val = false
exactly (some n) val = eq_ℤ n val

-- `*/step`, `*`, `lo-hi`, `lo-hi/step`, or a number.
pub match_part : Bytes → ℤ → ℤ → Bool
unfolding step_part range_or_step stepped_range range_part within exactly divides positive
match_part part val min =
    if has_prefix part (codes "*/")
    then step_part (atoi (drop 2 part)) val min
    else if bytes_eq part (codes "*")
    then true
    else if any (λ c. c == b'-') part
    then range_or_step (cut b'/' part) val
    else exactly (atoi part) val

extend : ℕ → List Bytes → List Bytes
extend c [] = (c ∷ []) ∷ []
extend c (w ∷ ws) = (c ∷ w) ∷ ws

-- strings.Split at one byte.
pub split : ℕ → Bytes → List Bytes
unfolding extend
split sep [] = [] ∷ []
split sep (c ∷ cs) = let rest = split sep cs in if c == sep then [] ∷ rest else extend c rest

pub match_field : Bytes → ℤ → ℤ → Bool
match_field field val min = any (λ part. match_part part val min) (split b',' field)

is_space : ℕ → Bool
is_space c = c == 32 || (leb 9 c && leb c 13)

non_blank : Bytes → Bool
non_blank [] = false
non_blank (c ∷ cs) = true

split_space : Bytes → List Bytes
split_space [] = [] ∷ []
split_space (c ∷ cs) = let rest = split_space cs in if is_space c then [] ∷ rest else extend c rest

keep_words : List Bytes → List Bytes
keep_words [] = []
keep_words (w ∷ ws) = let rest = keep_words ws in if non_blank w then w ∷ rest else rest

-- strings.Fields, for ASCII space.
pub words : Bytes → List Bytes
unfolding split_space is_space keep_words non_blank extend
words s = keep_words (split_space s)

-- What `time` says of a minute.
pub record Calendar : Type 0 where
  pub minute : ℕ → ℕ
  pub hour : ℕ → ℕ
  pub day : ℕ → ℕ
  pub month : ℕ → ℕ
  pub weekday : ℕ → ℕ

pub match_cron : Calendar → List Bytes → ℕ → Bool
match_cron cal (mi ∷ h ∷ d ∷ mo ∷ w ∷ []) t =
    match_field mi (pos (cal.minute t)) (pos 0)
    && (match_field h (pos (cal.hour t)) (pos 0)
        && (match_field d (pos (cal.day t)) (pos 1)
            && (match_field mo (pos (cal.month t)) (pos 1)
                && match_field w (pos (cal.weekday t)) (pos 0))))
match_cron cal fields t = false

-- The walk back from minute `t`, `n` minutes at most.
pub walk_back : (ℕ → Bool) → ℕ → ℕ → Option ℕ
walk_back fires zero t = none
walk_back fires (suc n) t = let rest = walk_back fires n (t - 1) in if fires t then some t else rest

-- A week of minutes, the present one included.
abbrev pub week : ℕ
week = 10_080

five : List Bytes → Bool
five (a ∷ b ∷ c ∷ d ∷ e ∷ []) = true
five fields = false

pub last_fired : Calendar → Bytes → ℕ → Option ℕ
unfolding walk_back five
last_fired cal expr now =
    let fields = words expr in
    if five fields then walk_back (match_cron cal fields) week now else none

pub record ScheduleEntry : Type 0 where
  pub cron : Bytes
  pub desired_replicas : ℤ

-- The entry that fired last so far, with its minute: a later entry takes its place only if it fired
-- strictly later.
later : ScheduleEntry → Option ℕ → Option (ScheduleEntry × ℕ) → Option (ScheduleEntry × ℕ)
later e none best = best
later e (some t) none = some (e, t)
later e (some t) (some (b, u)) = if ltb u t then some (e, t) else some (b, u)

pub best_entry :
    Calendar → ℕ → Option (ScheduleEntry × ℕ) → List ScheduleEntry → Option (ScheduleEntry × ℕ)
unfolding later
best_entry cal now best [] = best
best_entry cal now best (e ∷ es) = best_entry cal now (later e (last_fired cal e.cron now) best) es

chosen : {F : Type 0} → AutoscalePolicy F → ℤ → Option (ScheduleEntry × ℕ) → Evaluation
chosen policy current none = stay hold current false
chosen policy current (some (e, t)) =
    compare_to current (clamp e.desired_replicas policy.min_replicas policy.max_replicas)

scheduled :
    {F : Type 0} → Calendar → ℕ → AutoscalePolicy F → ℤ → Option (List ScheduleEntry) → Evaluation
scheduled cal now policy current none = stay error current true
scheduled cal now policy current (some es) = chosen policy current (best_entry cal now none es)

-- `unmarshal` decodes the entries; `none` is invalid JSON. `now` is the present minute.
pub schedule_evaluate :
    {F : Type 0}
    → Calendar
    → (String → Option (List ScheduleEntry))
    → ℕ
    → AutoscalePolicy F
    → ℤ
    → Evaluation
unfolding scheduled chosen
schedule_evaluate cal unmarshal now policy current =
    if not policy.enabled
    then stay disabled current false
    else if str_eq policy.schedule_json "" || str_eq policy.schedule_json "[]"
    then stay hold current false
    else scheduled cal now policy current (unmarshal policy.schedule_json)
