-- ===== src/Rounds.antt =====
-- internal/server/actions.go, issues.go and schedule.go: when a round opens, reminds and closes, and
-- how the next round is queued. Go's time package comes in as a parameter.
pub mod Plan
pub mod Queue
pub mod Senders
pub mod Opening
pub mod Publishing
use text.Mathlib.Text.{◌==◌ as same_text}
use piecesoflife.Prelude.{
  ℕ, ◌+◌, String, Bool, true, false, not, ◌&&◌, ◌||◌, Option, none, some, List, [], ◌∷◌, ◌++◌, ltb,
  ◌==◌, if◌then◌else◌,
}
use piecesoflife.Store.Rows.{
  Issue, Settings, Frequency, biweekly, monthly, quarterly, SchedulerEvent, SchedulerEventSpec,
  EventType, reminder_1, reminder_2, admin_summary, auto_close, create_next_issue, published,
  is_reminder,
}
use piecesoflife.Store.Exec.{Result, ok, err, Exec, Err, pure, raise, attempt, get_now, ◌>>=◌, ◌>>◌}
use piecesoflife.Store.Events.{has_recent_fired_reminder}
use piecesoflife.Store.Schedule.{ScheduleUpdate, apply_schedule}
use piecesoflife.Store.Groups.{get_settings}

-- A date and a time of day, as time.Time shows it in a location and time.Date takes it.
pub record Civil : Type 0 where
  pub year : ℕ
  pub month : ℕ
  pub day : ℕ
  pub hour : ℕ
  pub minute : ℕ
  pub second : ℕ

-- Go's time package: locations, the date of an instant in a location, time.Date with its
-- normalisation, and AddDate(0, 0, n) and AddDate(0, 0, -n) on a time in a location. `stored` is the
-- location of the times that the driver reads from the database.
pub record Calendar (Zone : Type 0) : Type 0 where
  pub utc : Zone
  pub stored : Zone
  pub load_location : String → Option Zone
  pub civil : Zone → ℕ → Civil
  pub date : Zone → Civil → ℕ
  pub add_days : Zone → ℕ → ℕ → ℕ
  pub sub_days : Zone → ℕ → ℕ → ℕ

-- 12 hours, in seconds
abbrev pub min_reminder_lead : ℕ
min_reminder_lead = 43200

abbrev pub effective_window_days : Settings → ℕ
effective_window_days settings =
    if ltb settings.submission_window_days 3 then 7 else settings.submission_window_days

-- An event of a round's plan; all but the closing are left out where they come too soon.
abbrev pub keep_event : ℕ → SchedulerEventSpec → Bool
keep_event now spec = not (ltb spec.scheduled_at (now + min_reminder_lead))

unfoldable pub soon_left_out : ℕ → List SchedulerEventSpec → List SchedulerEventSpec
soon_left_out now [] = []
soon_left_out now (spec ∷ specs) =
    let rest = soon_left_out now specs in if keep_event now spec then spec ∷ rest else rest

abbrev pub closing : ℕ → SchedulerEventSpec
closing deadline = record { event_type = auto_close; scheduled_at = deadline }

-- Is a reminder to the members among the events?
abbrev pub has_reminder : List SchedulerEventSpec → Bool
has_reminder [] = false
has_reminder (spec ∷ specs) = is_reminder spec.event_type || has_reminder specs

abbrev pub immediate : ℕ → SchedulerEventSpec
immediate now = record { event_type = reminder_2; scheduled_at = now }

-- The `switch` on what is known of recent reminders.
unfoldable pub with_immediate : ℕ → List SchedulerEventSpec → Result Bool → List SchedulerEventSpec
with_immediate now events (err e) = events
with_immediate now events (ok true) = events
with_immediate now events (ok false) = events ++ immediate now ∷ []

abbrev pub settings_or_none : Result Settings → Option Settings
settings_or_none (err e) = none
settings_or_none (ok settings) = some settings

abbrev pub deadline_update : Issue → ℕ → Option String → List SchedulerEventSpec → ScheduleUpdate
deadline_update iss new_deadline title events = record {
  group_id = iss.group_id;
  current_issue_id = some iss.id;
  current_deadline = some new_deadline;
  current_title = title;
  current_events = events;
  next_open = none;
  next_close = none;
  next_month = 0;
  next_year = 0;
  window_days = 0;
}

module _ {Zone : Type 0} (cal : Calendar Zone) where
  abbrev pub location_or_utc : Option Zone → Zone
  location_or_utc none = cal.utc
  location_or_utc (some loc) = loc

  unfoldable pub settings_location : Option Settings → Zone
  settings_location none = cal.utc
  settings_location (some settings) =
      if same_text settings.timezone ""
      then cal.utc
      else location_or_utc (cal.load_location settings.timezone)

  unfoldable pub at_local_hour : ℕ → ℕ → Zone → ℕ
  at_local_hour t hour loc =
      cal.date loc (record (cal.civil loc t) { hour = hour; minute = 0; second = 0 })

  unfoldable pub default_deadline : ℕ → Settings → Zone → ℕ
  default_deadline opening settings loc =
      at_local_hour (cal.add_days loc opening (effective_window_days settings)) 21 loc

  -- The emails of a round that closes at a time of the location `own`.
  unfoldable pub email_slots : Option Settings → ℕ → Zone → List SchedulerEventSpec
  email_slots settings deadline own =
      let loc = settings_location settings in
      record {
        event_type = reminder_1;
        scheduled_at = at_local_hour (cal.sub_days own deadline 3) 10 loc;
      }
      ∷ record {
        event_type = reminder_2;
        scheduled_at = at_local_hour (cal.sub_days own deadline 1) 10 loc;
      }
      ∷ record {
        event_type = admin_summary;
        scheduled_at = at_local_hour (cal.sub_days own deadline 1) 10 loc;
      }
      ∷ []

  unfoldable pub issue_event_specs : ℕ → Option Settings → ℕ → Zone → List SchedulerEventSpec
  issue_event_specs now settings deadline own =
      soon_left_out now (email_slots settings deadline own) ++ closing deadline ∷ []

  unfoldable pub rescheduled_specs :
      Option Settings → ℕ → ℕ → ℕ → Zone → ℕ → Exec (List SchedulerEventSpec)
  rescheduled_specs settings issue_id old_deadline new_deadline own now =
      let events = issue_event_specs now settings new_deadline own in
      if ltb new_deadline old_deadline
      then pure (events ++ immediate now ∷ [])
      else if has_reminder events
      then pure events
      else do
        recent ← attempt (has_recent_fired_reminder issue_id)
        pure (with_immediate now events recent)

  unfoldable pub rescheduled_issue_event_specs :
      Option Settings → ℕ → ℕ → ℕ → Zone → Exec (List SchedulerEventSpec)
  rescheduled_issue_event_specs settings issue_id old_deadline new_deadline own = do
    now ← get_now
    rescheduled_specs settings issue_id old_deadline new_deadline own now

  unfoldable pub reschedule_issue_deadline : Issue → ℕ → Zone → Option String → Exec (Unit {0})
  reschedule_issue_deadline iss new_deadline own title = do
    settings ← attempt (get_settings iss.group_id)
    events ←
        rescheduled_issue_event_specs (settings_or_none settings) iss.id iss.deadline new_deadline
          own
    draft ← apply_schedule (deadline_update iss new_deadline title events)
    pure tt
