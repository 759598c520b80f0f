-- ===== src/Rounds/Queue/Times.antt =====
-- When the cadence opens the next round.
use piecesoflife.Prelude.{ℕ, ◌+◌, ◌≤◌, arith}
use piecesoflife.Store.Rows.{Frequency}
use piecesoflife.Rounds.{Calendar, at_local_hour}
use piecesoflife.Rounds.Queue.{next_issue_open_time, cadence_next_open}

-- What Go's time package does in a location, for the morning hour: nine o'clock lies at most 16 hours
-- before any instant of its day, and nine o'clock of the next day at least 23 hours after it, also
-- when the clocks change by an hour.
pub record KeepsMornings {Zone : Type 0} (cal : Calendar Zone) (loc : Zone) : Type 0 where
  pub same_day : (t : ℕ) → t ≤ at_local_hour cal t 9 loc + 57600
  pub next_day :
      (t : ℕ)
      → at_local_hour cal t 9 loc + 82800
        ≤ at_local_hour cal (cal.add_days loc (at_local_hour cal t 9 loc) 1) 9 loc

module _ {Zone : Type 0} (cal : Calendar Zone) where
  slot_ahead :
      (last now : ℕ) (frequency : Frequency)
      → now + 86400 ≤ next_issue_open_time cal last frequency now
  unfolding next_issue_open_time
  slot_ahead last now frequency = ground arith

  -- In a location whose mornings Go keeps apart as days are, the cadence never opens the next round
  -- less than 12 hours from now, however long ago the last round opened.
  pub cadence_next_open_ahead :
      (loc : Zone) (now last : ℕ) (frequency : Frequency)
      → KeepsMornings cal loc
      → now + 43200 ≤ cadence_next_open cal now last frequency loc
  unfolding cadence_next_open
  cadence_next_open_ahead loc now last frequency keeps =
      let slot = next_issue_open_time cal last frequency now in
      ground (arith, slot_ahead last now frequency, keeps.same_day slot, keeps.next_day slot)
