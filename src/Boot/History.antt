-- ===== src/Boot/History.antt =====
-- The boots of a data directory and the copies of its database, and what holds after any of them.
mod Still
mod Marks
mod Recorded
mod Mono
pub mod Guard
pub mod Counters
use piecesoflife.Prelude.{List, true}
use piecesoflife.Boot.State.{Sql, Database, Step, Directory}
use piecesoflife.Boot.Migrations.{Entry, with_db}
use piecesoflife.Boot.{start_database}

module _ {S : Type 0} where
  -- A new process, whose steps go as the list says.
  abbrev pub power_on : List Step → Directory S → Directory S
  power_on steps d = record d { foreign_keys = true; steps = steps }

  module _ (sql : Sql S) where
    -- What a directory can become: boots of any release, finished or not, and the program's writes.
    pub data Runs (d : Directory S) : Directory S → Type 0 where
      begin : Runs d d
      boot :
          {e : Directory S}
          → Runs d e
          → (entries : List Entry) (steps : List Step)
          → Runs d (start_database sql entries (power_on steps e)).1
      write :
          {e : Directory S} → Runs d e → (t : S) → Runs d (with_db (record e.db { tables = t }) e)
