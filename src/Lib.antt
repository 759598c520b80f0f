-- ===== src/Lib.antt =====
-- A verification library for piecesoflife: a newsletter for groups of friends ("Loops"). A Loop's
-- round (issue) opens as a draft becomes "collecting", members answer until its deadline, and it is
-- then published. The program is one process around one SQLite file. What moves rounds along is a
-- table of scheduler events and a loop that fires them.
--
-- The program's parts that are modelled, and where:
-- - internal/store, the access to SQLite: Store/Rows.antt has the tables as lists of records,
--   Store/Exec.antt the read pool, the write connection, statements and transactions, Store/Sql.antt
--   the statements and the constraints that several operations share.
-- - internal/store/scheduler.go: Store/Events.antt (the events), Store/Schedule.antt (ApplySchedule),
--   Store/Labels.antt (the archive labels).
-- - internal/store/issue.go: Store/Issues.antt.
-- - internal/store/group.go and setting.go, what rounds need of them: Store/Groups.antt.
-- - internal/store/auth.go: Store/Auth.antt.
-- - internal/store/email.go, the writing operations: Store/Emails.antt.
-- - internal/store/question.go, question_curation.go and default_question.go: Store/Questions.antt with
--   Bank, Defaults and Curation below it.
-- - internal/store/response.go: Store/Responses.antt, and Store/Responses/Progress.antt for the listings.
-- - internal/store/membership.go, user.go and notification.go: Store/Members.antt.
-- - internal/store/dbstate.go, the migrations of store.go, and their order in main.go: Boot/State.antt
--   (a data directory), Boot/Migrations.antt, Boot/Generation.antt, Boot.antt, and Boot/History.antt
--   (the directories that boots, finished or cut off, lead to). What the SQL of the migrations does is
--   the parameter Sql.
-- - internal/scheduler/scheduler.go: Scheduler.antt. Its Actions interface is a record of actions,
--   which the theorems take as a parameter, as the scheduler takes its field.
-- - internal/auth: Tokens.antt, over Go's hash and encoding packages as the parameter Crypto, and the
--   check of requests in internal/server/middleware.go: Tokens/Csrf.antt. The handlers of the links
--   in emails, in internal/server/auth.go and middleware.go: Tokens/Signin.antt,
--   and asking for one: Tokens/Magic.antt.
-- - internal/server/actions.go, issues.go and schedule.go, of the rounds' life: Rounds.antt (the plan of
--   a round's events and the move of its deadline), Rounds/Queue.antt (the cadence, the queueing of the
--   next round, the sweep over all Loops). Go's time package is the parameter Calendar.
--   Rounds/Senders.antt (the reminders and the summary), Rounds/Opening.antt (the questions, events and
--   emails of an opening round) and Rounds/Publishing.antt (the publication, and the server's actions as
--   the scheduler's interface).
-- Store/Operation.antt lists the store's writing operations as data, for sequences of them. A Go
-- function SomeName is the definition some_name.
--
-- How the code is read:
-- - An action maps a world to a result and a world. The world holds the database, what a stuck read
--   connection would see instead of it, the clock, and lists that say which coming statements the
--   driver fails, which emails are refused and where the context is cancelled. The theorems say
--   whether they hold for all of these or for a driver that fails nothing (`calm`).
-- - An error of Go is a constructor of Err; wrapping and logging are left out. Where the code ignores
--   an error, so does the model (`attempt`).
-- - A transaction runs its body on the database and puts the old one back if any part fails. Begin and
--   commit are statements that may fail.
-- - An instant is a number of whole seconds since 1970, compared as such, and the clock stands still
--   during one store operation; CURRENT_TIMESTAMP is the clock. Ids and counts are unbounded numbers.
-- - Columns that no modelled statement reads are left out, as created_at of questions.
-- - ORDER BY RANDOM() puts the rows in the order of a number that the world gives (`shuffle`), a random
--   token is a hash from the world's list, and the mail server takes or refuses each email as the world
--   says. The rows of a table stand in the order of their ids.
-- - In Boot each step, a statement or a file operation, works, fails, or ends the process. A temporary
--   file is only counted.
-- - An email that a goroutine sends in the background is sent where the goroutine starts.
-- - ORDER BY … LIMIT 1 takes, of equal keys, the row that stands first.
--
-- The one bounded loop is the label walk. Its fuel is the source's own bound of 1200 months, after
-- which it fails as the source does; each stored issue takes at most one of those labels.
--
-- Not modelled: HTTP decoding, pages, templates, media files, export, the mail transports, colours and
-- configuration, which are input and output around this core; and the stores of comments, rambles,
-- diaries and dumps. The digests of comments and the check of the uploads, which the scheduler also
-- calls, are parameters. Timeouts, the heartbeat and the truncation of the write-ahead log change no
-- table.
--
-- Examples.antt has a small database and each theorem at a concrete input.
mod Prelude
pub mod Store
pub mod Boot
pub mod Tokens
pub mod Scheduler
pub mod Rounds
pub mod Examples
