-- ===== src/Store/Emails/Once.antt =====
-- internal/store/email.go: the log row that stands for the attempt to mail a recipient.
use piecesoflife.Prelude.{
  ℕ, ◌≡◌, refl, sym, ap, ◌∙◌, Bool, true, false, Option, none, some, List, [], ◌∷◌, ◌++◌, arith,
  first_where, first_where-update, ==_refl, Bool-cases, inl, inr,
}
use piecesoflife.Store.Rows.{Db, EmailLog, EmailType, pending, sent, is_sent, email_code}
use piecesoflife.Store.Exec.{
  Result, ok, err, World, Exec, tick, calm, pure, query_write, exec, framed, transaction, ◌>>=◌,
}
use piecesoflife.Store.Exec.Inversion.{bind_ok, exec_ok, transaction_ok}
use piecesoflife.Store.Emails.{
  is_attempt, new_log, insert_log, is_log, retry, reset_log, reserve, begin_scheduler_email_attempt,
  set_outcome, update_email_log,
}

-- The log row of an attempt.
abbrev pub attempt_log : ℕ → ℕ → EmailType → Db → Option EmailLog
attempt_log event_id user_id email_type db =
    first_where (is_attempt event_id user_id email_type) db.emails

first_where-append {ℓ} :
    {A : Type ℓ} (p : A → Bool) (xs : List A) (y : A)
    → first_where p xs ≡ none
    → p y ≡ true
    → first_where p (xs ++ y ∷ []) ≡ some y
first_where-append p [] y none_yet is = ground arith
first_where-append p (x ∷ xs) y none_yet is = ground (arith, first_where-append p xs y)

module _ (event_id user_id : ℕ) (group_id issue_id : Option ℕ) (email_type : EmailType) where
  abbrev attempt_begun : Exec (ℕ × Bool)
  attempt_begun = begin_scheduler_email_attempt event_id user_id group_id issue_id email_type

  insert_log-attempt :
      (db d : Db) (id : ℕ)
      → attempt_log event_id user_id email_type db ≡ none
      → insert_log group_id (some user_id) issue_id (some event_id) email_type pending false db
        ≡ ok (id, d)
      → (log : EmailLog) × (attempt_log event_id user_id email_type d ≡ some log) × (log.id ≡ id)
  unfolding insert_log
  insert_log-attempt db d id free h = (
    new_log db group_id (some user_id) issue_id (some event_id) email_type pending false,
    ground (
      arith,
      ==_refl event_id,
      ==_refl user_id,
      ==_refl (email_code email_type),
      first_where-append (is_attempt event_id user_id email_type) db.emails
          (new_log db group_id (some user_id) issue_id (some event_id) email_type pending false)
          free,
    ),
    ground arith,
  )

  reserved_new :
      (w : World) (id : ℕ) (send : Bool)
      → attempt_log event_id user_id email_type w.db ≡ none
      → (reserve event_id user_id group_id issue_id email_type none w).0 ≡ ok (id, send)
      → (log : EmailLog) × (attempt_log event_id user_id email_type
            (reserve event_id user_id group_id issue_id email_type none w).1.db
          ≡ some log)
        × (log.id ≡ id)
  unfolding reserve pure
  reserved_new w id send free h =
      let insert =
        exec
          (insert_log group_id (some user_id) issue_id (some event_id) email_type pending false) in
      let (n, inserted, run) = bind_ok insert (λ m. pure (m, true)) w h in
      let (d, stmt, is_d) =
        exec_ok
          (insert_log group_id (some user_id) issue_id (some event_id) email_type pending false) w
          inserted in
      let (log, is, has) = insert_log-attempt w.db d n free stmt in
      (
        log,
        ap (λ p. attempt_log event_id user_id email_type p.1.db) run
            ∙ ap (attempt_log event_id user_id email_type) is_d
            ∙ is,
        has ∙ ap (λ r. elim r [ ok a ↦ a.0 | err e ↦ n ]) (ap (λ p. p.0) (sym run) ∙ h),
      )

  reserved_old :
      (w : World) (old : EmailLog) (id : ℕ) (send : Bool)
      → attempt_log event_id user_id email_type w.db ≡ some old
      → (reserve event_id user_id group_id issue_id email_type (some old) w).0 ≡ ok (id, send)
      → (log : EmailLog) × (attempt_log event_id user_id email_type
            (reserve event_id user_id group_id issue_id email_type (some old) w).1.db
          ≡ some log)
        × (log.id ≡ id)
  unfolding reserve pure exec reset_log ◌>>=◌
  reserved_old w old id send is h = elim (Bool-cases (is_sent old.status)) [
    | inl e ↦ (old, ground arith, ground arith)
    | inr e ↦ (
      retry group_id issue_id old,
      ground (
        arith,
        ==_refl old.id,
        first_where-update (is_attempt event_id user_id email_type) (is_log old.id)
            (retry group_id issue_id) w.db.emails old (λ y. refl) is,
      ),
      ground arith,
    )
  ]

  reserved_log :
      (w : World) (found : Option EmailLog) (id : ℕ) (send : Bool)
      → attempt_log event_id user_id email_type w.db ≡ found
      → (reserve event_id user_id group_id issue_id email_type found w).0 ≡ ok (id, send)
      → (log : EmailLog) × (attempt_log event_id user_id email_type
            (reserve event_id user_id group_id issue_id email_type found w).1.db
          ≡ some log)
        × (log.id ≡ id)
  reserved_log w none id send is h = reserved_new w id send is h
  reserved_log w (some old) id send is h = reserved_old w old id send is h

  abbrev look : World → Result (Option EmailLog) × World
  look = query_write (λ db. ok (first_where (is_attempt event_id user_id email_type) db.emails))

  looked :
      (w : World) (found : Option EmailLog)
      → (look w).0 ≡ ok found
      → (attempt_log event_id user_id email_type (look w).1.db ≡ found)
  unfolding query_write
  looked w found h = ground arith

  -- An attempt that is begun has its log row.
  begun_log :
      (w : World) (id : ℕ) (send : Bool)
      → (attempt_begun w).0 ≡ ok (id, send)
      → (log : EmailLog) × (attempt_log event_id user_id email_type (attempt_begun w).1.db
          ≡ some log)
        × (log.id ≡ id)
  unfolding begin_scheduler_email_attempt
  begun_log w id send h =
      let step = reserve event_id user_id group_id issue_id email_type in
      let (body, kept) = transaction_ok (look >>= step) w h in
      let (found, is, run) = bind_ok look step (tick w) body in
      let (log, has, same) =
        reserved_log (look (tick w)).1 found id send (looked (tick w) found is)
          (ap (λ p. p.0) (sym run) ∙ body) in
      (log, ap (attempt_log event_id user_id email_type) (kept ∙ ap (λ p. p.1.db) run) ∙ has, same)

  recorded :
      (w : World) (log : EmailLog) (at : Option ℕ)
      → attempt_log event_id user_id email_type w.db ≡ some log
      → attempt_log event_id user_id email_type
          (update_email_log log.id sent at false (calm w)).1.db
        ≡ some (set_outcome sent at false log)
  unfolding update_email_log exec
  recorded w log at is = ground (
    arith,
    ==_refl log.id,
    first_where-update (is_attempt event_id user_id email_type) (is_log log.id)
        (set_outcome sent at false) w.db.emails log (λ y. refl) is,
  )

  refused :
      (w : World) (log : EmailLog)
      → attempt_log event_id user_id email_type w.db ≡ some log
      → is_sent log.status ≡ true
      → attempt_begun (calm w) ≡ (ok (log.id, false), calm w)
  unfolding begin_scheduler_email_attempt reserve transaction framed query_write pure ◌>>=◌
  refused w log is sent_already = ground arith

  -- Once an attempt was begun and its log row then marked sent, beginning it again, on any later
  -- retry, answers with the same row and not to send, and changes nothing.
  pub sent_once :
      (w : World) (id : ℕ) (send : Bool) (at : Option ℕ)
      → (attempt_begun w).0 ≡ ok (id, send)
      → let w' = (update_email_log id sent at false (calm (attempt_begun w).1)).1 in
        attempt_begun (calm w') ≡ (ok (id, false), calm w')
  sent_once w id send at h =
      let (log, is, same) = begun_log w id send h in
      rw (sym same) (
        refused (update_email_log log.id sent at false (calm (attempt_begun w).1)).1
          (set_outcome sent at false log) (recorded (attempt_begun w).1 log at is) refl)
