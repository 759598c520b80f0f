-- ===== src/Store/WellFormed.antt =====
-- The well-formedness of the tables, and that each statement keeps it.
pub mod Operations
pub mod Schedule
pub mod Aside
pub mod Asked
pub mod Answers
pub mod People
pub mod Curated
use piecesoflife.Prelude.{
  ℕ, suc, ◌≤◌, ◌≡◌, refl, Bool, true, false, Option, none, some, List, [], ◌∷◌, ◌++◌, arith, ◌==◌,
  ◌∙◌, All, exists_where, delete_where, update_where, Bool-cases, inl, inr,
}
use piecesoflife.Prelude.Distinct.{
  Distinct, Distinct-append, Distinct-delete, Distinct-update, All-append,
}
use piecesoflife.Store.Rows.{Db, Issue, SchedulerEvent, EventType, is_type}
use piecesoflife.Store.Exec.{Result, ok}
use piecesoflife.Store.Exec.Respects.{
  IsPreorder, respects_rules, Respects-exec, Grants, Grants-ok, Grants-err, Grants-if, grants_rules,
}
use piecesoflife.Store.Sql.{same_issue, same_key, new_event, add_event, insert_event, delete_events}

-- Equality of the unique key of two events, and of the ids of two rows.
abbrev pub same_event : SchedulerEvent → SchedulerEvent → Bool
same_event x y = same_key x.issue_id x.event_type x.scheduled_at y

abbrev pub same_event_id : SchedulerEvent → SchedulerEvent → Bool
same_event_id x y = x.id == y.id

abbrev pub same_issue_id : Issue → Issue → Bool
same_issue_id x y = x.id == y.id

-- Ids are unique and were given out; no two events share issue, type and time.
pub record IsWellFormed (db : Db) : Type 0 where
  pub event_keys : Distinct same_event db.events
  pub event_ids : Distinct same_event_id db.events
  pub event_ids_given : All (λ (ev : SchedulerEvent). ev.id ≤ db.event_seq) db.events
  pub issue_ids : Distinct same_issue_id db.issues
  pub issue_ids_given : All (λ (iss : Issue). iss.id ≤ db.issue_seq) db.issues

-- The relation "if the one is well-formed, so is the other".
abbrev pub KeepsForm : Db → Db → Type 0
KeepsForm d e = IsWellFormed d → IsWellFormed e

pub KeepsForm-preorder : IsPreorder KeepsForm
KeepsForm-preorder = record { same = λ d h. h; chain = λ d e f p q h. q (p h) }

same_issue_comm : (a b : Option ℕ) → same_issue a b ≡ same_issue b a
same_issue_comm none none = ground arith
same_issue_comm none (some b) = ground arith
same_issue_comm (some a) none = ground arith
same_issue_comm (some a) (some b) = ground arith

same_event_comm : (x y : SchedulerEvent) → same_event x y ≡ same_event y x
same_event_comm x y = ground (arith, same_issue_comm x.issue_id y.issue_id)

fresh_id :
    (n : ℕ) (ev : SchedulerEvent) (evs : List SchedulerEvent)
    → ev.id ≡ suc n
    → All (λ (x : SchedulerEvent). x.id ≤ n) evs
    → exists_where (same_event_id ev) evs ≡ false
fresh_id n ev [] e h = ground arith
fresh_id n ev (x ∷ xs) e h = ground (arith, fresh_id n ev xs e h.1)

grown :
    (n : ℕ) (evs : List SchedulerEvent)
    → All (λ (x : SchedulerEvent). x.id ≤ n) evs
    → All (λ (x : SchedulerEvent). x.id ≤ suc n) evs
grown n [] h = h
grown n (x ∷ xs) h = ground (arith, grown n xs h.1)

-- A row whose key is free.
pub add_event-KeepsForm :
    (db : Db) (issue_id : Option ℕ) (event_type : EventType) (scheduled_at now : ℕ)
    → exists_where (same_key issue_id event_type scheduled_at) db.events ≡ false
    → KeepsForm db (add_event db issue_id event_type scheduled_at now)
add_event-KeepsForm db issue_id event_type scheduled_at now free h = record {
  event_keys =
      Distinct-append same_event db.events new (λ x. same_event_comm x new) h.event_keys free;
  event_ids =
      Distinct-append same_event_id db.events new (λ x. ground arith) h.event_ids
        (fresh_id db.event_seq new db.events (ground arith) h.event_ids_given);
  event_ids_given =
      All-append (λ (x : SchedulerEvent). x.id ≤ suc db.event_seq) db.events new
        (grown db.event_seq db.events h.event_ids_given) (omega arith);
  issue_ids = h.issue_ids;
  issue_ids_given = h.issue_ids_given;
}
  where
    new : SchedulerEvent
    new = new_event db issue_id event_type scheduled_at now

pub insert_event-KeepsForm :
    (issue_id : Option ℕ) (event_type : EventType) (scheduled_at now : ℕ) (db : Db)
    → Grants KeepsForm db (insert_event issue_id event_type scheduled_at now db)
unfolding insert_event
insert_event-KeepsForm issue_id event_type scheduled_at now db =
    search (grants_rules, add_event-KeepsForm) depth 9

All-delete {ℓ} :
    {A : Type ℓ} (P : A → Type 0) (q : A → Bool) (xs : List A)
    → All P xs
    → All P (delete_where q xs)
All-delete P q [] h = h
All-delete P q (x ∷ xs) h = elim (Bool-cases (q x)) [
  | inl e ↦ rw e (All-delete P q xs h.1)
  | inr e ↦ rw e (h.0, All-delete P q xs h.1)
]

All-update {ℓ} :
    {A : Type ℓ} (P : A → Type 0) (q : A → Bool) (f : A → A) (xs : List A)
    → ((x : A) → P x → P (f x))
    → All P xs
    → All P (update_where q f xs)
All-update P q f [] k h = h
All-update P q f (x ∷ xs) k h = elim (Bool-cases (q x)) [
  | inl e ↦ rw e (k x h.0, All-update P q f xs k h.1)
  | inr e ↦ rw e (h.0, All-update P q f xs k h.1)
]

drop_events-KeepsForm :
    (p : SchedulerEvent → Bool) (db : Db)
    → KeepsForm db (record db { events = delete_where p db.events })
drop_events-KeepsForm p db h = record {
  event_keys = Distinct-delete same_event p db.events h.event_keys;
  event_ids = Distinct-delete same_event_id p db.events h.event_ids;
  event_ids_given =
      All-delete (λ (ev : SchedulerEvent). ev.id ≤ db.event_seq) p db.events h.event_ids_given;
  issue_ids = h.issue_ids;
  issue_ids_given = h.issue_ids_given;
}

pub delete_events-KeepsForm :
    (p : SchedulerEvent → Bool) (db : Db) → Grants KeepsForm db (delete_events p db)
unfolding delete_events
delete_events-KeepsForm p db = search (grants_rules, drop_events-KeepsForm)

-- An update of events that keeps their ids and keys.
pub update_events-KeepsForm :
    (p : SchedulerEvent → Bool) (f : SchedulerEvent → SchedulerEvent) (db : Db)
    → ((x : SchedulerEvent) → (f x).id ≡ x.id)
    → ((x y : SchedulerEvent) → same_event (f x) y ≡ same_event x y)
    → KeepsForm db (record db { events = update_where p f db.events })
update_events-KeepsForm p f db id_kept key_kept h = record {
  event_keys =
      Distinct-update same_event p f db.events key_kept
        (λ x y. same_event_comm x (f y) ∙ key_kept y x ∙ same_event_comm y x) h.event_keys;
  event_ids =
      Distinct-update same_event_id p f db.events (λ x y. rw (id_kept x)) (λ x y. rw (id_kept y))
        h.event_ids;
  event_ids_given =
      All-update (λ (ev : SchedulerEvent). ev.id ≤ db.event_seq) p f db.events
        (λ x k. rw (id_kept x) k) h.event_ids_given;
  issue_ids = h.issue_ids;
  issue_ids_given = h.issue_ids_given;
}

-- An update of issues that keeps their ids.
pub update_issues-KeepsForm :
    (p : Issue → Bool) (f : Issue → Issue) (db : Db)
    → ((x : Issue) → (f x).id ≡ x.id)
    → KeepsForm db (record db { issues = update_where p f db.issues })
update_issues-KeepsForm p f db id_kept h = record {
  event_keys = h.event_keys;
  event_ids = h.event_ids;
  event_ids_given = h.event_ids_given;
  issue_ids =
      Distinct-update same_issue_id p f db.issues (λ x y. rw (id_kept x)) (λ x y. rw (id_kept y))
        h.issue_ids;
  issue_ids_given =
      All-update (λ (iss : Issue). iss.id ≤ db.issue_seq) p f db.issues (λ x k. rw (id_kept x) k)
        h.issue_ids_given;
}

fresh_issue_id :
    (n : ℕ) (iss : Issue) (xs : List Issue)
    → iss.id ≡ suc n
    → All (λ (x : Issue). x.id ≤ n) xs
    → exists_where (same_issue_id iss) xs ≡ false
fresh_issue_id n iss [] e h = ground arith
fresh_issue_id n iss (x ∷ xs) e h = ground (arith, fresh_issue_id n iss xs e h.1)

grown_issues :
    (n : ℕ) (xs : List Issue)
    → All (λ (x : Issue). x.id ≤ n) xs
    → All (λ (x : Issue). x.id ≤ suc n) xs
grown_issues n [] h = h
grown_issues n (x ∷ xs) h = ground (arith, grown_issues n xs h.1)

pub add_issue-KeepsForm :
    (iss : Issue) (db : Db)
    → iss.id ≡ suc db.issue_seq
    → KeepsForm db (record db { issues = db.issues ++ iss ∷ []; issue_seq = suc db.issue_seq })
add_issue-KeepsForm iss db new_id h = record {
  event_keys = h.event_keys;
  event_ids = h.event_ids;
  event_ids_given = h.event_ids_given;
  issue_ids =
      Distinct-append same_issue_id db.issues iss (λ x. ground arith) h.issue_ids
        (fresh_issue_id db.issue_seq iss db.issues new_id h.issue_ids_given);
  issue_ids_given =
      All-append (λ (x : Issue). x.id ≤ suc db.issue_seq) db.issues iss
        (grown_issues db.issue_seq db.issues h.issue_ids_given) (omega arith);
}

-- What is written beside the events and the issues is no matter.
pub aside-KeepsForm :
    (d e : Db)
    → e.events ≡ d.events
    → e.event_seq ≡ d.event_seq
    → e.issues ≡ d.issues
    → e.issue_seq ≡ d.issue_seq
    → KeepsForm d e
aside-KeepsForm d e ev es iss is h = record {
  event_keys = rw ev h.event_keys;
  event_ids = rw ev h.event_ids;
  event_ids_given = rw (ev, es) h.event_ids_given;
  issue_ids = rw iss h.issue_ids;
  issue_ids_given = rw (iss, is) h.issue_ids_given;
}

-- For the operations that leave the events and the issues alone.
pub ruleset beside_rules =
    (respects_rules, KeepsForm-preorder, Respects-exec, grants_rules, aside-KeepsForm, refl)
