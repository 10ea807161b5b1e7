-- ===== src/Monitor.antt =====
-- The freshness supervision of the database backups: `scripts/postgres_backup_monitor.py`. Times
-- count microseconds. The receiver's validation of a receipt is an input: the time of a receipt
-- that it accepts, and nothing for one that it rejects.
use Prim.Native.Nat.{◌/◌}
use daily_firehose.Common.{
  ℕ, ◌+◌, ◌-◌, ◌*◌, String, Bool, true, false, not, ◌&&◌, ◌||◌, Option, none, some, List, [], ◌∷◌,
  length, leb, max, minute, if◌then◌else◌,
}
pub mod Freshness
pub mod Notice
mod Examples

pub data Severity : Type 0 where
  ok missed critical containment : Severity

abbrev pub hour : ℕ
hour = 60 * minute

-- `REMINDER_INTERVAL`
abbrev pub reminder_interval : ℕ
reminder_interval = 24 * hour

unfoldable pub classify_receipt_age : Option ℕ → Severity
classify_receipt_age none = containment
classify_receipt_age (some age) =
    if leb (24 * hour) age
    then containment
    else if leb (20 * hour) age
    then critical
    else if leb (14 * hour) age
    then missed
    else ok

pub record CheckResult : Type 0 where
  pub severity : Severity
  pub receipt_age : Option ℕ
  pub valid_pairs : ℕ

-- the receipts that are valid and not in the future
unfoldable pub receipts_until : ℕ → List (Option ℕ) → List ℕ
receipts_until now [] = []
receipts_until now (none ∷ rest) = receipts_until now rest
receipts_until now (some t ∷ rest) =
    let others = receipts_until now rest in if leb t now then t ∷ others else others

abbrev pub later_of : ℕ → Option ℕ → Option ℕ
later_of t none = some t
later_of t (some u) = some (max t u)

unfoldable pub newest : List ℕ → Option ℕ
newest [] = none
newest (t ∷ rest) = later_of t (newest rest)

abbrev pub age_at : ℕ → Option ℕ → Option ℕ
age_at now none = none
age_at now (some t) = some (now - t)

unfoldable pub inspect_receipts : ℕ → List (Option ℕ) → CheckResult
inspect_receipts now receipts =
    let received = receipts_until now receipts in
    let age = age_at now (newest received) in
    record { severity = classify_receipt_age age; receipt_age = age; valid_pairs = length received }

pub record NotificationState : Type 0 where
  pub severity : Severity
  pub notified_at : Option ℕ

abbrev pub same_severity : Severity → Severity → Bool
same_severity Severity.ok Severity.ok = true
same_severity missed missed = true
same_severity critical critical = true
same_severity containment containment = true
same_severity s t = false

abbrev pub is_ok : Severity → Bool
is_ok Severity.ok = true
is_ok s = false

-- never notified, or at least a day ago
abbrev pub reminder_due : Option ℕ → ℕ → Bool
reminder_due none now = true
reminder_due (some t) now = leb (t + reminder_interval) now

-- `_notification_required`
unfoldable pub notification_required : Option NotificationState → Severity → ℕ → Bool
notification_required none severity now = not (is_ok severity)
notification_required (some previous) severity now =
    not (same_severity previous.severity severity)
    || (not (is_ok severity) && reminder_due previous.notified_at now)

-- the subjects of `_notification_message`
unfoldable pub notification_subject : Severity → String
notification_subject Severity.ok = "Daily Firehose PostgreSQL backup recovered"
notification_subject missed = "Daily Firehose PostgreSQL backup missed"
notification_subject critical = "CRITICAL: Daily Firehose PostgreSQL backup stale"
notification_subject containment = "CONTAINMENT: Daily Firehose PostgreSQL backup stale"

-- the state to keep where no notification is sent
abbrev pub kept_state : Option NotificationState → Severity → NotificationState
kept_state none severity = record { severity = severity; notified_at = none }
kept_state (some previous) severity = previous

-- `format_utc` writes whole seconds.
abbrev pub in_seconds : ℕ → ℕ
in_seconds t = (t / 1000000) * 1000000

-- `check` on its lock: the subject that is sent, and the state that is then on disk. A notifier that
-- raises ends the check before the state is written.
unfoldable pub check_state :
    Bool → Option NotificationState → CheckResult → ℕ → Option String × Option NotificationState
check_state delivered previous result now =
    if notification_required previous result.severity now
    then if delivered
      then (
        some (notification_subject result.severity),
        some (record { severity = result.severity; notified_at = some (in_seconds now) }),
      )
      else (none, previous)
    else (none, some (kept_state previous result.severity))
