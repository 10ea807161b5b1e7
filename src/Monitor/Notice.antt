-- ===== src/Monitor/Notice.antt =====
-- When the administrators are told.
use daily_firehose.Common.{
  ℕ, ◌+◌, ◌≤◌, ◌≡◌, refl, ◌∙◌, true, false, not, ◌&&◌, Option, none, some, leb, is_some, Bool-cases,
  inl, inr, arith,
}
use daily_firehose.Monitor.{
  Severity, missed, critical, containment, CheckResult, NotificationState, same_severity, is_ok,
  in_seconds, reminder_due, reminder_interval, notification_required, check_state,
}

same_severity_self : (s : Severity) → same_severity s s ≡ true
same_severity_self Severity.ok = refl
same_severity_self missed = refl
same_severity_self critical = refl
same_severity_self containment = refl

is_some-check_state :
    (previous : Option NotificationState) (result : CheckResult) (now : ℕ)
    → is_some (check_state true previous result now).0
      ≡ notification_required previous result.severity now
unfolding check_state
is_some-check_state previous result now =
    elim (Bool-cases (notification_required previous result.severity now)) [
      | inl q ↦ rw q refl
      | inr q ↦ rw q refl
    ]

after_notice :
    (previous : Option NotificationState) (result : CheckResult) (now : ℕ)
    → notification_required previous result.severity now ≡ true
    → (check_state true previous result now).1
      ≡ some (record { severity = result.severity; notified_at = some (in_seconds now) })
unfolding check_state
after_notice previous result now required = rw required refl

reminder_due-le :
    (o : Option ℕ) (s t : ℕ) → s ≤ t → reminder_due o s ≡ true → reminder_due o t ≡ true
reminder_due-le none s t h k = refl
reminder_due-le (some u) s t h k = ground arith

notification_required-le :
    (previous : Option NotificationState) (severity : Severity) (s t : ℕ)
    → s ≤ t
    → notification_required previous severity s ≡ true
    → notification_required previous severity t ≡ true
unfolding notification_required
notification_required-le none severity s t h k = k
notification_required-le (some previous) severity s t h k =
    ground (arith, k, reminder_due-le previous.notified_at s t h)

notification_required-reminder :
    (severity : Severity) (now later : ℕ)
    → notification_required
        (some (record { severity = severity; notified_at = some now }))
        severity
        later
      ≡ (not (is_ok severity) && leb (now + reminder_interval) later)
unfolding notification_required
notification_required-reminder severity now later = rw (same_severity_self severity) refl

-- After a check has told the administrators of a severity, the next check that finds the same
-- severity tells them again exactly if something is wrong and a day has passed since the whole
-- second in which the first check ran, to which its time is cut on disk.
pub check_state-again :
    (previous : Option NotificationState) (result again : CheckResult) (now later : ℕ)
    → notification_required previous result.severity now ≡ true
    → again.severity ≡ result.severity
    → is_some (check_state true (check_state true previous result now).1 again later).0
      ≡ (not (is_ok result.severity) && leb (in_seconds now + reminder_interval) later)
check_state-again previous result again now later required same =
    is_some-check_state (check_state true previous result now).1 again later
    ∙ rw (after_notice previous result now required, same)
        (notification_required-reminder result.severity (in_seconds now) later)

-- A notification that cannot be delivered is owed: the state on disk stays as it was, and a later
-- check that finds the same severity tries again.
pub check_state-owed :
    (previous : Option NotificationState) (result again : CheckResult) (now later : ℕ)
    → notification_required previous result.severity now ≡ true
    → again.severity ≡ result.severity
    → now ≤ later
    → ((check_state false previous result now).1 ≡ previous)
      × (is_some (check_state true (check_state false previous result now).1 again later).0 ≡ true)
unfolding check_state
check_state-owed previous result again now later required same passes =
    let kept : (check_state false previous result now).1 ≡ previous = rw required refl in
    (
      kept,
      is_some-check_state (check_state false previous result now).1 again later
          ∙ rw (kept, same)
              (notification_required-le previous result.severity now later passes required),
    )
