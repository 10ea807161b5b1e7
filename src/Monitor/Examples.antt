-- ===== src/Monitor/Examples.antt =====
-- Witnesses: a backup that stopped arriving.
use daily_firehose.Common.{
  ◌+◌, ◌*◌, ◌≡◌, refl, true, false, not, ◌&&◌, none, some, leb, is_some, arith,
}
use daily_firehose.Monitor.{
  missed, is_ok, hour, CheckResult, notification_required, check_state, in_seconds,
  reminder_interval,
}
use daily_firehose.Monitor.Notice.{check_state-again, check_state-owed}

abbrev late_backup : CheckResult
late_backup = record { severity = missed; receipt_age = some (15 * hour); valid_pairs = 2 }

check_state-again_example :
    is_some (check_state true (check_state true none late_backup hour).1 late_backup (26 * hour)).0
    ≡ (not (is_ok missed) && leb (in_seconds hour + reminder_interval) (26 * hour))
unfolding notification_required
check_state-again_example =
    check_state-again none late_backup late_backup hour (26 * hour) refl refl

check_state-owed_example :
    ((check_state false none late_backup hour).1 ≡ none)
    × (is_some
          (check_state true (check_state false none late_backup hour).1 late_backup (2 * hour)).0
        ≡ true)
unfolding notification_required
check_state-owed_example =
    check_state-owed none late_backup late_backup hour (2 * hour) refl refl (omega arith)
