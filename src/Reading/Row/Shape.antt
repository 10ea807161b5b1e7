-- ===== src/Reading/Row/Shape.antt =====
-- The validation of a marker against the constraint of its table.
use daily_firehose.Common.{◌≡◌, arith}
use daily_firehose.Reading.Row.{BulkReadMarker, clean, is_clean, has_valid_shape}

-- The validation accepts exactly the markers that the check constraint of the table accepts.
pub clean-has_valid_shape : (m : BulkReadMarker) → is_clean (clean m) ≡ has_valid_shape m
unfolding clean
clean-has_valid_shape m = ground arith
