-- ===== src/Booking/Window.antt =====
-- The dates that `bookingWindow` asks to check.
use ap_academy_landing.Prelude.{◌≡◌, Bool, true, false, ◌&&◌, Option, none, some, arith, leb}
use ap_academy_landing.Wallclock.{Date, add_days}
use ap_academy_landing.Booking.{booking_window, horizon_days}

abbrev pub in_window : Option (Date × Date) → Date → Bool
in_window none d = false
in_window (some w) d = leb w.0 d && leb d w.1

abbrev pub runs_on : Option Date → Date → Bool
runs_on none d = true
runs_on (some until) d = leb d until

-- A date is in the window exactly if it is on or after both the first date and today, not after the
-- end of the series, and at most 182 days from today.
pub in_window-booking_window :
    (first today : Date) (until : Option Date) (d : Date)
    → in_window (booking_window first today until) d
      ≡ ((leb first d && leb today d) && (runs_on until d && leb d (add_days today horizon_days)))
unfolding booking_window
in_window-booking_window first today none d = ground arith
in_window-booking_window first today (some u) d = ground arith
