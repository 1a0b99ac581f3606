-- ===== src/Time/Julian/RoundTrip.antt =====
-- The Julian date of a day of the calendar is read back as that day.
