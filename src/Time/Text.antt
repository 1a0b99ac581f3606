-- ===== src/Time/Text.antt =====
-- time_str.c: the texts of dates and times.
use fast.Prelude.{Bytes, codes, ◌++◌, ◌/◌}
use fast.Prelude.Format.{format_padded}
use fast.Time.{TimeStr}

-- `%04d.%02d.%02d`
unfoldable pub time_str_get_date : TimeStr → Bytes
time_str_get_date t =
    format_padded 4 t.year
    ++ (codes "." ++ (format_padded 2 t.month ++ (codes "." ++ format_padded 2 t.day)))

-- `%02d:%02d:%02d.%03d`
unfoldable pub time_str_get_time : TimeStr → Bytes
time_str_get_time t =
    format_padded 2 t.hour
    ++ (codes ":"
        ++ (format_padded 2 t.minute
            ++ (codes ":"
                ++ (format_padded 2 t.second
                    ++ (codes "." ++ format_padded 3 (t.microsecond / 1000))))))

-- `%04d.%02d.%02d %02d:%02d:%02d.%03d`
unfoldable pub time_str_get_date_time : TimeStr → Bytes
unfolding time_str_get_date time_str_get_time
time_str_get_date_time t = time_str_get_date t ++ (codes " " ++ time_str_get_time t)
