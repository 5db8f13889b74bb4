-- ===== src/Utils/Builder.antt =====
-- `utils::builder` of shared/utils/utils.cc.
use Prim.Native.String.{◌++◌}
use two_services.Base.{ℕ, ◌+◌, ◌/◌, ◌%◌, ◌^◌, String, Option, none, some, ltb, if◌then◌else◌}
use two_services.Base.Decimal.{to_string}
use two_services.NetLogger.{RejectReason}

-- `std::tm`, with the year counted from 1900 and the month from 0; years before 1900 are left out.
pub record Tm : Type 0 where
  pub tm_year : ℕ
  pub tm_mon : ℕ
  pub tm_mday : ℕ
  pub tm_hour : ℕ
  pub tm_min : ℕ
  pub tm_sec : ℕ

-- The system clock and the time zone of the process: `now`, and `localtime` after `to_time_t`.
pub record Clock : Type 1 where
  pub TimePoint : Type 0
  pub localtime : TimePoint → Tm

-- the two digits of %m, %d, %H, %M and %S
unfoldable pub two_digits : ℕ → String
two_digits n = if ltb n 10 then "0" ++ to_string n else to_string n

-- `std::put_time(tm, "%Y-%m-%d %H:%M:%S")`
unfoldable pub put_time : Tm → String
put_time tm =
    to_string (tm.tm_year + 1900)
    ++ ("-"
        ++ (two_digits (tm.tm_mon + 1)
            ++ ("-"
                ++ (two_digits tm.tm_mday
                    ++ (" "
                        ++ (two_digits tm.tm_hour
                            ++ (":"
                                ++ (two_digits tm.tm_min ++ (":" ++ two_digits tm.tm_sec)))))))))

unfoldable pub format_timestamp : (clock : Clock) → clock.TimePoint → String
format_timestamp clock t = put_time (clock.localtime t)

unfoldable pub filter_reject_reason_to_str : RejectReason → Option String
filter_reject_reason_to_str RejectReason.invalid_format = some "Invalid Format"
filter_reject_reason_to_str RejectReason.invalid_ip_address = some "InvalidIPAddress"
filter_reject_reason_to_str RejectReason.filter_rejected = some "FilterRejected"
filter_reject_reason_to_str _ = none

unfoldable pub get_filter_decision : RejectReason → String
get_filter_decision RejectReason.none = "accepted"
get_filter_decision _ = "rejected"

-- `(addr >> shift) & 0xFF`
abbrev pub octet : ℕ → ℕ → ℕ
octet addr shift = addr / 2 ^ shift % 256

unfoldable pub ipv4_address_to_string : ℕ → String
ipv4_address_to_string addr =
    to_string (octet addr 24)
    ++ ("."
        ++ (to_string (octet addr 16)
            ++ ("." ++ (to_string (octet addr 8) ++ ("." ++ to_string (octet addr 0))))))
