-- ===== src/Rtc/Examples.antt =====
-- Readings of the clock.
use kum_os.Base.{◌≡◌, refl, arith, if◌then◌else◌, ◌==◌}
use kum_os.Rtc.{Registers, rtc_read, rtc_timestamp, hour_of, bcd_to_bin, is_binary, is_24_hour}
use kum_os.Rtc.Decode.{hour_lem, to_bcd, twelve_hour}

-- Half past two in the afternoon on a 12-hour clock with decimal digits.
hour_lem_example :
    hour_of 0 (if is_24_hour 0 then (if is_binary 0 then 14 else to_bcd 14) else twelve_hour 0 14)
    ≡ (if is_24_hour 0 then 14 else if 14 == 12 then 0 else if 14 == 0 then 12 else 14)
hour_lem_example = hour_lem 0 14 (omega arith)

abbrev half_past_two : Registers
half_past_two = record {
  sec = 0;
  min = 0x30;
  hour = 0x82;
  day = 0x27;
  month = 0x11;
  year = 0x26;
  regb = 0;
}

reading : (rtc_read half_past_two).hour ≡ 14
unfolding rtc_read hour_of bcd_to_bin
reading = refl

stamp : rtc_timestamp (rtc_read half_past_two) ≡ 848241000
unfolding rtc_timestamp rtc_read hour_of bcd_to_bin
stamp = refl
