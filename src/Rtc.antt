-- ===== src/Rtc.antt =====
-- src/rtc.c: what the registers of the clock mean. The registers are parameters: rtc_wait and cmos_read
-- talk to the hardware.
pub mod Decode
pub mod Examples
use kum_os.Base.{
  ℕ, ◌+◌, ◌-◌, ◌*◌, ◌/◌, ◌%◌, Bool, true, false, not, ◌&&◌, if◌then◌else◌, leb, ◌==◌, add32, mul32,
  sub32,
}

-- rtc_time_t
pub record RtcTime : Type 0 where
  pub second : ℕ
  pub minute : ℕ
  pub hour : ℕ
  pub day : ℕ
  pub month : ℕ
  pub year : ℕ

-- The registers that rtc_read reads, bytes.
pub record Registers : Type 0 where
  pub sec : ℕ
  pub min : ℕ
  pub hour : ℕ
  pub day : ℕ
  pub month : ℕ
  pub year : ℕ
  pub regb : ℕ

pub bcd_to_bin : ℕ → ℕ
bcd_to_bin bcd = (bcd % 16 + bcd / 16 * 10) % 256

-- `regb & 0x04` and `regb & 0x02`
abbrev pub is_binary : ℕ → Bool
is_binary regb = regb / 4 % 2 == 1

abbrev pub is_24_hour : ℕ → Bool
is_24_hour regb = regb / 2 % 2 == 1

-- `hour & 0x80` and `hour & 0x7F`
abbrev pub is_pm : ℕ → Bool
is_pm hour = hour / 128 % 2 == 1

-- `bcd_to_bin(hour & 0x7F) | (hour & 0x80)`: the first is at most 85, so that the two do not overlap.
abbrev pub hour_bin : ℕ → ℕ
hour_bin hour = bcd_to_bin (hour % 128) + hour / 128 * 128

pub hour_of : ℕ → ℕ → ℕ
hour_of regb hour =
    let h = if is_binary regb then hour else hour_bin hour in
    if not (is_24_hour regb) && is_pm h then (h % 128 + 12) % 24 else h

pub rtc_read : Registers → RtcTime
rtc_read r = record {
  second = if is_binary r.regb then r.sec else bcd_to_bin r.sec;
  minute = if is_binary r.regb then r.min else bcd_to_bin r.min;
  hour = hour_of r.regb r.hour;
  day = if is_binary r.regb then r.day else bcd_to_bin r.day;
  month = if is_binary r.regb then r.month else bcd_to_bin r.month;
  year = 2000 + (if is_binary r.regb then r.year else bcd_to_bin r.year);
}

-- The seconds of rtc_timestamp, which counts every month as 30 days.
pub rtc_timestamp : RtcTime → ℕ
rtc_timestamp t =
    let days = add32 (add32 (mul32 (t.year - 2000) 365) (mul32 (sub32 t.month 1) 30)) t.day in
    add32 (add32 (add32 (mul32 days 86400) (t.hour * 3600)) (t.minute * 60)) t.second
