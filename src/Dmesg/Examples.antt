-- ===== src/Dmesg/Examples.antt =====
-- The kernel log at a concrete input.
use kum_os.Base.{◌≡◌, refl, List, [], ◌∷◌, ◌++◌, ◌<◌, arith, length, take, min}
use kum_os.Dmesg.{dmesg_init, dmesg_read, decimal, digits, last_byte}
use kum_os.Dmesg.Recent.{Entry, text, line, zeros, newline, recent, log_all, dmesg_read_lem}

-- `[7.340] up` and a newline.
abbrev entries : List Entry
entries = record { sec = 7; ticks = 734; before = 0; msg = b'u' ∷ b'p' ∷ [] } ∷ []

dmesg_read_lem_example :
    dmesg_read (log_all dmesg_init entries) 9
    ≡ (take 8 (recent (text entries)) ++ 0 ∷ [], min 8 (length (recent (text entries))))
dmesg_read_lem_example = dmesg_read_lem entries 9 fit (omega arith) (omega arith)
  where
    fit : length (text entries) < 4294967296
    fit = unfold text line zeros newline decimal digits last_byte in omega arith

text-entries :
    text entries ≡ b'[' ∷ b'7' ∷ b'.' ∷ b'3' ∷ b'4' ∷ b'0' ∷ b']' ∷ 32 ∷ b'u' ∷ b'p' ∷ 10 ∷ []
unfolding text line zeros newline decimal digits last_byte
text-entries = refl
