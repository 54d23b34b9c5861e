-- ===== src/Vfs/Memory/Examples.antt =====
-- An open file in memory, at which the theorems are used.
use kum_os.Base.{
  ◌%◌, ◌^◌, suc, ◌+◌, ◌≡◌, refl, ap, true, some, [], ◌∷◌, arith, length, replicate, if◌then◌else◌,
  ltb, pos, length-replicate,
}
use kum_os.Kstring.{IsString}
use kum_os.Fs.Lookup.{Became}
use kum_os.Fs.Examples.{one_file, one-IsValid, one_found, one_size, one_text}
use kum_os.Vfs.Memory.{MemVfs, no_open, live_open, kept, mem_vfs_write}
use kum_os.Vfs.Memory.Writing.{entry_of, file_of, new_text, mem_vfs_write_lem}

-- The file `m`, of one byte, is open with its position behind that byte.
abbrev opened : MemVfs
opened = record {
  fs = one_file;
  opens = record { file_idx = 0; pos_ = 1; used = true } ∷ replicate 15 no_open;
}

opens-length : length opened.opens ≡ 16
opens-length = ap suc (length-replicate 15 no_open)

opened-live : live_open opened.opens (pos 0) ≡ some 0
unfolding live_open
opened-live = refl

opened-text : IsString (new_text opened 0 (8 ∷ []))
opened-text = rw (one_size, one_text) (omega arith, (omega arith, omega arith))

mem_vfs_write_lem_example :
    ((mem_vfs_write (pos 0) (8 ∷ []) opened).0 ≡ pos 1)
    × (if ltb (kept (entry_of opened 0) (file_of opened 0) + 1) 4095
        then Became one_file
            (mem_vfs_write (pos 0) (8 ∷ []) opened).1.fs
            (file_of opened 0).name
            (some (new_text opened 0 (8 ∷ [])))
          × ((entry_of (mem_vfs_write (pos 0) (8 ∷ []) opened).1 0).pos_ ≡ (1 + 1) % 2 ^ 32)
        else (mem_vfs_write (pos 0) (8 ∷ []) opened).1 ≡ opened)
mem_vfs_write_lem_example =
    mem_vfs_write_lem opened (pos 0) 0 (8 ∷ []) one-IsValid opens-length opened-live one_found
      (omega (arith, one_size)) (omega arith) opened-text
