-- ===== src/Swap/Examples.antt =====
-- Swapping out at a concrete input.
use kum_os.Base.{refl, true, find_index, replicate}
use kum_os.Paging.Examples.{one_table, one_table-IsValid, one_table-pte}
use kum_os.Swap.{Swap, swap_slots, no_entry, swap_out, alloc_slot}
use kum_os.Swap.Out.{SwappedOut, swap_out_lem}

-- A buffer with no page.
abbrev ready : Swap
ready = record { table = replicate swap_slots no_entry; ready = true; count = 0; buf = λ b. 0 }

swap_out_lem_example : SwappedOut ready one_table 0 0x00300003 0 (swap_out 0 ready one_table)
unfolding find_index alloc_slot
swap_out_lem_example =
    swap_out_lem 0 ready one_table 0x00300003 0 one_table-IsValid refl refl refl one_table-pte
