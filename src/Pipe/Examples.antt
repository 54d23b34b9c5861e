-- ===== src/Pipe/Examples.antt =====
-- The properties of pipes at concrete inputs.
use kum_os.Base.{ℕ, ◌≡◌, refl, List, [], ◌∷◌, arith, replicate, length-replicate, pos, find_index}
use kum_os.Pipe
use kum_os.Pipe.{
  Pipe, opened, zeroed, pipe_init, pipe_create, pipe_get, returned, yielded, write_loop, read_loop,
  pipe_max, is_free_slot,
}
use kum_os.Pipe.Ring.{IsValid}
use kum_os.Pipe.Channel.{
  Channel, writer_runs, reader_runs, run, Carries, run-Carries, unsent, wanted,
}
use kum_os.Pipe.Channel.Delivery.{Between, run-delivers, rounds}

opened-IsValid : IsValid opened
unfolding opened zeroed
opened-IsValid = record {
  storage = length-replicate {A = ℕ} 4096 0;
  head_in = omega arith;
  tail_in = omega arith;
}

abbrev message : List ℕ
message = 75 ∷ 117 ∷ 109 ∷ []

abbrev channel : Channel
channel = record { pipe = opened; writer = yielded 0 message; reader = yielded 0 3; received = [] }

channel-Carries : Carries message channel
unfolding opened zeroed Pipe.pipe_avail
channel-Carries = record { valid = opened-IsValid; open_end = omega arith; bytes = refl }

channel-Between : Between message channel
unfolding opened zeroed Pipe.pipe_avail
channel-Between = record {
  carries = channel-Carries;
  writer_open = omega arith;
  empty = refl;
  balance = refl;
}

run-Carries_example : Carries message (run channel (reader_runs ∷ writer_runs ∷ []))
run-Carries_example = run-Carries message (reader_runs ∷ writer_runs ∷ []) channel channel-Carries

run-delivers_example :
    let d = run channel (rounds 1) in
    (d.received ≡ message) × (unsent d.writer ≡ []) × (wanted d.reader ≡ 0)
run-delivers_example = run-delivers 1 message channel channel-Between (omega arith)

create-first : pipe_create pipe_init ≡ (pos 0, opened ∷ replicate 15 zeroed)
unfolding pipe_create pipe_init zeroed find_index
create-first = refl
