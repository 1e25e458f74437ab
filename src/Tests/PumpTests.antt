-- ===== src/Tests/PumpTests.antt =====
-- The pumps and the buffer pool on small inputs.
use tekflash.Common.{ℕ, ◌≡◌, ◌⊎◌, refl, List, [], ◌∷◌, ◌++◌, arith, length}
use tekflash.Pipeline.Pumps.{
  Pumps, Task, read_task, write_task, start, run, written, read_all, read_failed, sending,
  write_failed,
}
use tekflash.Pipeline.Pumps.Written.{run-written}
use tekflash.Pipeline.Pumps.Settle.{Settles, work, run-Settles}
use tekflash.Tests.Readers.{whole, whole-ReadLaws, left}
use tekflash.Tests.Hosts.{sink_of, sink_of-WriteLaws}

-- The reader is ahead of the writer by a buffer.
abbrev schedule : List Task
schedule =
    read_task ∷ read_task ∷ read_task ∷ read_task ∷ write_task ∷ read_task ∷ write_task ∷ read_task
    ∷ write_task ∷ []

abbrev three : List ℕ
three = 1 ∷ 2 ∷ 3 ∷ []

schedule_runs :
    (run whole
      (sink_of (Unit {0}))
      2
      1
      schedule
      (start whole (sink_of (Unit {0})) 2 1 three [])).writer
    ≡ written 3
unfolding run
schedule_runs = refl

run-written_example :
    (bytes behind : List ℕ) × (three ≡ bytes ++ behind)
    × ((run whole
          (sink_of (Unit {0}))
          2
          1
          schedule
          (start whole (sink_of (Unit {0})) 2 1 three [])).dst
        ≡ bytes)
    × (3 ≡ length bytes)
    × ((((run whole
              (sink_of (Unit {0}))
              2
              1
              schedule
              (start whole (sink_of (Unit {0})) 2 1 three [])).reader
            ≡ read_all 3)
          × (behind ≡ []))
        ⊎ ((e : Unit {0}) × ((run whole
                (sink_of (Unit {0}))
                2
                1
                schedule
                (start whole (sink_of (Unit {0})) 2 1 three [])).reader
              ≡ read_failed e)))
run-written_example =
    run-written whole left whole-ReadLaws (sink_of (Unit {0})) left (sink_of-WriteLaws (Unit {0})) 2
      1 (omega arith) three [] schedule 3 schedule_runs

-- The writer has failed while the reader waits with a buffer.
abbrev torn : Pumps whole (sink_of (Unit {0}))
torn = record {
  src = 9 ∷ [];
  reader = sending (7 ∷ 8 ∷ []);
  total_in = 4;
  queue = [];
  dst = [];
  writer = write_failed tt;
  total_out = 0;
}

run-Settles_example :
    Settles whole left whole-ReadLaws
      (sink_of (Unit {0}))
      2
      1
      (omega arith)
      torn
      (work whole left whole-ReadLaws (sink_of (Unit {0})) 2 1 (omega arith) torn)
run-Settles_example =
    run-Settles whole left whole-ReadLaws (sink_of (Unit {0})) 2 1 (omega arith) torn
