-- ===== src/Tests/Counters.antt =====
-- Two threads that count at once.
use libnvmmio.Prelude.{◌+◌, ◌≡◌, refl, update, arith}
use libnvmmio.Mmio.Counter.{Counter, Progress, Access, Accesses, Accesses-counted}

abbrev fresh : Counter
fresh = record { cnt = 5; pcs = λ t. Progress.at_start; calls = 0 }

abbrev first_read : Counter
first_read = record fresh { pcs = update fresh.pcs 0 (Progress.has_old 5) }

abbrev both_read : Counter
both_read = record first_read { pcs = update first_read.pcs 1 (Progress.has_old 5) }

abbrev first_both : Counter
first_both = record both_read { pcs = update both_read.pcs 0 (Progress.has_both 5 6) }

abbrev first_done : Counter
first_done = record { cnt = 6; pcs = update first_both.pcs 0 Progress.at_start; calls = 1 }

abbrev second_both : Counter
second_both = record first_done { pcs = update first_done.pcs 1 (Progress.has_both 5 7) }

-- The second thread finds that the counter has changed.
abbrev second_failed : Counter
second_failed = record second_both { pcs = update second_both.pcs 1 Progress.at_start }

one_counts : Accesses fresh second_failed
one_counts =
    let m1 : Accesses fresh first_read = Accesses.then Accesses.stay (Access.read_old 0 refl) in
    let m2 : Accesses fresh both_read = Accesses.then m1 (Access.read_old 1 refl) in
    let m3 : Accesses fresh first_both = Accesses.then m2 (Access.read_new 0 5 refl) in
    let m4 : Accesses fresh first_done = Accesses.then m3 (Access.swap 0 5 6 refl refl) in
    let m5 : Accesses fresh second_both = Accesses.then m4 (Access.read_new 1 5 refl) in
    Accesses.then m5 (Access.retry 1 5 7 refl (λ same. omega (arith, same)))

Accesses-counted_example : second_failed.cnt ≡ fresh.cnt + second_failed.calls
Accesses-counted_example =
    Accesses-counted fresh second_failed (λ t. refl) refl (omega arith) one_counts
