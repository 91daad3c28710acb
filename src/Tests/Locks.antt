-- ===== src/Tests/Locks.antt =====
-- Two threads and one lock, and two locks in one slot: the theorems of Bravo at concrete inputs.
use libnvmmio.Prelude.{ℕ, ◌≡◌, ◌≢◌, refl, Bool, true, false, ◌&&◌, ◌||◌, ◌==◌, none, arith}
use libnvmmio.Bravo.{BravoState, BravoMem, Way, idle, reading, writing, fast, init, start, Reach}
use libnvmmio.Bravo.Hash.{bravo_hash, mix32}
use libnvmmio.Bravo.Invariant.{IsApart}
use libnvmmio.Bravo.Run.{Alone, still, Reach-Own, writing-Alone}
use libnvmmio.Bravo.Exclusion.{mutual_exclusion}
use libnvmmio.Bravo.Free.{quiet-free}
use libnvmmio.Bravo.Collision.{collision}

-- Threads 1 and 2 use the lock at 4096.
abbrev pair : ℕ → ℕ → Bool
pair t l = l == 4096 && (t == 1 || t == 2)

slots-differ : bravo_hash 1 4096 ≢ bravo_hash 2 4096
unfolding bravo_hash mix32
slots-differ e = omega (arith, e)

pair-IsApart : IsApart pair
pair-IsApart t l t' l' u u' same = ground (arith, slots-differ, u, u', same)

lone : Alone pair 1 init init.mem idle
lone = still pair 1 refl

writer : (m : BravoMem) × Alone pair 1 init m (writing 4096)
writer = writing-Alone pair 1 4096 refl refl (λ v. refl) refl (λ j e. cc) lone

mutual_exclusion_example :
    ((t : ℕ) (k : Way) → ¬ (writer.1.last.pc t ≡ reading k 4096))
    × ((v : ℕ) → writer.1.last.pc v ≡ writing 4096 → v ≡ 1)
mutual_exclusion_example =
    mutual_exclusion pair-IsApart (Reach-Own pair start writer.1.own) 1 4096 writer.1.here

quiet-free_example :
    ((l : ℕ) → (init.mem.locks l).writer ≡ none)
    × ((l t : ℕ) → (init.mem.locks l).readers t ≡ false)
    × ((i : ℕ) → init.mem.visible_readers i ≡ none)
    × ((t l : ℕ) → pair t l ≡ true → (m : BravoMem) × Alone pair t init m (writing l))
quiet-free_example = quiet-free pair-IsApart start (λ t. refl)

-- The slot goes by the sum of the thread and the lock.
abbrev all : ℕ → ℕ → Bool
all t l = true

same_slot : bravo_hash 1000 5000 ≡ bravo_hash 2000 4000
unfolding bravo_hash
same_slot = refl

collision_example :
    (s : BravoState) × Reach all s × (s.pc 1000 ≡ reading fast 5000) × (s.pc 2000 ≡ writing 5000)
collision_example =
    collision all 1000 2000 5000 4000 (omega arith) (omega arith) same_slot refl refl refl
