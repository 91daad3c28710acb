-- ===== src/Bravo/Invariant.antt =====
-- src/bravo.c: what holds of the locks and the slots after any steps of any threads.
mod Defs
mod Moves
pub use Defs.*
use libnvmmio.Prelude.{ℕ, ◌≡◌, Bool, true, false, none, some, arith}
use libnvmmio.Bravo.{BravoState, Step, pick, init, Reach, start, later}
use Moves.{Move-Inv}

init-Inv : (uses : ℕ → ℕ → Bool) → Inv uses init.mem init.pc
init-Inv uses = ground arith

-- After any steps of any threads, where no two calls share a slot, the invariant holds.
pub Reach-Inv :
    {uses : ℕ → ℕ → Bool} {s : BravoState} → IsApart uses → Reach uses s → Inv uses s.mem s.pc
Reach-Inv {uses} apart start = init-Inv uses
Reach-Inv apart (later r (pick t mv)) = Move-Inv (Reach-Inv apart r) t apart mv
