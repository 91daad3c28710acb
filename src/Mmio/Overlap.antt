-- ===== src/Mmio/Overlap.antt =====
-- src/mmio.c: how a request and a log lie to each other.
use libnvmmio.Prelude.{ℕ, ◌≤◌, ◌<◌, ◌≡◌, arith, ltb, leb, if◌then◌else◌}

-- The six results of `check_log`.
pub data Overlap : Type 0 where
  case_1 case_2 case_3 case_4 case_5 case_6 : Overlap

unfoldable pub check_log : (req_start req_end log_start log_end : ℕ) → Overlap
check_log req_start req_end log_start log_end =
    if leb req_start log_start
    then (if leb log_start req_end
        then (if ltb req_end log_end then Overlap.case_2 else Overlap.case_3)
        else Overlap.case_1)
    else (if leb req_end log_end
        then Overlap.case_4
        else (if ltb log_end req_start then Overlap.case_6 else Overlap.case_5))

-- What the drawing above `check_log` says of each case, at the ends s, e of the request and a, b of
-- the log.
abbrev pub Drawn : Overlap → (s e a b : ℕ) → Type 0
Drawn Overlap.case_1 s e a b = e < a
Drawn Overlap.case_2 s e a b = (s ≤ a) × (a ≤ e) × (e < b)
Drawn Overlap.case_3 s e a b = (s ≤ a) × (b ≤ e)
Drawn Overlap.case_4 s e a b = (a < s) × (e ≤ b)
Drawn Overlap.case_5 s e a b = (a < s) × (s ≤ b) × (b < e)
Drawn Overlap.case_6 s e a b = b < s

-- For a request and a log that end no earlier than they start, `check_log` returns the one case
-- whose drawing fits.
pub check_log-Drawn :
    (s e a b : ℕ)
    → s ≤ e
    → a ≤ b
    → (c : Overlap)
    → ((check_log s e a b ≡ c) → Drawn c s e a b) × (Drawn c s e a b → check_log s e a b ≡ c)
unfolding check_log
check_log-Drawn s e a b p q Overlap.case_1 = ground arith
check_log-Drawn s e a b p q Overlap.case_2 = ground arith
check_log-Drawn s e a b p q Overlap.case_3 = ground arith
check_log-Drawn s e a b p q Overlap.case_4 = ground arith
check_log-Drawn s e a b p q Overlap.case_5 = ground arith
check_log-Drawn s e a b p q Overlap.case_6 = ground arith
