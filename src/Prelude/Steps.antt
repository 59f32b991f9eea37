-- ===== src/Prelude/Steps.antt =====
-- Runs of a step relation, and what holds all along them.
pub data Run {S : Type 0} (Step : S → S → Type 0) (start : S) : S → Type 0 where
  here : Run Step start start
  then_ : {s s' : S} → Run Step start s → Step s s' → Run Step start s'

pub run_inv {κ} :
    {S : Type 0} {Step : S → S → Type 0} (P : S → Type κ)
    → ((s s' : S) → Step s s' → P s → P s')
    → {start s : S} → P start
    → Run Step start s
    → P s
run_inv P keep p here = p
run_inv P keep p (then_ run step) = keep _ _ step (run_inv P keep p run)
