-- ===== src/CreatePage/Deadlines.antt =====
-- frontend/src/app/create/page.tsx against contracts/auction/src/lib.rs: which forms have times that
-- the contract takes.
use stellar_urithi_bidz.Prelude.{ℕ, ◌+◌, ◌/◌, ◌≤◌, ◌<◌, some, ◌≡◌, pass}
use stellar_urithi_bidz.Text.{Signed, plus}
use stellar_urithi_bidz.CreatePage.{Form, CreateParams, sum, seconds_of, deadlines}

-- The times in the parameters of a form.
record HasTimes (now_ms : ℕ) (form : Form) (params : CreateParams) : Type 0 where
  lasts : Signed
  commit : Signed
  reveal : Signed
  duration : seconds_of form.duration "24" ≡ some lasts
  limits : deadlines form (now_ms / 1000 + 60) ≡ pass (commit, reveal)
  start : params.start_time ≡ now_ms / 1000 + 60
  end : params.end_time ≡ sum (plus (now_ms / 1000 + 60)) lasts
  commits : params.commit_deadline ≡ commit
  reveals : params.reveal_deadline ≡ reveal
  same_format : params.format ≡ form.format

-- More than no hours to commit, and with the twelve to reveal no more than the auction's
abbrev pub IsLongEnough : Signed → Signed → Type 0
IsLongEnough hours commit =
    (h : ℕ) × (c : ℕ) × (hours ≡ plus h) × (commit ≡ plus c) × (0 < c) × (c + 12 ≤ h)
