-- ===== src/Samples/Facts.antt =====
-- What the tests use of the samples.
use two_services.Base.{◌≡◌, ◌≢◌, String, false, ◌==◌, eq_iff, arith}
use two_services.History.Repo.Invariant.{IsConsistent}
use two_services.Samples.{engine, no_tables}

pub no_tables-IsConsistent : IsConsistent engine no_tables
no_tables-IsConsistent = record { fresh_events = tt; fresh_payloads = tt; good = tt }

-- two texts that the comparison tells apart
pub text_ne : (s t : String) → (s == t) ≡ false → s ≢ t
text_ne s t h = λ e. ground (arith, eq_iff s t)
