-- ===== src/History/Pooled/Tests.antt =====
-- A pool of one connection, and a database that restarts.
use two_services.Base.{◌≡◌, refl, Bool, true, false, some, List, [], ◌∷◌, length, suc}
use two_services.Base.Exec.{ok}
use two_services.History.Pool.{Driver}
use two_services.History.Service.Interleaved.{Action, saves, counts}
use two_services.History.Service.Durable.{KeepsRows}
use two_services.History.Pooled.{Held, Meanwhile, perform_all}
use two_services.History.Pooled.Calls.{perform_all-returns}
use two_services.History.Pooled.Reopened.{perform_all-reopened, Loses, Refused, saves_some}
use two_services.Samples.{engine, empty_db}
use two_services.Samples.Data.{event}

pub record Conn : Type 0 where
  pub open_still : Bool
  pub prepared : Bool

abbrev driver : Driver
driver = record { Connection = Conn; is_open = λ c. c.open_still }

abbrev is_prepared : Conn → Bool
is_prepared c = c.prepared

abbrev as_created : Conn
as_created = record { open_still = true; prepared = true }

abbrev new_conn : Conn
new_conn = record { open_still = true; prepared = false }

-- the connection is open at the end
abbrev quiet : Meanwhile engine driver is_prepared
quiet = record { used = λ c. record c { open_still = true }; again = ok new_conn }

-- the server closes it
abbrev restart : Meanwhile engine driver is_prepared
restart = record { used = λ c. record c { open_still = false }; again = ok new_conn }

abbrev before : Held engine driver is_prepared
before = record { connections = as_created ∷ []; db = empty_db }

abbrev loss : Action engine × Meanwhile engine driver is_prepared
loss = (saves (event ∷ []), restart)

abbrev later : List (Action engine × Meanwhile engine driver is_prepared)
later = (counts, quiet) ∷ (saves (event ∷ []), quiet) ∷ []

loss-Loses : Loses engine driver is_prepared loss
loss-Loses = record {
  takes = saves_some event [];
  new_conn = new_conn;
  closed = λ conn. refl;
  opened = refl;
  fresh = (refl, refl);
}

perform_all-returns_example :
    (t : Held engine driver is_prepared) × (perform_all engine driver is_prepared
        (loss ∷ later)
        before
      ≡ some t)
    × (length t.connections ≡ suc 0)
    × KeepsRows engine empty_db t.db
perform_all-returns_example =
    perform_all-returns engine driver is_prepared (loss ∷ later) (as_created ∷ []) empty_db 0 refl

perform_all-reopened_example :
    (t : Held engine driver is_prepared) × (u : Held engine driver is_prepared) × (perform_all
        engine driver is_prepared
        (loss ∷ [])
        before
      ≡ some t)
    × (perform_all engine driver is_prepared later t ≡ some u)
    × (u.db.tables ≡ t.db.tables)
    × Refused engine driver is_prepared quiet (event ∷ []) u
perform_all-reopened_example =
    perform_all-reopened engine driver is_prepared (loss ∷ []) later (as_created ∷ []) empty_db 0
      quiet event [] refl refl (loss-Loses, tt)
      ((λ conn h. (refl, (refl, h.1))), ((λ conn h. (refl, (refl, h.1))), tt))
