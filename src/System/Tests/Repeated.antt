-- ===== src/System/Tests/Repeated.antt =====
-- A query whose first attempts were lost.
use two_services.Base.{◌≡◌, refl, none, true, some, String, Option, List, [], ◌∷◌}
use two_services.History.Repo.{Db, save_events}
use two_services.History.Service.{Rpc, answer}
use two_services.Ipv4Filter.Retry.{is_retried}
use two_services.System.Repeated.{plain, attempted, is_retried-attempted}
use two_services.Samples.{engine, time_util, empty_db}
use two_services.Samples.Data.{event}

abbrev db : Db engine
db = (save_events engine (event ∷ []) empty_db).1

abbrev query : Rpc String
query = Rpc.get_events (record { event_filter = none })

abbrev faults : List (List (Option String))
faults = (none ∷ some "server closed the connection" ∷ []) ∷ [] ∷ []

query_may_be_repeated : is_retried query ≡ true
unfolding is_retried
query_may_be_repeated = refl

is_retried-attempted_example :
    ((attempted engine time_util query faults db).tables ≡ db.tables)
    × (answer
          (plain engine time_util)
          Rpc.get_stats
          (record (attempted engine time_util query faults db) { faults = [] })
        ≡ answer (plain engine time_util) Rpc.get_stats (record db { faults = [] }))
is_retried-attempted_example =
    is_retried-attempted engine time_util query faults [] db query_may_be_repeated
