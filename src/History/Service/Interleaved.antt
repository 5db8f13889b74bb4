-- ===== src/History/Service/Interleaved.antt =====
-- A handler of the service among others: before each call of the repository that it makes, other handlers
-- make any calls of theirs.
use mathlib.Core.List.{append_assoc, append-nil}
use two_services.History.Stream.{silent}
use two_services.Base.{
  ℕ, ◌+◌, ◌≡◌, refl, sym, ap, subst, ◌∙◌, String, Bool, true, Option, none, some, List, [], ◌∷◌,
  ◌++◌,
}
use two_services.Base.Exec.{ok, Exec}
use two_services.Shared.Dto
use two_services.Shared.Result.{VoidResult}
use two_services.Proto
use two_services.History.Postgres.{Engine}
use two_services.History.Postgres.Select.{Joined}
use two_services.History.Repo.{Db, save_events, get_events, get_stats}
use two_services.History.Repo.Invariant.{IsConsistent, Columns, columns, view}
use two_services.History.Repo.Added.{added_row}
use two_services.History.Repo.Save.{added_rows, all_columns, both_columns}
use two_services.History.Repo.Success.{save_events_success}
use two_services.History.Repo.Steps.{saved, fetched, counted, disturbed, Extends-same, Call-keeps}
use two_services.History.UseCases.{UseCases}
use two_services.History.Stream
use two_services.History.Stream.Success.{Saves, save_events_stream_success}
use two_services.History.Stream.Scan.{at_end, scan}
use two_services.History.Service.Durable.{KeepsRows, KeepsRows-also}

module _ (engine : Engine) where
  -- What another handler does to the database, or what happens to its connections.
  pub data Action : Type 0 where
    saves : List Dto.Event → Action
    fetches : Option Dto.EventFilter → Action
    counts : Action
    disturbs : List (Option String) → Action

  abbrev pub perform : Action → Db engine → Db engine
  perform (saves events) db = (save_events engine events db).1
  perform (fetches filter) db = (get_events engine filter db).1
  perform counts db = (get_stats engine db).1
  perform (disturbs faults) db = record db { faults = faults }

  abbrev pub perform_all : List Action → Db engine → Db engine
  perform_all [] db = db
  perform_all (action ∷ actions) db = perform_all actions (perform action db)

  -- The database, and what others will do before each call that is still to be made.
  pub record Among : Type 0 where
    pub db : Db engine
    pub others : List (List Action)

  abbrev pub others_act : Db engine → List (List Action) → Among
  others_act db [] = record { db = db; others = [] }
  others_act db (actions ∷ others) = record { db = perform_all actions db; others = others }

  abbrev pub after_others : {A : Type 0} → Exec (Db engine) A → Exec Among A
  after_others m s =
      let s' = others_act s.db s.others in let (r, db) = m s'.db in (r, record s' { db = db })

  -- the use cases of the service, called among others
  abbrev pub use_cases_among : UseCases Among
  use_cases_among = record {
    save_event = record { execute = λ events. after_others (save_events engine events) };
    get_events = record { execute = λ filter. after_others (get_events engine filter) };
    get_stats = record { execute = after_others (get_stats engine) };
  }

  pub perform-KeepsRows :
      (action : Action) (db : Db engine) → KeepsRows engine db (perform action db)
  perform-KeepsRows (saves events) db = Call-keeps engine (saved events db)
  perform-KeepsRows (fetches filter) db = Call-keeps engine (fetched filter db)
  perform-KeepsRows counts db = Call-keeps engine (counted db)
  perform-KeepsRows (disturbs faults) db = Call-keeps engine (disturbed db faults)

  perform_all-KeepsRows :
      (actions : List Action) (db : Db engine) → KeepsRows engine db (perform_all actions db)
  perform_all-KeepsRows [] db h = (h, Extends-same engine db.tables db.tables refl)
  perform_all-KeepsRows (action ∷ actions) db h =
      KeepsRows-also engine db (perform action db) (perform_all actions (perform action db))
        (perform-KeepsRows action db) (perform_all-KeepsRows actions (perform action db)) h

  others_act-KeepsRows :
      (db : Db engine) (others : List (List Action)) → KeepsRows engine db (others_act db others).db
  others_act-KeepsRows db [] h = (h, Extends-same engine db.tables db.tables refl)
  others_act-KeepsRows db (actions ∷ others) h = perform_all-KeepsRows actions db h

  -- The rows of these events are among the rows, in their order.
  pub data Woven : List Dto.Event → List (Joined engine) → Type 0 where
    nothing : Woven [] []
    other :
        {events : List Dto.Event} {rows : List (Joined engine)} (row : Joined engine)
        → Woven events rows
        → Woven events (row ∷ rows)
    own :
        {events : List Dto.Event} {rows : List (Joined engine)} (event : Dto.Event)
        (c : Columns engine) (id : ℕ)
        → columns engine event ≡ some c
        → Woven events rows
        → Woven (event ∷ events) (added_row engine event c id ∷ rows)

  Woven-append :
      {first rest : List Dto.Event} {rows more : List (Joined engine)}
      → Woven first rows
      → Woven rest more
      → Woven (first ++ rest) (rows ++ more)
  Woven-append nothing w = w
  Woven-append (other row v) w = other row (Woven-append v w)
  Woven-append (own event c id e v) w = own event c id e (Woven-append v w)

  Woven-others : (rows : List (Joined engine)) → Woven [] rows
  Woven-others [] = nothing
  Woven-others (row ∷ rows) = other row (Woven-others rows)

  both_columns-eq-some :
      (o : Option (Columns engine)) (os : Option (List (Columns engine)))
      (cs : List (Columns engine))
      → both_columns engine o os ≡ some cs
      → (c : Columns engine) × (rest : List (Columns engine)) × (o ≡ some c)
        × (os ≡ some rest)
        × (cs ≡ c ∷ rest)
  both_columns-eq-some (some c) (some rest) cs h = (c, rest, refl, refl, cc h)
  both_columns-eq-some (some c) none cs h = absurd (cc h)
  both_columns-eq-some none os cs h = absurd (cc h)

  added_rows-Woven :
      (events : List Dto.Event) (cs : List (Columns engine)) (id : ℕ)
      → all_columns engine events ≡ some cs
      → Woven events (added_rows engine events cs id)
  unfolding all_columns added_rows
  added_rows-Woven [] cs id h = nothing
  added_rows-Woven (event ∷ events) cs id h =
      let (c, rest, first, others, e) =
        both_columns-eq-some (columns engine event) (all_columns engine events) cs h in
      subst (λ l. Woven (event ∷ events) (added_rows engine (event ∷ events) l id)) (sym e)
        (own event c id first (added_rows-Woven events rest (id + 1) others))

  -- From consistent tables, the rows that are new hold those of these events, in order.
  abbrev pub StoresAmong : List Dto.Event → Among → Among → Type 0
  StoresAmong events s end =
      IsConsistent engine s.db.tables
      → IsConsistent engine end.db.tables
        × (more : List (Joined engine)) × (view engine end.db.tables
            ≡ view engine s.db.tables ++ more)
        × Woven events more

  StoresAmong-then :
      (first rest : List Dto.Event) (s m e : Among)
      → StoresAmong first s m
      → StoresAmong rest m e
      → StoresAmong (first ++ rest) s e
  StoresAmong-then first rest s m e p q h =
      let (consistent, more, rows, woven) = p h in
      let (still, even_more, all_rows, rest_woven) = q consistent in
      (
        still,
        more ++ even_more,
        all_rows
            ∙ ap (λ l. l ++ even_more) rows
            ∙ append_assoc (view engine s.db.tables) more even_more,
        Woven-append woven rest_woven,
      )

  saved-StoresAmong :
      (events : List Dto.Event) (s : Among) (result : VoidResult)
      → (use_cases_among.save_event.execute events s).0 ≡ ok result
      → result.success ≡ true
      → StoresAmong events s (use_cases_among.save_event.execute events s).1
  saved-StoresAmong events s result returned success h =
      let turn = others_act s.db s.others in
      let (consistent, (more, rows)) = others_act-KeepsRows s.db s.others h in
      let stored = save_events_success engine events turn.db result consistent returned success in
      let added = added_rows engine events stored.columns turn.db.tables.next_id in
      (
        stored.consistent,
        more ++ added,
        stored.rows ∙ ap (λ l. l ++ added) rows ∙ append_assoc (view engine s.db.tables) more added,
        Woven-append (Woven-others more)
            (added_rows-Woven events stored.columns turn.db.tables.next_id stored.admitted),
      )

  pub among_saves : Saves use_cases_among StoresAmong
  among_saves = record {
    nothing = λ s h. (h, [], sym (append-nil (view engine s.db.tables)), nothing);
    then_more = StoresAmong-then;
    success = saved-StoresAmong;
  }

  -- Whatever other handlers do between the batches of a stream, and whatever faults there are: where the
  -- reply to the stream reports success, from consistent tables, the stream came to its end with every
  -- message valid, the tables are consistent, no row from before was lost or changed, and among the new
  -- rows stand those of all its events, in the order of the stream.
  pub save_events_stream-among :
      (stream : List (Proto.SaveEventsRequest × Bool)) (s : Among)
      → IsConsistent engine s.db.tables
      → (Stream.save_events_stream use_cases_among silent stream s).0.1.success ≡ true
      → let end = (Stream.save_events_stream use_cases_among silent stream s).1 in
        ((scan stream).1 ≡ at_end)
        × IsConsistent engine end.db.tables
        × (more : List (Joined engine)) × (view engine end.db.tables
            ≡ view engine s.db.tables ++ more)
        × Woven (scan stream).0 more
  save_events_stream-among stream s h success =
      let (ends, stored) =
        save_events_stream_success use_cases_among silent StoresAmong among_saves
          (λ text es s t h. h) stream s success in
      let (consistent, more, rows, woven) = stored h in (ends, consistent, more, rows, woven)
