-- ===== src/History/Repo/Doubt.antt =====
-- `SaveEvents` where the answer of COMMIT may be lost: the server carries it out, and `commit()` throws
-- all the same, as pqxx::in_doubt_error, which is a std::exception.
use Prim.Native.String.{◌++◌ as append}
use two_services.Base.{
  ◌≡◌, refl, sym, ap, subst, ◌⊎◌, inl, inr, String, true, false, Option, none, some, List, [], ◌∷◌,
  Bool-cases,
}
use two_services.Base.Exec.{Except, ok, throw, Exec, ◌>>◌, >>=-eq-ok, Except-cases}
use two_services.Shared.Dto
use two_services.Shared.Result.{VoidResult, void_ok}
use two_services.History.Postgres.{Engine, Tables}
use two_services.History.Repo.{Db, control, rolled_back, save_all, save_events, caught_void}
use two_services.History.Repo.Invariant.{IsConsistent}
use two_services.History.Repo.Save.{SameRows, IsStored, IsStored-nil, save_events_atomic}
use two_services.History.Repo.Success.{save_events_success, save_all-eq-ok, control-eq-ok}

module _ (engine : Engine) where
  -- what follows the statements: COMMIT is carried out and throws, or the transaction is rolled back
  abbrev pub committed : String → Tables engine → Except (Unit {0}) → Exec (Db engine) (Unit {0})
  committed what t (ok a) db = (throw what, db)
  committed what t (throw e) db = rolled_back engine t (throw e) db

  -- the `try` block, with a COMMIT that is not answered
  unfoldable pub insert_unanswered : String → List Dto.Event → Exec (Db engine) (Unit {0})
  insert_unanswered what events db =
      let (r, db') = (control engine >> save_all engine events) db in committed what db.tables r db'

  -- PostgresEventsRepo::SaveEvents, with the text of the exception where COMMIT is not answered
  unfoldable pub save_events_doubtful : Option String → List Dto.Event → Exec (Db engine) VoidResult
  unfolding insert_unanswered save_events
  save_events_doubtful none events db = save_events engine events db
  save_events_doubtful (some what) [] db = (ok void_ok, db)
  save_events_doubtful (some what) (event ∷ events) db =
      let (r, db') = insert_unanswered what (event ∷ events) db in (ok (caught_void engine r), db')

  -- What a call of `SaveEvents` that returned has done to the tables.
  abbrev pub Ended :
      Option String → List Dto.Event → VoidResult → Tables engine → Tables engine → Type 0
  Ended lost events result t u =
      ((result.success ≡ true) × IsStored engine events t u)
      ⊎ (((result.success ≡ false) × SameRows engine u t)
          ⊎ ((what : String) × (lost ≡ some what)
              × (result.success ≡ false)
              × (result.error_message ≡ append "[Postgres] " what)
              × IsStored engine events t u))

  unanswered-IsStored :
      (events : List Dto.Event) (db end : Db engine)
      → IsConsistent engine db.tables
      → (control engine >> save_all engine events) db ≡ (ok tt, end)
      → IsStored engine events db.tables end.tables
  unanswered-IsStored events db end k h =
      let (begun, opened, begin_ok, rest) =
        >>=-eq-ok (control engine) (λ _. save_all engine events) db h in
      let same = control-eq-ok engine db opened begin_ok in
      subst (λ t. IsStored engine events t end.tables) (sym same)
        (save_all-eq-ok engine events opened.tables opened.faults end
          (subst (IsConsistent engine) same k) rest)

  insert_unanswered-Ended :
      (what : String) (events : List Dto.Event) (db : Db engine)
      → IsConsistent engine db.tables
      → let (r, end) = insert_unanswered what events db in
        Ended (some what) events (caught_void engine r) db.tables end.tables
  unfolding insert_unanswered
  insert_unanswered-Ended what events db k =
      let body = (control engine >> save_all engine events) db in
      elim (Except-cases body.0) [
        | inl (done, e) ↦ rw e (
            inr (
              inr (
                what,
                refl,
                refl,
                refl,
                unanswered-IsStored events db body.1 k (ap (λ r. (r, body.1)) e),
              )))
        | inr (error, e) ↦ rw e (inr (inl (refl, (refl, refl))))
      ]

  -- Whichever of its calls to the server fail, and also where COMMIT is carried out without an answer, from
  -- consistent tables: `SaveEvents` returns a result. Where that is a success, all the events were stored,
  -- in order and nothing else. Where it is a failure, the rows of both tables are what they were, or else
  -- COMMIT was not answered, the result has the text of that exception, and all the events were stored.
  pub save_events_doubtful-Ended :
      (lost : Option String) (events : List Dto.Event) (db : Db engine)
      → IsConsistent engine db.tables
      → (result : VoidResult) × ((save_events_doubtful lost events db).0 ≡ ok result)
        × Ended lost events result db.tables (save_events_doubtful lost events db).1.tables
  unfolding save_events_doubtful
  save_events_doubtful-Ended none events db k =
      let (result, returned, outcome) = save_events_atomic engine events db in
      (
        result,
        returned,
        elim (Bool-cases result.success) [
          | inl success ↦
              inl (success, save_events_success engine events db result k returned success)
          | inr failed ↦ elim outcome [
            | inl success ↦ absurd (cc (success, failed))
            | inr same ↦ inr (inl (failed, same))
          ]
        ],
      )
  save_events_doubtful-Ended (some what) [] db k =
      (void_ok, refl, inl (refl, IsStored-nil engine db.tables k))
  save_events_doubtful-Ended (some what) (event ∷ events) db k =
      (_, refl, insert_unanswered-Ended what (event ∷ events) db k)
