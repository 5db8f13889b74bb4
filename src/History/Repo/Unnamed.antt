-- ===== src/History/Repo/Unnamed.antt =====
-- Messages with a number that has no name for a status or a decision, which proto3 lets a client
-- send.
use two_services.Base.{
  ℕ, ◌≡◌, refl, ap, ◌∙◌, ◌⊎◌, inl, inr, Bool, true, false, ◌&&◌, Option, none, some, [], ◌∷◌,
  Bool-cases,
}
use two_services.Base.Exec.{ok}
use two_services.Grpc.{is_ok}
use two_services.Shared.Dto.{status_to_str}
use two_services.Shared.Result.{VoidResult}
use two_services.Proto
use two_services.Utils.Convert.{
  to_dto_event, to_dto_payload, from_proto_event_status, from_proto_filter_decision,
}
use two_services.History.Validate.{validate_event}
use two_services.History.Validate.Accepts.{IsAcceptable, validate_event-IsAcceptable}
use two_services.History.Postgres.{Engine}
use two_services.History.Repo.{Db, save_events}
use two_services.History.Repo.Invariant.{IsConsistent, columns, columns_of}
use two_services.History.Repo.Save.{save_events_atomic}
use two_services.History.Repo.Appended.{all_columns-cons}
use two_services.History.Repo.Success.{save_events_success}

-- A status or a decision that has no name.
abbrev pub IsUnnamed : Proto.Event → Type 0
IsUnnamed event =
    ((n : ℕ) × (event.status ≡ Proto.EventStatus.unknown n))
    ⊎ ((n : ℕ) × ((Proto.payload_or_default event.payload).filter_decision
          ≡ Proto.FilterDecision.unknown n))

and-false : (b : Bool) → (b && false) ≡ false
and-false true = refl
and-false false = refl

module _ (engine : Engine) where
  columns_of-false :
      (time : Option engine.Timestamptz) (ip : Option (Option engine.Inet)) (b : Bool)
      → b ≡ false
      → columns_of engine time ip b ≡ none
  columns_of-false none ip b h = refl
  columns_of-false (some time) none b h = refl
  columns_of-false (some time) (some ip) true h = cc
  columns_of-false (some time) (some ip) false h = refl

  unnamed-columns :
      (event : Proto.Event) → IsUnnamed event → columns engine (to_dto_event event) ≡ none
  unfolding columns to_dto_event to_dto_payload from_proto_event_status from_proto_filter_decision
      status_to_str
  unnamed-columns event (inl (n, h)) = columns_of-false _ _ _ (rw h (and-false _))
  unnamed-columns event (inr (n, h)) =
      columns_of-false _ _ _ (rw h (ap (◌&&◌ _) (and-false _) ∙ and-false _))

  -- On consistent tables, an acceptable event with a status or a decision that has no name passes
  -- `ValidateEvent`, and `SaveEvents` then returns an error for it, whatever the calls to the
  -- server do.
  pub save_events-IsUnnamed :
      (event : Proto.Event) (db : Db engine)
      → IsAcceptable event
      → IsUnnamed event
      → IsConsistent engine db.tables
      → (is_ok (validate_event event) ≡ true)
        × (result : VoidResult) × ((save_events engine (to_dto_event event ∷ []) db).0 ≡ ok result)
        × (result.success ≡ false)
  save_events-IsUnnamed event db acceptable unnamed consistent =
      let (result, returns, outcome) = save_events_atomic engine (to_dto_event event ∷ []) db in
      (
        (validate_event-IsAcceptable event).1 acceptable,
        result,
        returns,
        elim (Bool-cases result.success) [
          | inl saved ↦
              let stored =
                save_events_success engine (to_dto_event event ∷ []) db result consistent returns
                  saved in
              let (c, rest, admitted, others, whole) =
                all_columns-cons engine (to_dto_event event) [] stored.columns stored.admitted in
              absurd (cc (admitted, unnamed-columns event unnamed))
          | inr failed ↦ failed
        ],
      )
