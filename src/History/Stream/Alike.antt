-- ===== src/History/Stream/Alike.antt =====
-- `SaveEventsStream` over two stores that answer alike.
use two_services.Base.{
  ℕ, ◌+◌, ◌%◌, ◌≡◌, refl, ap, subst, String, Bool, List, [], ◌∷◌, length, leb, nat_eq, Bool-cases,
  inl, inr,
}
use two_services.Base.Exec.{Except, ok, throw, Exec, continue}
use two_services.Grpc.{is_ok}
use two_services.Shared.Dto
use two_services.Shared.Result.{VoidResult}
use two_services.Proto
use two_services.History.UseCases.{UseCases}
use two_services.History.Validate.{validate_save_events_request}
use two_services.History.Stream.{
  Reply, Progress, Round, returned, reading, received, event_or_default, batch_size, log_interval,
  stream_progress, stream_completed, log_progress, after_batch, after_final_batch, flush_full,
  read_round, finish, next_round, read_loop, no_progress, catch_fatal, save_events_stream,
}

-- The same result, and states that are related.
abbrev pub Same : {A S T : Type 0} → (S → T → Type 0) → A × S → A × T → Type 0
Same Rel x y = (x.0 ≡ y.0) × Rel x.1 y.1

module _ {S T : Type 0} (Rel : S → T → Type 0) where
  pub continue-Same :
      {A B : Type 0} (r r' : Except A) (f : A → Exec S B) (g : A → Exec T B) (s : S) (t : T)
      → r ≡ r'
      → Rel s t
      → ((a : A) → Same Rel (f a s) (g a t))
      → Same Rel (continue r f s) (continue r' g t)
  continue-Same {A} r r' f g s t e h k =
      subst (λ q. Same Rel (continue r f s) (continue q g t)) e (go r)
    where
      go : (q : Except A) → Same Rel (continue q f s) (continue q g t)
      go (ok a) = k a
      go (throw what) = (refl, h)

-- The stores answer alike to what is saved, and stay related; so they do where texts are written.
pub record SavesAlike {S T : Type 0} (uc : UseCases S) (say : String → S → S) (ud : UseCases T)
    (say' : String → T → T) (Rel : S → T → Type 0) : Type 0 where
  pub said : (text : String) (s : S) (t : T) → Rel s t → Rel (say text s) (say' text t)
  pub saved :
      (events : List Dto.Event) (s : S) (t : T)
      → Rel s t
      → Same Rel (uc.save_event.execute events s) (ud.save_event.execute events t)

module _ {S T : Type 0} (uc : UseCases S) (say : String → S → S) (ud : UseCases T)
    (say' : String → T → T) (Rel : S → T → Type 0) (alike : SavesAlike uc say ud say' Rel) where
  open alike use {said, saved}

  log_progress-Rel :
      (total count : ℕ) (s : S) (t : T)
      → Rel s t
      → Rel (log_progress uc say total count s) (log_progress ud say' total count t)
  log_progress-Rel total count s t h = elim (Bool-cases (nat_eq (total % log_interval) 0)) [
    | inl e ↦ rw e (said (stream_progress total count) s t h)
    | inr e ↦ rw e h
  ]

  after_batch-Same :
      (p : Progress) (result : VoidResult) (s : S) (t : T)
      → Rel s t
      → Same Rel (after_batch uc say p result s) (after_batch ud say' p result t)
  after_batch-Same p result s t h = elim (Bool-cases result.success) [
    | inl e ↦ rw e (refl, log_progress-Rel p.total_events (p.saved_events + length p.batch) s t h)
    | inr e ↦ rw e (refl, h)
  ]

  after_final_batch-Same :
      (p : Progress) (result : VoidResult) (s : S) (t : T)
      → Rel s t
      → Same Rel (after_final_batch uc say p result s) (after_final_batch ud say' p result t)
  after_final_batch-Same p result s t h = elim (Bool-cases result.success) [
    | inl e ↦
        rw e (refl, said (stream_completed (p.saved_events + length p.batch) p.total_events) s t h)
    | inr e ↦ rw e (refl, h)
  ]

  flush_full-Same :
      (p : Progress) (s : S) (t : T)
      → Rel s t
      → Same Rel (flush_full uc say p s) (flush_full ud say' p t)
  unfolding flush_full
  flush_full-Same p s t h = elim (Bool-cases (leb batch_size (length p.batch))) [
    | inl full ↦
        let (same, still) = saved p.batch s t h in
        rw full (
          continue-Same Rel _ _ (after_batch uc say p) (after_batch ud say' p) _ _ same still
            (λ result. after_batch-Same p result _ _ still))
    | inr short ↦ rw short (refl, h)
  ]

  read_round-Same :
      (request : Proto.SaveEventsRequest) (is_cancelled : Bool) (p : Progress) (s : S) (t : T)
      → Rel s t
      → Same Rel
          (read_round uc say request is_cancelled p s)
          (read_round ud say' request is_cancelled p t)
  unfolding read_round
  read_round-Same request is_cancelled p s t h =
      let q = received (event_or_default request.event) p in
      elim (Bool-cases (is_ok (validate_save_events_request request.event))) [
        | inl valid ↦
            let (same, still) = flush_full-Same q s t h in
            rw valid (continue-Same Rel _ _ _ _ _ _ same still (λ round. (refl, still)))
        | inr bad ↦ rw bad (refl, h)
      ]

  finish_batch-Same :
      (total_events saved_events : ℕ) (batch : List Dto.Event) (s : S) (t : T)
      → Rel s t
      → let p : Progress = record {
        total_events = total_events;
        saved_events = saved_events;
        batch = batch;
      } in
        Same Rel (finish uc say p s) (finish ud say' p t)
  unfolding finish
  finish_batch-Same total_events saved_events [] s t h =
      (refl, said (stream_completed saved_events total_events) s t h)
  finish_batch-Same total_events saved_events (e ∷ batch) s t h =
      let p : Progress = record {
        total_events = total_events;
        saved_events = saved_events;
        batch = e ∷ batch;
      } in
      let (same, still) = saved (e ∷ batch) s t h in
      continue-Same Rel _ _ (after_final_batch uc say p) (after_final_batch ud say' p) _ _ same
        still (λ result. after_final_batch-Same p result _ _ still)

  next_round-Same :
      (rest : Progress → Exec S Reply) (rest' : Progress → Exec T Reply) (round : Round) (s : S)
      (t : T)
      → Rel s t
      → ((p : Progress) → Same Rel (rest p s) (rest' p t))
      → Same Rel (next_round rest round s) (next_round rest' round t)
  next_round-Same rest rest' (returned reply) s t h k = (refl, h)
  next_round-Same rest rest' (reading p) s t h k = k p

  read_loop-Same :
      (stream : List (Proto.SaveEventsRequest × Bool)) (p : Progress) (s : S) (t : T)
      → Rel s t
      → Same Rel (read_loop uc say stream p s) (read_loop ud say' stream p t)
  unfolding read_loop
  read_loop-Same [] p s t h = finish_batch-Same p.total_events p.saved_events p.batch s t h
  read_loop-Same ((request, is_cancelled) ∷ rest) p s t h =
      let (same, still) = read_round-Same request is_cancelled p s t h in
      continue-Same Rel _ _ (next_round (read_loop uc say rest))
        (next_round (read_loop ud say' rest)) _ _ same still
        (λ round.
          next_round-Same (read_loop uc say rest) (read_loop ud say' rest) round _ _ still
            (λ q. read_loop-Same rest q _ _ still))

  -- The replies are the same, and the stores stay related.
  pub save_events_stream-Same :
      (stream : List (Proto.SaveEventsRequest × Bool)) (s : S) (t : T)
      → Rel s t
      → Same Rel (save_events_stream uc say stream s) (save_events_stream ud say' stream t)
  unfolding save_events_stream
  save_events_stream-Same stream s t h =
      let (same, still) = read_loop-Same stream no_progress s t h in (ap catch_fatal same, still)
