-- ===== src/System/Sent.antt =====
-- `SaveEventUseCase::Execute` of the client over gRPC, with any service.
use two_services.Base.{
  ℕ, suc, ◌≡◌, refl, ap₂, subst, inl, inr, String, true, List, [], ◌∷◌, map, concat, ◌==◌,
  Bool-cases,
}
use two_services.Shared.Dto
use two_services.NetLogger.{NetLogger}
use two_services.Utils.Builder.{Clock}
use two_services.Utils.Convert.{TimeUtil}
use two_services.History.UseCases.{UseCases}
use two_services.History.Stream.Success.{Saves}
use two_services.Shared.Console.{Console}
use two_services.Ipv4Filter.GrpcService.{Stub, save_batch, event_saver}
use two_services.Ipv4Filter.EventBuilder.Accepted.{event_at-unchanged}
use two_services.Ipv4Filter.UseCases
use two_services.Ipv4Filter.UseCases.{SaveRequest}
use two_services.Ipv4Filter.EventBuilder.{event_builder}
use two_services.Ipv4Filter.UseCases.Built.{built, on_batches-built}
use two_services.System.Messages.{over_the_wire}
use two_services.System.Delivery.{Delivers, save_batch-success}

module _ (net : NetLogger) (clock : Clock) (now : ℕ → clock.TimePoint) (src : String) where
  built-unchanged :
      (entries : List net.LogEntry) (k : ℕ)
      → map over_the_wire (built net clock now src entries k) ≡ built net clock now src entries k
  unfolding built
  built-unchanged [] k = refl
  built-unchanged (entry ∷ entries) k = elim (Bool-cases (net.raw_line entry == "")) [
    | inl e ↦ rw e (built-unchanged entries k)
    | inr e ↦ rw e (
        ap₂ (◌∷◌) (event_at-unchanged net clock now src entry (now k))
          (built-unchanged entries (suc k)))
  ]

  module _ {S W : Type 0} (uc : UseCases S) (R : List Dto.Event → S → S → Type 0)
      (saves : Saves uc R) (time : TimeUtil) (stub : Stub time.Timestamp W) (log : String → S → S)
      (logged : (text : String) (events : List Dto.Event) (s t : S)
        → R events s t
        → R events s (log text t))
      (delivers : Delivers uc log stub) where
    -- Where `Execute` returns true, the service has saved what is built from the log.
    pub execute_save-R :
        (request : SaveRequest net.CompositeFilter) (input : String) (k : ℕ) (c : Console W)
        → (UseCases.execute_save net
            (event_builder net clock now src)
            (event_saver time stub)
            request
            input
            (k, c)).0
          ≡ true
        → R
            (built net clock now src (concat (net.process_stream input request.filter)) k)
            (delivers.server c.world)
            (delivers.server
              (UseCases.execute_save net
                (event_builder net clock now src)
                (event_saver time stub)
                request
                input
                (k, c)).1.1.world)
    unfolding UseCases.execute_save
    execute_save-R request input k c h =
        let events = built net clock now src (concat (net.process_stream input request.filter)) k in
        let runs = on_batches-built net clock now src (net.process_stream input request.filter) k in
        rw runs (
          subst
            (λ es.
              R es (delivers.server c.world)
                (delivers.server (save_batch time stub events c).1.world))
            (built-unchanged (concat (net.process_stream input request.filter)) k)
            (save_batch-success uc R saves time stub log logged delivers events c (rw runs at h)))
