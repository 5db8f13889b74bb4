-- ===== src/Samples/Delivered.antt =====
-- The sample stub delivers.
use two_services.History.Stream.{silent}
use two_services.Base.{String, none, ◌≡◌, refl, ap, true, false, List, [], ◌∷◌, map}
use two_services.Base.Exec.{Except, ok, throw}
use two_services.Grpc.{Status, is_ok}
use two_services.Proto
use two_services.History.Server
use two_services.History.UseCases.{UseCases}
use two_services.System.Messages.{messages}
use two_services.System.Delivery.{Delivers}
use two_services.System.Fetched.{Answers}
use two_services.Samples.{stub_logging, time_util, service, stub, stub_of, answer, no_reply}

pub answer-ok :
    {R S : Type 0} (default : R) (q : Except (Status × R) × S)
    → is_ok (answer default q.0).0 ≡ true
    → q ≡ (ok (answer default q.0), q.1)
answer-ok default (ok reply, s) h = refl
answer-ok default (throw what, s) h = cc

pub messages-map :
    (sent : List Proto.SaveEventsRequest) → messages (map (λ m. (m, false)) sent) ≡ sent
messages-map [] = refl
messages-map (m ∷ sent) = ap (◌∷◌ m) (messages-map sent)

abbrev pub delivered_logging :
    {S : Type 0} (uc : UseCases S) (log : String → S → S) → Delivers uc log (stub_logging uc log)
delivered_logging uc log = record {
  server = λ w. w.db;
  sent = λ w. w.sent;
  start = λ w. w.start;
  answered = λ request w h. answer-ok no_reply (Server.save_event uc request w.db) h;
  opened = λ w h. (refl, refl);
  written = λ message w h. (refl, refl);
  finished = λ w h. (map (λ m. (m, false)) w.sent, messages-map w.sent, refl);
}

abbrev pub delivered_of : {S : Type 0} (uc : UseCases S) → Delivers uc silent (stub_of uc)
delivered_of uc = delivered_logging uc silent

abbrev pub delivered : Delivers service silent stub
delivered = delivered_of service

abbrev pub answering : Answers service time_util stub
answering = record {
  server = λ w. w.db;
  answered = λ request w h.
      answer-ok (record { events = []; success = false; message = "" })
        (Server.get_events service time_util request w.db) h;
  counted = λ w h.
      answer-ok (record { stats = none; success = false; message = "" })
        (Server.get_stats service w.db) h;
}
