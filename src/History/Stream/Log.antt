-- ===== src/History/Stream/Log.antt =====
-- What `SaveEventsStream` writes to the standard output of the service.
use Prim.Native.String.{◌++◌ as join}
use two_services.Base.Decimal.{to_string}
use two_services.Base.{
  ◌⊎◌, ℕ, zero, suc, ◌*◌, ◌/◌, ◌%◌, ◌≡◌, ◌≤◌, String, false, List, [], ◌∷◌, ◌++◌, if◌then◌else◌,
}
use two_services.Shared.Dto
use two_services.Proto
use two_services.History.UseCases.{UseCases}
use two_services.History.Stream.{Reply, batch_size, log_interval}

-- `printed` reads the output off the state: `say` adds to it, and `Execute` writes nothing.
pub record Prints {S : Type 0} (uc : UseCases S) (say : String → S → S) (printed : S → List String)
    : Type 0 where
  pub printed-say : (text : String) (s : S) → printed (say text s) ≡ printed s ++ text ∷ []
  pub printed-execute :
      (events : List Dto.Event) (s : S) → printed (uc.save_event.execute events s).1 ≡ printed s

-- The lines for the first `n` times ten thousand events.
abbrev pub progress_lines : ℕ → List String
progress_lines zero = []
progress_lines (suc n) =
    let count = to_string (suc n * 10000) in
    progress_lines n
    ++ join "Stream progress: " (join count (join " events processed, " (join count " saved\n")))
      ∷ []

-- The line for a stream of so many events, where its reply reports a success.
abbrev pub completion : Reply → ℕ → List String
completion reply total =
    let count = to_string total in
    if reply.1.success
    then join "Stream completed: " (join count (join "/" (join count " events saved\n"))) ∷ []
    else []

module _ {S : Type 0} (uc : UseCases S) (say : String → S → S) (printed : S → List String)
    (prints : Prints uc say printed) where
  open prints use {printed-say, printed-execute}

  -- What stands in the output at the end of a stream of so many events.
  pub record IsLogged (start : List String) (total : ℕ) (reply : Reply) (end : S) : Type 0 where
    pub tens : ℕ
    pub bounded : tens ≤ total / 10000
    pub lines : printed end ≡ start ++ progress_lines tens ++ completion reply total
    pub all_of_them : (tens ≡ total / 10000) ⊎ (reply.1.success ≡ false)

  module _ (start : List String) where
    -- The lines for the first so many events, a whole number of batches.
    record IsAt (saved : ℕ) (s : S) : Type 0 where
      whole : saved % batch_size ≡ 0
      lines : printed s ≡ start ++ progress_lines (saved / log_interval)
