-- ===== src/Reporter/Run.antt =====
-- internal/agent/recovery/reporter.go: calls of `Enqueue` between the steps of the flushes.
use nur_proxy.Base.{
  ℕ, Bool, true, false, not, ◌&&◌, String, Option, none, some, List, [], ◌∷◌, ◌++◌, nat_beq,
}
use nur_proxy.Wire.{RecoveryReport}
use nur_proxy.Reporter.{ReportKey, BoundedReporter, is_set}
use nur_proxy.Reporter.Queue.{Verdict, entered, verdict, item_of, make_way, key_of, enqueue}
use nur_proxy.Reporter.Flush.{Outcome, cancelled, Flusher, begin, next, settle}

-- A call of `Enqueue`, the start of a flush, a round of its loop up to the sender, and the end of the
-- attempts to send.
pub data Event : Type 0 where
  enqueues : RecoveryReport → Event
  begins picks : Event
  settles : Outcome → Event

abbrev pub entrant : Verdict → RecoveryReport → List RecoveryReport
entrant entered report = report ∷ []
entrant _ report = []

-- The report, if it enters the queue.
unfoldable pub entrants : Option ReportKey → RecoveryReport → BoundedReporter → List RecoveryReport
entrants none report r = []
entrants (some key) report r = entrant (verdict (item_of report key r) (make_way report r)) report

abbrev pub idle : Flusher → Bool
idle f = nat_beq f.remaining 0 && not (is_set f.in_flight)

-- A reporter at work, and the reports that have entered its queue.
abbrev pub Work : Type 0
Work = Flusher × List RecoveryReport

module _ (sanitize : String → String) (decimal : ℕ → String) where
  unfoldable pub step : Event → Work → Work
  step (enqueues report) (f, admitted) = (
    record f { reporter = (enqueue sanitize decimal report f.reporter).0 },
    admitted ++ entrants (key_of sanitize decimal report f.reporter) report f.reporter,
  )
  step begins (f, admitted) = (begin f, admitted)
  step picks (f, admitted) = (next f, admitted)
  step (settles outcome) (f, admitted) = (settle outcome f, admitted)

  unfoldable pub run : List Event → Work → Work
  run [] w = w
  run (e ∷ events) w = run events (step e w)

  -- No report of diagnostics, no call between the start of a flush and its end, and no flush that is
  -- broken off.
  abbrev pub gentle : Event → Work → Bool
  gentle (enqueues report) w = not (is_set report.diagnostics) && idle w.0
  gentle (settles cancelled) w = false
  gentle e w = true

  unfoldable pub calm : List Event → Work → Bool
  calm [] w = true
  calm (e ∷ events) w = let rest = calm events (step e w) in gentle e w && rest
