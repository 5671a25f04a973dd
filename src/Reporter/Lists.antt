-- ===== src/Reporter/Lists.antt =====
-- internal/agent/recovery/reporter.go: the reports of one operation in a queue.
use nur_proxy.Base.{
  ◌∙◌, ◌≡◌, refl, String, string_eq, List, [], ◌∷◌, ◌++◌, ◌==◌, if◌then◌else◌, Bool-cases, inl, inr,
  ap,
}
use nur_proxy.Wire.{RecoveryReport}
use nur_proxy.Reporter.{QueuedReport, report_operation_id}

unfoldable pub of_operation : String → List RecoveryReport → List RecoveryReport
of_operation id [] = []
of_operation id (r ∷ rs) =
    let rest = of_operation id rs in if report_operation_id r == id then r ∷ rest else rest

abbrev pub reports : List QueuedReport → List RecoveryReport
reports [] = []
reports (q ∷ queue) = q.report ∷ reports queue

-- The reports of the operation that stand in the queue.
abbrev pub lane : String → List QueuedReport → List RecoveryReport
lane id queue = of_operation id (reports queue)

pub of_operation-append :
    (id : String) (xs ys : List RecoveryReport)
    → of_operation id (xs ++ ys) ≡ of_operation id xs ++ of_operation id ys
unfolding of_operation
of_operation-append id [] ys = refl
of_operation-append id (r ∷ xs) ys = elim (Bool-cases (report_operation_id r == id)) [
  | inl h ↦ rw (h, of_operation) (ap (λ zs. r ∷ zs) (of_operation-append id xs ys))
  | inr h ↦ rw (h, of_operation) (of_operation-append id xs ys)
]

reports-append : (xs ys : List QueuedReport) → reports (xs ++ ys) ≡ reports xs ++ reports ys
reports-append [] ys = refl
reports-append (q ∷ xs) ys = ap (λ zs. q.report ∷ zs) (reports-append xs ys)

pub lane-append :
    (id : String) (xs ys : List QueuedReport) → lane id (xs ++ ys) ≡ lane id xs ++ lane id ys
lane-append id xs ys =
    ap (of_operation id) (reports-append xs ys) ∙ of_operation-append id (reports xs) (reports ys)
