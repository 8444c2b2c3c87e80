-- ===== src/Outbox/Tests.antt =====
-- Examples of the outbox (outbox.go).
use binfinity_addon_sdk.Prelude.{
  In, Str, [], ap, codes, false, if◌then◌else◌, length, map, min, not, refl, some, str_eq, true,
  ◌&&◌, ◌↔◌, ◌∷◌, ◌≡◌,
}
use binfinity_addon_sdk.Disk.{Faults}
use binfinity_addon_sdk.Outbox.{Sender, enqueue_on, ext, file_name, flush_on, pending_on}
use binfinity_addon_sdk.Outbox.Order.{Ascending, pending_on-Ascending}
use binfinity_addon_sdk.Outbox.View.{HoldsAt, In-pending_on_saved, IsSavedAs}
use binfinity_addon_sdk.Outbox.Durable.{enqueue_on_exact, report_at}
use binfinity_addon_sdk.Outbox.Flush.{flush_on_exact, flush_on_keeps}
use binfinity_addon_sdk.Outbox.Fixtures.{
  by_id, empty_disk, first_held, sample, sample_result, two_reports, two_reports-IsOwned,
  two_reports-ReadsOk, two_reports-faults,
}
use binfinity_addon_sdk.Outbox.Stopped.{flush_on_stopped}

-- Every report but the first command's is delivered.
abbrev all_but_first : Sender
all_but_first = record { ctx_done = λ p. false; send = λ p. not (str_eq p.cmd_id (codes "job/1")) }

two_reports_pending :
    pending_on by_id two_reports ≡ sample (codes "2") ∷ sample (codes "job/1") ∷ []
unfolding pending_on enqueue_on
two_reports_pending = refl

removes_all : (n : Str) → two_reports.faults.remove_fails n ≡ false
removes_all n = ap (λ (f : Faults). f.remove_fails n) two_reports-faults

flush_on_keeps_example :
    HoldsAt by_id
      (flush_on by_id all_but_first two_reports).0
      (codes "job_1.json")
      (sample (codes "job/1"))
unfolding str_eq
flush_on_keeps_example =
    flush_on_keeps by_id all_but_first two_reports two_reports-ReadsOk two_reports-IsOwned
      (codes "job_1.json") (sample (codes "job/1")) first_held refl

flush_on_exact_example :
    In (sample (codes "2")) (pending_on by_id (flush_on by_id all_but_first two_reports).0) ↔ (
      In (sample (codes "2")) (pending_on by_id two_reports)
      × (all_but_first.send (sample (codes "2")) ≡ false))
flush_on_exact_example =
    flush_on_exact by_id all_but_first two_reports two_reports-ReadsOk two_reports-IsOwned
      (λ p. refl) removes_all (sample (codes "2"))

enqueue_on_exact_example :
    report_at by_id
      (enqueue_on by_id (codes "job/1") sample_result empty_disk).0
      (codes "job_1.json")
    ≡ (if (enqueue_on by_id (codes "job/1") sample_result empty_disk).1
          && str_eq (file_name (codes "job/1")) (codes "job_1.json")
        then some (sample (codes "job/1"))
        else report_at by_id empty_disk (codes "job_1.json"))
enqueue_on_exact_example =
    enqueue_on_exact by_id (codes "job/1") sample_result empty_disk refl refl (codes "job_1.json")
      (unfold ext in refl)

In-pending_on_saved_example : In (sample (codes "2")) (pending_on by_id two_reports) ↔ (
    (n : Str) × (text : Str) × (ext n ≡ codes ".json")
    × IsSavedAs by_id (sample (codes "2")) two_reports n text)
In-pending_on_saved_example =
    In-pending_on_saved by_id (sample (codes "2")) two_reports two_reports-ReadsOk

pending_on-Ascending_example :
    Ascending (map (λ p. file_name p.cmd_id) (pending_on by_id two_reports))
pending_on-Ascending_example =
    pending_on-Ascending by_id two_reports two_reports-ReadsOk two_reports-IsOwned

-- The context is done before the first of two reports: one is counted, and both are left.
abbrev stopped : Sender
stopped = record { ctx_done = λ p. true; send = λ p. false }

flush_on_stopped_example :
    flush_on by_id stopped two_reports
    ≡ (two_reports, min 1 (length (pending_on by_id two_reports)))
flush_on_stopped_example = flush_on_stopped by_id stopped two_reports (λ p. refl)
