-- ===== src/Runner/Drained.antt =====
-- The rounds of reportLoop, one after the other (sdk.go).
use binfinity_addon_sdk.Prelude.{
  All, In, List, Str, [], false, inl, inr, nil_of_not_In, refl, some, true, ℕ, ◌↔◌, ◌∷◌, ◌≡◌, ◌⊎◌,
}
use binfinity_addon_sdk.Disk.{Disk}
use binfinity_addon_sdk.Outbox.{Json, PendingReport, Sender, flush, flush_on, pending_on}
use binfinity_addon_sdk.Outbox.View.{ReadsOk}
use binfinity_addon_sdk.Outbox.Owned.{IsOwned}
use binfinity_addon_sdk.Outbox.Rounds.{faults-flush_all}
use binfinity_addon_sdk.Outbox.Flush.{
  flush_on-IsOwned, flush_on-ReadsOk, flush_on_exact, flush_on_zero,
}
use binfinity_addon_sdk.Runner.{Runner}
use binfinity_addon_sdk.Runner.Delivery.{report_round}

-- ctx ends in none of these rounds.
abbrev pub IsLive : Sender → Type 0
IsLive env = (p : PendingReport) → env.ctx_done p ≡ false

-- One of the rounds delivers the report.
abbrev pub IsDelivered : PendingReport → List Sender → Type 0
IsDelivered q [] = ⊥
IsDelivered q (env ∷ envs) = (env.send q ≡ true) ⊎ IsDelivered q envs

abbrev pub IsUnsent : PendingReport → List Sender → Type 0
IsUnsent q envs = All (λ env. env.send q ≡ false) envs

not-IsDelivered : (q : PendingReport) (envs : List Sender) → IsUnsent q envs → ¬ IsDelivered q envs
not-IsDelivered q [] h m = m
not-IsDelivered q (env ∷ envs) h (inl sent) = cc (h.0)
not-IsDelivered q (env ∷ envs) h (inr m) = not-IsDelivered q envs h.1 m

module _ (json : Json) where
  pub record IsReady (d : Disk) : Type 0 where
    pub reads : ReadsOk d
    pub owned : IsOwned json d
    pub removes : (n : Str) → d.faults.remove_fails n ≡ false

  flush_on-IsReady : (env : Sender) (d : Disk) → IsReady d → IsReady (flush_on json env d).0
  unfolding flush_on
  flush_on-IsReady env d h = record {
    reads = flush_on-ReadsOk json env d h.reads h.owned;
    owned = flush_on-IsOwned json env d h.reads h.owned;
    removes = λ n. rw (faults-flush_all env (pending_on json d) 0 d) (h.removes n);
  }

  abbrev flush_rounds : List Sender → Disk → Disk
  flush_rounds [] d = d
  flush_rounds (env ∷ envs) d = flush_rounds envs (flush_on json env d).0

  flush_rounds_exact :
      (envs : List Sender) (d : Disk) (q : PendingReport)
      → IsReady d
      → All IsLive envs
      → In q (pending_on json (flush_rounds envs d)) ↔ (In q (pending_on json d) × IsUnsent q envs)
  flush_rounds_exact [] d q h live = (λ m. (m, tt), λ m. m.0)
  flush_rounds_exact (env ∷ envs) d q h live =
      let rest =
        flush_rounds_exact envs (flush_on json env d).0 q (flush_on-IsReady env d h) live.1 in
      let round = flush_on_exact json env d h.reads h.owned live.0 h.removes q in
      (
        λ m.
            let (later, unsent) = rest.0 m in
            let (was, kept) = round.0 later in (was, (kept, unsent)),
        λ m. rest.1 (round.1 (m.0, m.1.0), m.1.1),
      )

  flush_rounds_empty :
      (envs : List Sender) (d : Disk)
      → IsReady d
      → All IsLive envs
      → ((q : PendingReport) → In q (pending_on json d) → IsDelivered q envs)
      → pending_on json (flush_rounds envs d) ≡ []
  flush_rounds_empty envs d h live sent = nil_of_not_In _ λ q m.
      let (was, unsent) = (flush_rounds_exact envs d q h live).0 m in
      not-IsDelivered q envs unsent (sent q was)

  -- The loop, from this attempt on: the runner, and the next attempt.
  unfoldable pub report_rounds : List Sender → ℕ → Runner → Runner × ℕ
  unfolding report_round
  report_rounds [] attempt r = (r, attempt)
  report_rounds (env ∷ envs) attempt r =
      let (r', next, wait) = report_round json env attempt r in report_rounds envs next r'

  out-report_round :
      (env : Sender) (a : ℕ) (r : Runner) (d : Disk)
      → r.out ≡ some d
      → (report_round json env a r).0.out ≡ some (flush_on json env d).0
  unfolding report_round flush
  out-report_round env a r d h = rw h refl

  out-report_rounds :
      (envs : List Sender) (a : ℕ) (r : Runner) (d : Disk)
      → r.out ≡ some d
      → (report_rounds envs a r).0.out ≡ some (flush_rounds envs d)
  unfolding report_rounds
  out-report_rounds [] a r d h = h
  out-report_rounds (env ∷ envs) a r d h =
      out-report_rounds envs (report_round json env a r).1 (report_round json env a r).0
        (flush_on json env d).0 (out-report_round env a r d h)

  attempt-report_round :
      (env : Sender) (a : ℕ) (r : Runner) (d : Disk)
      → r.out ≡ some d
      → (flush_on json env d).1 ≡ 0
      → (report_round json env a r).1 ≡ 0
  unfolding report_round flush
  attempt-report_round env a r d h e = rw (h, e) refl

  attempt-report_rounds :
      (env : Sender) (envs : List Sender) (a : ℕ) (r : Runner) (d : Disk)
      → r.out ≡ some d
      → IsReady d
      → All IsLive (env ∷ envs)
      → pending_on json (flush_rounds (env ∷ envs) d) ≡ []
      → (report_rounds (env ∷ envs) a r).1 ≡ 0
  unfolding report_rounds
  attempt-report_rounds env [] a r d h ready live e =
      attempt-report_round env a r d h
        ((flush_on_zero json env d ready.reads ready.owned live.0 ready.removes).1 e)
  attempt-report_rounds env (next ∷ envs) a r d h ready live e =
      attempt-report_rounds next envs (report_round json env a r).1 (report_round json env a r).0
        (flush_on json env d).0 (out-report_round env a r d h) (flush_on-IsReady env d ready) live.1
        e

  -- Take any rounds of reportLoop, at least one, over an outbox that reads without errors, whose
  -- report files are owned by their reports and can all be removed, with a ctx that does not end.
  -- If each report that is pending at the start is delivered in some round, nothing is pending at
  -- the end, and the loop's attempt count is 0.
  pub report_rounds_drain :
      (env : Sender) (envs : List Sender) (a : ℕ) (r : Runner) (d : Disk)
      → r.out ≡ some d
      → IsReady d
      → All IsLive (env ∷ envs)
      → ((q : PendingReport) → In q (pending_on json d) → IsDelivered q (env ∷ envs))
      → (d' : Disk) × ((report_rounds (env ∷ envs) a r).0.out ≡ some d')
        × (pending_on json d' ≡ [])
        × ((report_rounds (env ∷ envs) a r).1 ≡ 0)
  report_rounds_drain env envs a r d h ready live sent =
      let empty = flush_rounds_empty (env ∷ envs) d ready live sent in
      (
        flush_rounds (env ∷ envs) d,
        out-report_rounds (env ∷ envs) a r d h,
        empty,
        attempt-report_rounds env envs a r d h ready live empty,
      )
