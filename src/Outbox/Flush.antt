-- ===== src/Outbox/Flush.antt =====
-- One round of delivery (outbox.go, flush): what it leaves on disk, and what it returns.
use binfinity_addon_sdk.Prelude.{
  All-of_In, Bool-cases, In, In-filter, Str, [], ap, arith, false, filter, inl, inr, length,
  nil_of_length, nil_of_not_In, not, str_eq, str_eq_iff, sym, ◌↔◌, ◌∙◌, ◌≡◌,
}
use binfinity_addon_sdk.Disk.{Disk}
use binfinity_addon_sdk.Outbox.{Json, PendingReport, Sender, file_name, flush_on, pending_on}
use binfinity_addon_sdk.Outbox.View.{HoldsAt, In-pending_on, ReadsOk}
use binfinity_addon_sdk.Outbox.Durable.{ReadsOk-faults}
use binfinity_addon_sdk.Outbox.Owned.{IsOwned, parse_node-none}
use binfinity_addon_sdk.Outbox.Rounds.{
  NoneDone, Spares, faults-flush_all, flush_all-Spares, flush_all-sent, flush_all-sub,
  remaining-flush_all,
}

module _ (json : Json) (env : Sender) (d : Disk) (ok : ReadsOk d) (own : IsOwned json d) where
  -- A report that is not sent is spared by all those that are.
  Spares-pending_on :
      (n : Str) (q : PendingReport)
      → HoldsAt json d n q
      → env.send q ≡ false
      → Spares env n (pending_on json d)
  Spares-pending_on n q h unsent = All-of_In (pending_on json d) λ p m sent.
      elim (Bool-cases (str_eq (file_name p.cmd_id) n)) [
        | inr e ↦ e
        | inl e ↦
            let (n', hp) = (In-pending_on json p d ok).0 m in
            cc ((str_eq_iff (file_name p.cmd_id) n).0 e, own.at n' p hp, hp.1, h.1, sent, unsent)
      ]

  -- If the directory reads without errors and its report files are owned by their reports, a
  -- report that is on disk and that `send` does not deliver is on disk in the same file after
  -- flush, whatever else is sent, whatever removals fail, and also if ctx ends on the way.
  pub flush_on_keeps :
      (n : Str) (q : PendingReport)
      → HoldsAt json d n q
      → env.send q ≡ false
      → HoldsAt json (flush_on json env d).0 n q
  unfolding flush_on
  flush_on_keeps n q h unsent = (
    h.0,
    rw (flush_all-Spares env n (pending_on json d) 0 d (Spares-pending_on n q h unsent)) h.1,
  )

  -- A flush creates no report.
  HoldsAt-flush_on :
      (n : Str) (q : PendingReport) → HoldsAt json (flush_on json env d).0 n q → HoldsAt json d n q
  unfolding flush_on
  HoldsAt-flush_on n q h = elim (flush_all-sub env n (pending_on json d) 0 d) [
    | inl e ↦ absurd (parse_node-none json q (rw e at h.1))
    | inr e ↦ (h.0, rw e at h.1)
  ]

  pub flush_on-IsOwned : IsOwned json (flush_on json env d).0
  flush_on-IsOwned = record { at = λ n p h. own.at n p (HoldsAt-flush_on n p h) }

  pub flush_on-ReadsOk : ReadsOk (flush_on json env d).0
  unfolding flush_on
  flush_on-ReadsOk = ReadsOk-faults (faults-flush_all env (pending_on json d) 0 d) ok

  module _ (live : (p : PendingReport) → env.ctx_done p ≡ false)
      (removes : (n : Str) → d.faults.remove_fails n ≡ false) where
    live_all : NoneDone env (pending_on json d)
    live_all = All-of_In (pending_on json d) (λ p m. live p)

    unsent-flush_on :
        (n : Str) (q : PendingReport)
        → HoldsAt json (flush_on json env d).0 n q
        → env.send q ≡ false
    unfolding flush_on
    unsent-flush_on n q h = elim (Bool-cases (env.send q)) [
      | inr unsent ↦ unsent
      | inl sent ↦
          let was : HoldsAt json d n q = HoldsAt-flush_on n q h in
          absurd (
            parse_node-none json q (
              rw
                (
                  own.at n q was,
                  flush_all-sent env q (pending_on json d) 0 d live_all removes
                      ((In-pending_on json q d ok).1 (n, was)) sent,
                )
                at h.1))
    ]

    -- If the directory reads without errors, its report files are owned by their reports, ctx does
    -- not end and no removal fails, a report is pending after flush exactly if it was pending
    -- before and `send` did not deliver it.
    pub flush_on_exact :
        (q : PendingReport)
        → In q (pending_on json (flush_on json env d).0)
          ↔ (In q (pending_on json d) × (env.send q ≡ false))
    flush_on_exact q = (
      λ m.
          let (n, h) = (In-pending_on json q (flush_on json env d).0 flush_on-ReadsOk).0 m in
          ((In-pending_on json q d ok).1 (n, HoldsAt-flush_on n q h), unsent-flush_on n q h),
      λ m.
          let (n, h) = (In-pending_on json q d ok).0 m.0 in
          (In-pending_on json q (flush_on json env d).0 flush_on-ReadsOk).1
            (n, flush_on_keeps n q h m.1),
    )

    -- If the directory reads without errors, its report files are owned by their reports, ctx does
    -- not end and no removal fails, flush returns the number of the pending reports that `send`
    -- does not deliver.
    pub flush_on_remaining :
        (flush_on json env d).1 ≡ length (filter (λ p. not (env.send p)) (pending_on json d))
    unfolding flush_on
    flush_on_remaining = omega (arith, remaining-flush_all env (pending_on json d) 0 d live_all)

    -- If the directory reads without errors, its report files are owned by their reports, ctx does
    -- not end and no removal fails, flush returns 0 exactly if nothing is pending after it.
    pub flush_on_zero :
        ((flush_on json env d).1 ≡ 0) ↔ (pending_on json (flush_on json env d).0 ≡ [])
    flush_on_zero = (
      λ e. nil_of_not_In _ λ q m.
          let (was, unsent) = (flush_on_exact q).0 m in
          let none_left = nil_of_length _ (sym flush_on_remaining ∙ e) in
          rw none_left at
            ((In-filter q (λ p. not (env.send p)) (pending_on json d)).1 (was, rw unsent)),
      λ e.
          flush_on_remaining
          ∙ ap length (
              nil_of_not_In _ λ q m.
                let (was, kept) = (In-filter q (λ p. not (env.send p)) (pending_on json d)).0 m in
                rw e at ((flush_on_exact q).1 (was, ground (arith, kept)))),
    )
