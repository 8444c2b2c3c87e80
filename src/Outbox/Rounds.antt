-- ===== src/Outbox/Rounds.antt =====
-- The loop of outbox.go's flush, report by report.
use binfinity_addon_sdk.Prelude.{
  All, In, List, Str, [], arith, false, filter, if◌then◌else◌, inl, inr, length, none, not, refl,
  str_eq, str_eq_refl, true, ℕ, ◌+◌, ◌∷◌, ◌≡◌, ◌⊎◌,
}
use binfinity_addon_sdk.Disk.{Disk, lookup}
use binfinity_addon_sdk.Outbox.{PendingReport, Sender, ack_on, file_name, flush_all}
use binfinity_addon_sdk.Outbox.Owned.{faults-ack_on, lookup-ack_on}

module _ (env : Sender) where
  -- The disk after the round of `p`, where ctx is not done.
  abbrev pub after_send : PendingReport → Disk → Disk
  after_send p d = if env.send p then ack_on p.cmd_id d else d

  -- No report of the list that is sent has its file at this name.
  abbrev pub Spares : Str → List PendingReport → Type 0
  Spares j = All (λ p. env.send p ≡ true → str_eq (file_name p.cmd_id) j ≡ false)

  abbrev pub NoneDone : List PendingReport → Type 0
  NoneDone = All (λ p. env.ctx_done p ≡ false)

  pub faults-after_send : (p : PendingReport) (d : Disk) → (after_send p d).faults ≡ d.faults
  faults-after_send p d = ground (arith, faults-ack_on p.cmd_id d)

  pub faults-flush_all :
      (ps : List PendingReport) (r : ℕ) (d : Disk) → (flush_all env ps r d).0.faults ≡ d.faults
  unfolding flush_all
  faults-flush_all [] r d = refl
  faults-flush_all (p ∷ ps) r d = ground (
    arith,
    faults-ack_on p.cmd_id d,
    faults-flush_all ps (if env.send p then r else r + 1) (after_send p d),
  )

  pub flush_all-Spares :
      (j : Str) (ps : List PendingReport) (r : ℕ) (d : Disk)
      → Spares j ps
      → lookup j (flush_all env ps r d).0.entries ≡ lookup j d.entries
  unfolding flush_all
  flush_all-Spares j [] r d h = refl
  flush_all-Spares j (p ∷ ps) r d h = ground (
    arith,
    h.0,
    lookup-ack_on p.cmd_id j d,
    flush_all-Spares j ps (if env.send p then r else r + 1) (after_send p d) h.1,
  )

  -- What is gone stays gone.
  pub flush_all-none :
      (j : Str) (ps : List PendingReport) (r : ℕ) (d : Disk)
      → lookup j d.entries ≡ none
      → lookup j (flush_all env ps r d).0.entries ≡ none
  unfolding flush_all
  flush_all-none j [] r d h = h
  flush_all-none j (p ∷ ps) r d h = ground (
    arith,
    lookup-ack_on p.cmd_id j d,
    flush_all-none j ps (if env.send p then r else r + 1) (after_send p d),
  )

  pub flush_all-sent :
      (q : PendingReport) (ps : List PendingReport) (r : ℕ) (d : Disk)
      → NoneDone ps
      → ((n : Str) → d.faults.remove_fails n ≡ false)
      → In q ps
      → env.send q ≡ true
      → lookup (file_name q.cmd_id) (flush_all env ps r d).0.entries ≡ none
  unfolding flush_all
  flush_all-sent q [] r d live ok m s = absurd m
  flush_all-sent q (p ∷ ps) r d live ok (inl e) s = rw e (
      ground (
        arith,
        live.0,
        ok (file_name p.cmd_id),
        rw e at s,
        str_eq_refl (file_name p.cmd_id),
        lookup-ack_on p.cmd_id (file_name p.cmd_id) d,
        flush_all-none (file_name p.cmd_id) ps r (ack_on p.cmd_id d),
      ))
  flush_all-sent q (p ∷ ps) r d live ok (inr m) s = ground (
    arith,
    live.0,
    flush_all-sent q ps (if env.send p then r else r + 1) (after_send p d) live.1
        (λ n. rw (faults-after_send p d) (ok n)) m s,
  )

  pub remaining-flush_all :
      (ps : List PendingReport) (r : ℕ) (d : Disk)
      → NoneDone ps
      → (flush_all env ps r d).1 ≡ r + length (filter (λ p. not (env.send p)) ps)
  unfolding flush_all
  remaining-flush_all [] r d live = omega arith
  remaining-flush_all (p ∷ ps) r d live = ground (
    arith,
    live.0,
    remaining-flush_all ps (if env.send p then r else r + 1) (after_send p d) live.1,
  )

  pub flush_all-sub :
      (j : Str) (ps : List PendingReport) (r : ℕ) (d : Disk)
      → (lookup j (flush_all env ps r d).0.entries ≡ none)
        ⊎ (lookup j (flush_all env ps r d).0.entries ≡ lookup j d.entries)
  unfolding flush_all
  flush_all-sub j [] r d = inr refl
  flush_all-sub j (p ∷ ps) r d = ground (
    arith,
    lookup-ack_on p.cmd_id j d,
    flush_all-sub j ps (if env.send p then r else r + 1) (after_send p d),
  )
