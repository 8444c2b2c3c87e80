-- ===== src/Agent/Spared.antt =====
-- A report on disk while the agent runs (sdk.go: report, reportLoop).
use binfinity_addon_sdk.Prelude.{
  Bool, In, Option, Str, ap, arith, false, if◌then◌else◌, is_empty, none, not, refl, some, str_eq,
  subst, sym, true, ◌&&◌, ◌∙◌, ◌≡◌,
}
use binfinity_addon_sdk.Wire.{Result}
use binfinity_addon_sdk.Disk.{Disk, lookup}
use binfinity_addon_sdk.Outbox.{
  Json, PendingReport, Sender, ack, ack_on, enqueue, enqueue_on, file_name, flush, flush_on,
  parse_node, pending,
}
use binfinity_addon_sdk.Outbox.View.{HoldsAt, In-pending_on, ReadsOk}
use binfinity_addon_sdk.Outbox.Durable.{
  ReadsOk-faults, RoundTrips, enqueue_on-faults, enqueue_on_exact,
}
use binfinity_addon_sdk.Outbox.Owned.{
  IsOwned, ack_on-IsOwned, enqueue_on-IsOwned, faults-ack_on, lookup-ack_on,
}
use binfinity_addon_sdk.Outbox.Flush.{flush_on-IsOwned, flush_on-ReadsOk, flush_on_keeps}
use binfinity_addon_sdk.Agent.{
  Agent, Runs, Step, beat, drain, finish, here, next, refresh, resolve, rest, save, send, stop,
  take, work,
}
use binfinity_addon_sdk.Runner.{
  Job, Runner, cancel_job, end_activity, end_job, heartbeat_reply, no_job, request_cancel, running,
  start_job,
}
use binfinity_addon_sdk.Runner.Backup.{Connector}
use binfinity_addon_sdk.Runner.Frame.{run_command-SameFrame}
use binfinity_addon_sdk.Runner.Delivery.{report_round, settle}
use binfinity_addon_sdk.Runner.Delivered.{token-out}

-- The step neither sends the report with success nor writes or removes its file, and a result that
-- it saves has an id and survives its encoding.
abbrev pub Spares :
    {json : Json} {conn : Connector} {a b : Agent}
    → Str
    → PendingReport
    → Step json conn a b
    → Type 0
Spares n q (stop c p r) = Unit
Spares n q (beat reply p r) = Unit
Spares n q (refresh env now p r) = Unit
Spares n q (drain env attempt p r) = env.send q ≡ false
Spares n q (take cmd r) = Unit
Spares n q (work env cmd r) = Unit
Spares n q (rest cmd res r) = Unit
Spares n q (resolve cmd res r) = Unit
Spares {json = json} n q (save cmd res r) =
    (is_empty cmd.id ≡ false)
    × RoundTrips json (record { cmd_id = cmd.id; result = res })
    × (str_eq (file_name cmd.id) n ≡ false)
Spares n q (send acked cmd res r) = acked ≡ true → str_eq (file_name cmd.id) n ≡ false
Spares n q (finish r) = Unit

abbrev pub SparesAll :
    {json : Json} {conn : Connector} {a b : Agent}
    → Str
    → PendingReport
    → Runs json conn a b
    → Type 0
SparesAll n q here = Unit
SparesAll n q (next k s) = SparesAll n q k × Spares n q s

-- The outbox is a directory in order, which holds the report in this file.
pub record Stands (json : Json) (n : Str) (q : PendingReport) (out : Option Disk) : Type 0 where
  pub dir : Disk
  pub there : out ≡ some dir
  pub readable : ReadsOk dir
  pub owned : IsOwned json dir
  pub held : HoldsAt json dir n q

unless_other :
    {A : Type 0} (b t : Bool) (x y z : A) → t ≡ false → y ≡ z → (if b && t then x else y) ≡ z
unless_other b t x y z h k = ground arith

module _ (json : Json) (n : Str) (q : PendingReport) where
  held-enqueue :
      (id : Str) (res : Result) (d : Disk)
      → is_empty id ≡ false
      → RoundTrips json (record { cmd_id = id; result = res })
      → str_eq (file_name id) n ≡ false
      → HoldsAt json d n q
      → parse_node json (lookup n (enqueue_on json id res d).0.entries) ≡ some q
  held-enqueue id res d named trips other h =
      enqueue_on_exact json id res d named trips n h.0
      ∙ unless_other (enqueue_on json id res d).1 (str_eq (file_name id) n)
          (some (record { cmd_id = id; result = res })) (parse_node json (lookup n d.entries))
          (some q) other h.1

  held-ack :
      (id : Str) (d : Disk)
      → str_eq (file_name id) n ≡ false
      → HoldsAt json d n q
      → parse_node json (lookup n (ack_on id d).entries) ≡ some q
  held-ack id d other h =
      ap (parse_node json) (
        lookup-ack_on id n d
        ∙ unless_other (not (d.faults.remove_fails (file_name id))) (str_eq (file_name id) n) none
            (lookup n d.entries) (lookup n d.entries) other refl)
      ∙ h.1

  Stands-flush :
      (env : Sender) (o : Option Disk)
      → env.send q ≡ false
      → Stands json n q o
      → Stands json n q (flush json env o).0
  unfolding flush
  Stands-flush env o unsent h = record {
    dir = (flush_on json env h.dir).0;
    there = ap (λ o. (flush json env o).0) h.there;
    readable = flush_on-ReadsOk json env h.dir h.readable h.owned;
    owned = flush_on-IsOwned json env h.dir h.readable h.owned;
    held = flush_on_keeps json env h.dir h.readable h.owned n q h.held unsent;
  }

  Stands-enqueue :
      (id : Str) (res : Result) (o : Option Disk)
      → is_empty id ≡ false
      → RoundTrips json (record { cmd_id = id; result = res })
      → str_eq (file_name id) n ≡ false
      → Stands json n q o
      → Stands json n q (enqueue json o id res).0
  unfolding enqueue
  Stands-enqueue id res o named trips other h = record {
    dir = (enqueue_on json id res h.dir).0;
    there = ap (λ o. (enqueue json o id res).0) h.there;
    readable = ReadsOk-faults (enqueue_on-faults json id res h.dir) h.readable;
    owned = enqueue_on-IsOwned json id res h.dir named trips h.owned;
    held = (h.held.0, held-enqueue id res h.dir named trips other h.held);
  }

  Stands-ack :
      (id : Str) (o : Option Disk)
      → str_eq (file_name id) n ≡ false
      → Stands json n q o
      → Stands json n q (ack o id)
  unfolding ack
  Stands-ack id o other h = record {
    dir = ack_on id h.dir;
    there = ap (λ o. ack o id) h.there;
    readable = ReadsOk-faults (faults-ack_on id h.dir) h.readable;
    owned = ack_on-IsOwned json id h.dir h.owned;
    held = (h.held.0, held-ack id h.dir other h.held);
  }

  Stands-settle :
      (id : Str) (acked : Bool) (r : Runner)
      → (acked ≡ true → str_eq (file_name id) n ≡ false)
      → Stands json n q r.out
      → Stands json n q (settle id acked r).out
  unfolding settle
  Stands-settle id true r other h = Stands-ack id r.out (other refl) h
  Stands-settle id false r other h = h

  Stands-cancel :
      (j : Job) (r : Runner) → Stands json n q r.out → Stands json n q (cancel_job j r).out
  unfolding cancel_job
  Stands-cancel no_job r h = h
  Stands-cancel (running done) r h = h

  Stands-beat :
      (reply : Option Bool) (r : Runner)
      → Stands json n q r.out
      → Stands json n q (heartbeat_reply reply r).out
  unfolding heartbeat_reply request_cancel
  Stands-beat none r h = h
  Stands-beat (some false) r h = h
  Stands-beat (some true) r h = Stands-cancel r.job r h

  Stands-step :
      (conn : Connector) {a b : Agent} (s : Step json conn a b)
      → Spares n q s
      → Stands json n q a.runner.out
      → Stands json n q b.runner.out
  unfolding report_round start_job end_job end_activity
  Stands-step conn (stop c p r) k h = h
  Stands-step conn (beat reply p r) k h = Stands-beat reply r h
  Stands-step conn (refresh env now p r) k h = subst (Stands json n q) (sym (token-out env now r)) h
  Stands-step conn (drain env attempt p r) k h = Stands-flush env r.out k h
  Stands-step conn (take cmd r) k h = h
  Stands-step conn (work env cmd r) k h =
      subst (Stands json n q) (sym (run_command-SameFrame env conn cmd r).out) h
  Stands-step conn (rest cmd res r) k h = h
  Stands-step conn (resolve cmd res r) k h = h
  Stands-step conn (save cmd res r) k h = Stands-enqueue cmd.id res r.out k.0 k.1 k.2 h
  Stands-step conn (send acked cmd res r) k h = Stands-settle cmd.id acked r k h
  Stands-step conn (finish r) k h = h

  Stands-runs :
      (conn : Connector) {a b : Agent} (run : Runs json conn a b)
      → SparesAll n q run
      → Stands json n q a.runner.out
      → Stands json n q b.runner.out
  Stands-runs conn here k h = h
  Stands-runs conn (next run s) k h = Stands-step conn s k.1 (Stands-runs conn run k.0 h)

  -- Take any run of the agent's steps, commands, heartbeats, token refreshes and report rounds in
  -- any order, from a state whose outbox reads without errors, has report files owned by their
  -- reports, and holds a report in one of them. If no report round delivers that report, no result
  -- is saved to or acknowledged in its file, and each saved result has an id that is not empty and
  -- survives its encoding, the report is pending at the run's end.
  pub pending-spared :
      (conn : Connector) {a b : Agent} (run : Runs json conn a b)
      → SparesAll n q run
      → Stands json n q a.runner.out
      → In q (pending json b.runner.out)
  unfolding pending
  pending-spared conn run k h =
      let after = Stands-runs conn run k h in
      subst (λ o. In q (pending json o)) (sym after.there)
        ((In-pending_on json q after.dir after.readable).1 (n, after.held))
