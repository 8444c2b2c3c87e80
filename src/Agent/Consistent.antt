-- ===== src/Agent/Consistent.antt =====
-- What holds of the agent at every step (sdk.go).
use binfinity_addon_sdk.Prelude.{Bool, Str, ap, arith, refl, sym, ◌∙◌, ◌≡◌}
use binfinity_addon_sdk.Runner.{
  Config, Runner, end_activity, end_job, heartbeat_reply, no_job, running, start_job,
}
use binfinity_addon_sdk.Runner.Token.{cache_token, token}
use binfinity_addon_sdk.Runner.Delivery.{report_round, settle}
use binfinity_addon_sdk.Runner.Rested.{
  IsRested, fetch_token-IsRested, heartbeat_reply-IsRested, settle-IsRested,
}
use binfinity_addon_sdk.Runner.Plane.{
  IsResolved, cache_token-IsResolved, fetch_token-IsResolved, new_runner-IsResolved,
  start_run-IsResolved, token_keeps,
}
use binfinity_addon_sdk.Agent.{
  Agent, Runs, Step, beat, drain, finish, here, launched, next, refresh, resolve, rest, save, saved,
  send, stop, take, work,
}
use binfinity_addon_sdk.Runner.Frame.{run_command-SameFrame}
use binfinity_addon_sdk.Wire.{Credentials}
use binfinity_addon_sdk.Outcome.{ok}
use binfinity_addon_sdk.Disk.{Disk}
use binfinity_addon_sdk.Runner.Backup.{Connector}
use binfinity_addon_sdk.Runner.Execute.{run_command}
use binfinity_addon_sdk.Runner.Setup.{new_runner, start_run}
use binfinity_addon_sdk.Outbox.{Json, enqueue}
use binfinity_addon_sdk.Agent.Kept.{
  HasContext, HasJob, HasJob-HasContext, IsConsistent, SameFrame-IsResolved, SamePlane-IsResolved,
  ShowsWork-keeps, fetch_token-HasJob, heartbeat_reply-HasJob, heartbeat_reply-IsResolved,
  settle-HasJob, settle-SamePlane,
}

-- A step keeps what holds of the phase that the agent stands in.
abbrev Consistent : Agent → Type 0
Consistent a = IsConsistent a.phase a.runner

pub Step-Consistent :
    (json : Json) (conn : Connector) {a b : Agent}
    → Step json conn a b
    → Consistent a
    → Consistent b
unfolding report_round start_job end_job end_activity
Step-Consistent json conn (stop c p r) h = h
Step-Consistent json conn (beat reply p r) h = record {
  plane = heartbeat_reply-IsResolved reply r h.plane;
  job = heartbeat_reply-HasJob p reply r h.job;
  activity =
      ShowsWork-keeps p r (heartbeat_reply reply r) (heartbeat_reply-IsRested reply r) h.activity;
}
Step-Consistent json conn (refresh env now p r) h = record {
  plane = token_keeps IsResolved fetch_token-IsResolved cache_token-IsResolved env now r h.plane;
  job =
      token_keeps (HasJob p) (fetch_token-HasJob p) (λ t tok ttl s k. unfold cache_token in k) env
        now r h.job;
  activity =
      ShowsWork-keeps p r (token env now r).0
        (λ k.
          token_keeps IsRested fetch_token-IsRested (λ t tok ttl s q. unfold cache_token in q) env
            now r k)
        h.activity;
}
Step-Consistent json conn (drain env attempt p r) h = record {
  plane =
      SamePlane-IsResolved r (report_round json env attempt r).0 (refl, refl, refl, refl, refl)
        h.plane;
  job = h.job;
  activity = ShowsWork-keeps p r (report_round json env attempt r).0 (λ k. k) h.activity;
}
Step-Consistent json conn (take cmd r) h = record {
  plane = SamePlane-IsResolved r (start_job r) (refl, refl, refl, refl, refl) h.plane;
  job = refl;
  activity = h.activity;
}
Step-Consistent json conn (work env cmd r) h = record {
  plane =
      SameFrame-IsResolved r (run_command env conn cmd r).0 (run_command-SameFrame env conn cmd r)
        h.plane;
  job = let f = run_command-SameFrame env conn cmd r in f.job ∙ h.job ∙ ap running (sym f.asked);
  activity = tt;
}
Step-Consistent json conn (rest cmd res r) h = record {
  plane = SamePlane-IsResolved r (end_activity r) (refl, refl, refl, refl, refl) h.plane;
  job = h.job;
  activity = (refl, refl, refl, refl);
}
Step-Consistent json conn (resolve cmd res r) h = record {
  plane = h.plane;
  job = h.job;
  activity = h.activity;
}
Step-Consistent json conn (save cmd res r) h = record {
  plane =
      SamePlane-IsResolved r (record r { out = (enqueue json r.out cmd.id res).0 })
        (refl, refl, refl, refl, refl) h.plane;
  job = h.job;
  activity = h.activity;
}
Step-Consistent json conn (send acked cmd res r) h = record {
  plane = SamePlane-IsResolved r (settle cmd.id acked r) (settle-SamePlane cmd.id acked r) h.plane;
  job = settle-HasJob (saved cmd res) cmd.id acked r h.job;
  activity = settle-IsRested cmd.id acked r h.activity;
}
Step-Consistent json conn (finish r) h = record {
  plane = SamePlane-IsResolved r (end_job r) (refl, refl, refl, refl, refl) h.plane;
  job = refl;
  activity = h.activity;
}

pub Runs-Consistent :
    (json : Json) (conn : Connector) {a b : Agent}
    → Runs json conn a b
    → Consistent a
    → Consistent b
Runs-Consistent json conn here h = h
Runs-Consistent json conn (next k s) h = Step-Consistent json conn s (Runs-Consistent json conn k h)

new_runner-IsRested :
    (is_nil : Bool) (outbox_dir : Str → Str) (d : Disk) (cfg : Config) {r : Runner}
    → new_runner is_nil outbox_dir d cfg ≡ ok r
    → (r.job ≡ no_job) × IsRested r
unfolding new_runner
new_runner-IsRested is_nil outbox_dir d cfg h = ground arith

start_run-IsRested :
    (creds : Credentials) (r : Runner)
    → (r.job ≡ no_job) × IsRested r
    → ((start_run creds r).job ≡ no_job) × IsRested (start_run creds r)
unfolding start_run
start_run-IsRested creds r h = ground arith

-- In every state that an agent that newRunner builds reaches after Run's start, with its
-- heartbeats, token refreshes, report rounds and the end of its context between the steps of its
-- commands in any order: no job is registered while the agent polls, and during a command one is,
-- whose cancel function was called exactly if a cancel was asked for, and whose context is done
-- exactly if one was asked for or the agent's own context is done; outside the work itself the
-- agent shows the idle activity and no progress; a store or data-plane token that the
-- configuration sets is the one resolved; and, unless the caller injected a data plane, the data
-- plane is the default one over the resolved store and token.
pub reachable-IsConsistent :
    (is_nil : Bool) (outbox_dir : Str → Str) (d : Disk) (cfg : Config) (r : Runner)
    → new_runner is_nil outbox_dir d cfg ≡ ok r
    → (creds : Credentials) (json : Json) (conn : Connector) (a : Agent)
    → Runs json conn (launched creds r) a
    → IsConsistent a.phase a.runner × HasContext a.stopped a.phase a.runner
reachable-IsConsistent is_nil outbox_dir d cfg r made creds json conn a runs =
    let (idle, calm) =
      start_run-IsRested creds r (new_runner-IsRested is_nil outbox_dir d cfg made) in
    let h : IsConsistent a.phase a.runner = Runs-Consistent json conn runs (record {
      plane = start_run-IsResolved creds r (new_runner-IsResolved is_nil outbox_dir d cfg made);
      job = idle;
      activity = calm;
    }) in
    (h, HasJob-HasContext a.stopped a.phase a.runner h.job)
