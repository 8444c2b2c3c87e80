-- ===== src/Runner/Rested.antt =====
-- How execute leaves the agent (sdk.go: execute, endActivity, endJob).
use binfinity_addon_sdk.Prelude.{
  Bool, List, Option, Str, [], arith, false, none, refl, some, true, ◌∷◌, ◌≡◌,
}
use binfinity_addon_sdk.Wire.{Command, Result, activity_idle}
use binfinity_addon_sdk.Outbox.{Json, PendingReport, enqueue}
use binfinity_addon_sdk.Runner.{
  Runner, end_activity, end_job, heartbeat_replies, heartbeat_reply, no_job, start_job,
}
use binfinity_addon_sdk.Runner.Token.{GrantReply, cache_token, fetch_token, replied, unreachable}
use binfinity_addon_sdk.Runner.Plane.{token_keeps}
use binfinity_addon_sdk.Runner.Delivery.{Post, report, send_built, send_report, settle}
use binfinity_addon_sdk.Runner.Backup.{Connector}
use binfinity_addon_sdk.Runner.Execute.{Env, execute, run_command}

-- The agent shows the idle activity and no progress.
abbrev pub IsRested : Runner → Type 0
IsRested r =
    (r.activity ≡ activity_idle) × (r.started_at ≡ none) × (r.bytes_done ≡ 0) × (r.bytes_total ≡ 0)

pub heartbeat_reply-IsRested :
    (reply : Option Bool) (r : Runner) → IsRested r → IsRested (heartbeat_reply reply r)
unfolding heartbeat_reply
heartbeat_reply-IsRested none r h = h
heartbeat_reply-IsRested (some false) r h = h
heartbeat_reply-IsRested (some true) r h = ground arith

heartbeat_replies-IsRested :
    (replies : List (Option Bool)) (r : Runner)
    → IsRested r
    → IsRested (heartbeat_replies replies r)
unfolding heartbeat_replies
heartbeat_replies-IsRested [] r h = h
heartbeat_replies-IsRested (reply ∷ replies) r h =
    heartbeat_replies-IsRested replies (heartbeat_reply reply r)
      (heartbeat_reply-IsRested reply r h)

pub fetch_token-IsRested :
    (reply : GrantReply) (r : Runner) → IsRested r → IsRested (fetch_token reply r).0
unfolding fetch_token
fetch_token-IsRested unreachable r h = h
fetch_token-IsRested (replied status none) r h = h
fetch_token-IsRested (replied status (some g)) r h = ground arith

pub settle-IsRested :
    (id : Str) (acked : Bool) (r : Runner) → IsRested r → IsRested (settle id acked r)
unfolding settle
settle-IsRested id true r h = h
settle-IsRested id false r h = h

send_built-IsRested :
    (failed : Option Str) (post : Post) (p : PendingReport) (r : Runner)
    → IsRested r
    → IsRested (send_built failed post p r).0
unfolding send_built
send_built-IsRested (some e) post p r h = h
send_built-IsRested none post p r h =
    token_keeps IsRested fetch_token-IsRested (λ t tok ttl s k. unfold cache_token in k)
      post.attempts post.now r h

report-IsRested :
    (json : Json) (post : Post) (id : Str) (res : Result) (r : Runner)
    → IsRested r
    → IsRested (report json post id res r).0
unfolding report send_report
report-IsRested json post id res r h =
    let p : PendingReport = record { cmd_id = id; result = res } in
    let start : Runner = record r { out = (enqueue json r.out id res).0 } in
    settle-IsRested id (report json post id res r).1 (send_built post.unbuilt post p start).0
      (send_built-IsRested post.unbuilt post p start h)

-- After execute no job is registered, and the agent shows the idle activity with no start time, no
-- bytes done and no total, whatever the connector, the data plane, the heartbeat replies and the
-- post of the result do.
pub execute-IsRested :
    (env : Env) (conn : Connector) (cmd : Command) (r : Runner)
    → ((execute env conn cmd r).0.job ≡ no_job) × IsRested (execute env conn cmd r).0
unfolding execute end_job end_activity
execute-IsRested env conn cmd r =
    let worked = (run_command env conn cmd (heartbeat_replies env.early (start_job r))).0 in
    let ended = end_activity (heartbeat_replies env.during worked) in
    let tested = heartbeat_replies env.late ended in
    (
      refl,
      report-IsRested env.json env.post cmd.id (execute env conn cmd r).1 tested
          (heartbeat_replies-IsRested env.late ended (refl, refl, refl, refl)),
    )
