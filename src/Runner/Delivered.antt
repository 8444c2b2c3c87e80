-- ===== src/Runner/Delivered.antt =====
-- What becomes of a reported result (sdk.go: report, execute, reportLoop).
use binfinity_addon_sdk.Prelude.{
  Bool, Bool-cases, In, Option, Str, ap, arith, false, if◌then◌else◌, inl, inr, is_empty, none,
  refl, some, true, ℕ, ◌+◌, ◌/◌, ◌<◌, ◌↔◌, ◌∙◌, ◌≡◌, ◌≢◌, ◌≤◌,
}
use binfinity_addon_sdk.Wire.{Result}
use binfinity_addon_sdk.Disk.{Disk, Faults}
use binfinity_addon_sdk.Outbox.{
  Json, PendingReport, Sender, ack, ack_on, enqueue, enqueue_on, file_name, flush, pending,
}
use binfinity_addon_sdk.Runner.{Runner}
use binfinity_addon_sdk.Runner.Token.{
  Attempts, GrantReply, cache_token, fetch_token, replied, token, unreachable,
}
use binfinity_addon_sdk.Runner.Plane.{token_keeps}
use binfinity_addon_sdk.Runner.Delivery.{
  Post, is_success, report, report_max, report_round, send_built, send_report, settle,
}
use binfinity_addon_sdk.Outbox.View.{ReadsOk}
use binfinity_addon_sdk.Outbox.Durable.{
  ReadsOk-faults, RoundTrips, enqueue_on-faults, enqueue_on-pending_on,
}
use binfinity_addon_sdk.Outbox.Owned.{IsOwned, ack_on_gone, enqueue_on-IsOwned}
use binfinity_addon_sdk.Backoff.Bounds.{IsDuration, backoff_jittered, capped, le-mul-pow}

-- Refreshing the token leaves the outbox alone.
fetch_token-out :
    (out : Option Disk) (reply : GrantReply) (r : Runner)
    → r.out ≡ out
    → (fetch_token reply r).0.out ≡ out
unfolding fetch_token
fetch_token-out out unreachable r h = h
fetch_token-out out (replied status none) r h = h
fetch_token-out out (replied status (some g)) r h = ground arith

pub token-out : (env : Attempts) (now : ℕ) (r : Runner) → (token env now r).0.out ≡ r.out
token-out env now r =
    token_keeps (λ s. s.out ≡ r.out) (fetch_token-out r.out)
      (λ t tok ttl s k. unfold cache_token in k) env now r refl

out-settle :
    (id : Str) (acked : Bool) (r : Runner)
    → (settle id acked r).out ≡ (if acked then ack r.out id else r.out)
unfolding settle
out-settle id true r = refl
out-settle id false r = refl

send_built-out :
    (failed : Option Str) (post : Post) (p : PendingReport) (r : Runner)
    → (send_built failed post p r).0.out ≡ r.out
unfolding send_built
send_built-out (some e) post p r = refl
send_built-out none post p r = token-out post.attempts post.now r

-- The status that answers the post: none if the request cannot be built or is not answered.
abbrev pub answer_to : Option Str → Post → PendingReport → Runner → Option ℕ
answer_to (some e) post p r = none
answer_to none post p r = post.status (token post.attempts post.now r).1 p

-- The platform acknowledged the post.
abbrev pub IsAcked : Option ℕ → Type 0
IsAcked none = ⊥
IsAcked (some code) = (200 ≤ code) × (code < 300)

is_success-IsAcked : (o : Option ℕ) → (is_success o ≡ true) ↔ IsAcked o
is_success-IsAcked none = (λ h. cc, λ h. absurd h)
is_success-IsAcked (some code) = (λ h. ground arith, λ h. ground arith)

send_built-IsAcked :
    (failed : Option Str) (post : Post) (p : PendingReport) (r : Runner)
    → ((send_built failed post p r).1 ≡ true) ↔ IsAcked (answer_to failed post p r)
unfolding send_built
send_built-IsAcked (some e) post p r = (λ h. cc, λ h. absurd h)
send_built-IsAcked none post p r =
    is_success-IsAcked (post.status (token post.attempts post.now r).1 p)

module _ (json : Json) (post : Post) (id : Str) (res : Result) (r : Runner) where
  -- The agent that report's send starts from.
  abbrev pub recorded_in : Runner
  recorded_in = record r { out = (enqueue json r.out id res).0 }

  -- The status that answers report's send.
  abbrev pub answer : Option ℕ
  answer = answer_to post.unbuilt post (record { cmd_id = id; result = res }) recorded_in

  report-IsAcked : ((report json post id res r).1 ≡ true) ↔ IsAcked answer
  unfolding report send_report
  report-IsAcked =
      send_built-IsAcked post.unbuilt post (record { cmd_id = id; result = res }) recorded_in

  report_unacked : ¬ IsAcked answer → (report json post id res r).1 ≡ false
  report_unacked n = elim (Bool-cases (report json post id res r).1) [
    | inl e ↦ absurd (n (report-IsAcked.0 e))
    | inr e ↦ e
  ]

  out-report : (report json post id res r).0.out ≡ (
      if (report json post id res r).1
      then ack (enqueue json r.out id res).0 id
      else (enqueue json r.out id res).0)
  unfolding report send_report
  out-report =
      let p : PendingReport = record { cmd_id = id; result = res } in
      let acked = (report json post id res r).1 in
      out-settle id acked (send_built post.unbuilt post p recorded_in).0
      ∙ ap (λ (o : Option Disk). if acked then ack o id else o)
          (send_built-out post.unbuilt post p recorded_in)

  module _ (d : Disk) (h : r.out ≡ some d) where
    abbrev recorded : Disk
    recorded = (enqueue_on json id res d).0

    out-report_unacked :
        (report json post id res r).1 ≡ false → (report json post id res r).0.out ≡ some recorded
    unfolding enqueue
    out-report_unacked no_ack =
        out-report
        ∙ ap
            (λ b. if b then ack (enqueue json r.out id res).0 id else (enqueue json r.out id res).0)
            no_ack
        ∙ ap (λ o. (enqueue json o id res).0) h

    out-report_acked :
        (report json post id res r).1 ≡ true
        → (report json post id res r).0.out ≡ some (ack_on id recorded)
    unfolding enqueue ack
    out-report_acked acked =
        out-report
        ∙ ap
            (λ b. if b then ack (enqueue json r.out id res).0 id else (enqueue json r.out id res).0)
            acked
        ∙ ap (λ o. ack (enqueue json o id res).0 id) h

-- For an id that is not empty, a result that survives its encoding, and an outbox whose directory
-- reads without errors and whose report files are owned by their reports: if report's request
-- cannot be built, or is not answered, or is answered with a status outside 200 to 299, and
-- enqueue returned no error, the result is pending after report; and if it is answered with a
-- status from 200 to 299, and the result's file can be removed, no result whose file has that name
-- is pending any more.
pub report_delivers :
    (json : Json) (post : Post) (id : Str) (res : Result) (r : Runner) (d : Disk)
    → r.out ≡ some d
    → is_empty id ≡ false
    → RoundTrips json (record { cmd_id = id; result = res })
    → ReadsOk d
    → IsOwned json d
    → (¬ IsAcked (answer json post id res r)
        → (enqueue_on json id res d).1 ≡ true
        → In
            (record { cmd_id = id; result = res })
            (pending json (report json post id res r).0.out))
      × (IsAcked (answer json post id res r)
          → d.faults.remove_fails (file_name id) ≡ false
          → (q : PendingReport) → In q (pending json (report json post id res r).0.out)
          → file_name q.cmd_id ≢ file_name id)
unfolding pending
report_delivers json post id res r d h e trips readable own = (
  λ no_ack done.
      rw (out-report_unacked json post id res r d h (report_unacked json post id res r no_ack))
        (enqueue_on-pending_on json id res d e trips readable done),
  λ acked removes q m.
      ack_on_gone json id (enqueue_on json id res d).0
        (ReadsOk-faults (enqueue_on-faults json id res d) readable)
        (enqueue_on-IsOwned json id res d e trips own)
        (ap (λ (f : Faults). f.remove_fails (file_name id)) (enqueue_on-faults json id res d)
          ∙ removes)
        q
        (rw (out-report_acked json post id res r d h ((report-IsAcked json post id res r).1 acked))
          at m),
)

le-report_max :
    (base : ℕ) → IsDuration base → (base ≤ report_max base) × IsDuration (report_max base)
le-report_max base h = (ground arith, ground arith)

le-capped : (attempt base max : ℕ) → base ≤ max → base ≤ capped attempt base max
le-capped attempt base max h = omega (arith, le-mul-pow base attempt)

capped_first : (n base max : ℕ) → n ≡ 0 → capped n base max ≤ base
capped_first n base max e = rw e (omega arith)

-- For a base delay of at most 2 ^ 62 ns, a round of reportLoop waits at least the base delay, at
-- most five quarters of the loop's cap, and at most five quarters of the base if flush returned 0.
pub report_round_wait :
    (json : Json) (env : Sender) (attempt : ℕ) (r : Runner)
    → IsDuration r.cfg.report_base
    → (r.cfg.report_base ≤ (report_round json env attempt r).2)
      × ((report_round json env attempt r).2
          ≤ report_max r.cfg.report_base + report_max r.cfg.report_base / 4)
      × ((flush json env r.out).1 ≡ 0
          → (report_round json env attempt r).2 ≤ r.cfg.report_base + r.cfg.report_base / 4)
unfolding report_round
report_round_wait json env attempt r h =
    let base = r.cfg.report_base in
    let (le, fits) = le-report_max base h in
    let next = (report_round json env attempt r).1 in
    let bounds = backoff_jittered next base (report_max base) r.seed h fits in
    (
      omega (arith, bounds.0, le-capped next base (report_max base) le),
      omega (arith, bounds.1),
      λ idle. omega (arith, bounds.1, capped_first next base (report_max base) (rw idle refl)),
    )
