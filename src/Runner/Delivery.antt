-- ===== src/Runner/Delivery.antt =====
-- sdk.go: report, sendReport and the rounds of reportLoop.
use binfinity_addon_sdk.Prelude.{
  Bool, Option, Str, false, if◌then◌else◌, leb, ltb, none, slt, some, true, ℕ, ◌&&◌, ◌*◌, ◌+◌, ◌==◌,
}
use binfinity_addon_sdk.Backoff.{backoff}
use binfinity_addon_sdk.Wire.{Result}
use binfinity_addon_sdk.Outbox.{Json, PendingReport, Sender, ack, enqueue, flush}
use binfinity_addon_sdk.Runner.{Runner}
use binfinity_addon_sdk.Runner.Setup.{second}
use binfinity_addon_sdk.Runner.Token.{Attempts, token}

-- What a post meets: the error of building its request, if there is one; the time and the token
-- endpoint's replies; and then the status of the answer to the request with this token, `none` for
-- an error.
pub record Post : Type 0 where
  pub unbuilt : Option Str
  pub now : ℕ
  pub attempts : Attempts
  pub status : Str → PendingReport → Option ℕ

abbrev pub is_success : Option ℕ → Bool
is_success none = false
is_success (some code) = leb 200 code && ltb code 300

unfoldable pub send_built : Option Str → Post → PendingReport → Runner → Runner × Bool
send_built (some e) post p r = (r, false)
send_built none post p r =
    let (r', tok) = token post.attempts post.now r in (r', is_success (post.status tok p))

unfoldable pub send_report : Post → PendingReport → Runner → Runner × Bool
unfolding send_built
send_report post p r = send_built post.unbuilt post p r

-- report, after its send
unfoldable pub settle : Str → Bool → Runner → Runner
settle id true r = record r { out = ack r.out id }
settle id false r = r

unfoldable pub report : Json → Post → Str → Result → Runner → Runner × Bool
unfolding send_report settle
report json post id res r =
    let (out, _) = enqueue json r.out id res in
    let (r', acked) =
      send_report post (record { cmd_id = id; result = res }) (record r { out = out }) in
    (settle id acked r', acked)

abbrev pub minute : ℕ
minute = 60 * second

-- max, as reportLoop raises it to the base
abbrev pub report_max : ℕ → ℕ
report_max base = if slt (2 * minute) base then base else 2 * minute

-- One round of reportLoop: the runner, the next attempt and how long the loop then waits.
unfoldable pub report_round : Json → Sender → ℕ → Runner → Runner × ℕ × ℕ
report_round json env attempt r =
    let (out, remaining) = flush json env r.out in
    let next = if remaining == 0 then 0 else attempt + 1 in
    (
      record r { out = out },
      next,
      backoff next r.cfg.report_base (report_max r.cfg.report_base) r.seed,
    )
