-- ===== src/Agent/Kept.antt =====
-- What each method of the agent keeps of its job, its rest and its data plane (sdk.go).
use binfinity_addon_sdk.Prelude.{
  Bool, Option, Str, ap, arith, false, is_empty, none, refl, some, sym, true, ◌||◌, ◌∙◌, ◌≡◌,
}
use binfinity_addon_sdk.Runner.{
  Config, Job, Runner, cancel_job, context_of, heartbeat_reply, no_job, request_cancel, running,
}
use binfinity_addon_sdk.Runner.Token.{GrantReply, fetch_token, replied, unreachable}
use binfinity_addon_sdk.Runner.Delivery.{settle}
use binfinity_addon_sdk.Runner.Rested.{IsRested}
use binfinity_addon_sdk.Runner.Plane.{IsResolved}
use binfinity_addon_sdk.Agent.{Phase, begun, polling, reported, resolved, rested, saved, worked}
use binfinity_addon_sdk.Runner.Frame.{SameFrame}

-- The job that is registered: none while polling, and then one whose cancel function was called
-- exactly if a cancel was asked for.
abbrev pub expected_job : Phase → Bool → Job
expected_job polling asked = no_job
expected_job (begun cmd) asked = running asked
expected_job (worked cmd res) asked = running asked
expected_job (rested cmd res) asked = running asked
expected_job (resolved cmd res) asked = running asked
expected_job (saved cmd res) asked = running asked
expected_job reported asked = running asked

abbrev pub HasJob : Phase → Runner → Type 0
HasJob p r = r.job ≡ expected_job p r.cancel_asked

-- There is a context during a command, and it is done exactly if a cancel was asked for or the
-- agent's ctx is done.
abbrev pub expected_context : Phase → Bool → Bool → Option Bool
expected_context polling asked stopped = none
expected_context (begun cmd) asked stopped = some (asked || stopped)
expected_context (worked cmd res) asked stopped = some (asked || stopped)
expected_context (rested cmd res) asked stopped = some (asked || stopped)
expected_context (resolved cmd res) asked stopped = some (asked || stopped)
expected_context (saved cmd res) asked stopped = some (asked || stopped)
expected_context reported asked stopped = some (asked || stopped)

abbrev pub HasContext : Bool → Phase → Runner → Type 0
HasContext stopped p r = context_of stopped r.job ≡ expected_context p r.cancel_asked stopped

pub HasJob-HasContext : (c : Bool) (p : Phase) (r : Runner) → HasJob p r → HasContext c p r
HasJob-HasContext c polling r h = ap (context_of c) h
HasJob-HasContext c (begun cmd) r h = ap (context_of c) h
HasJob-HasContext c (worked cmd res) r h = ap (context_of c) h
HasJob-HasContext c (rested cmd res) r h = ap (context_of c) h
HasJob-HasContext c (resolved cmd res) r h = ap (context_of c) h
HasJob-HasContext c (saved cmd res) r h = ap (context_of c) h
HasJob-HasContext c reported r h = ap (context_of c) h

-- Only between the work and endActivity may the agent show an activity.
abbrev pub ShowsWork : Phase → Runner → Type 0
ShowsWork (worked cmd res) r = Unit
ShowsWork polling r = IsRested r
ShowsWork (begun cmd) r = IsRested r
ShowsWork (rested cmd res) r = IsRested r
ShowsWork (resolved cmd res) r = IsRested r
ShowsWork (saved cmd res) r = IsRested r
ShowsWork reported r = IsRested r

pub record IsConsistent (p : Phase) (r : Runner) : Type 0 where
  pub plane : IsResolved r
  pub job : HasJob p r
  pub activity : ShowsWork p r

pub ShowsWork-keeps :
    (p : Phase) (r s : Runner) → (IsRested r → IsRested s) → ShowsWork p r → ShowsWork p s
ShowsWork-keeps polling r s h k = h k
ShowsWork-keeps (begun cmd) r s h k = h k
ShowsWork-keeps (worked cmd res) r s h k = tt
ShowsWork-keeps (rested cmd res) r s h k = h k
ShowsWork-keeps (resolved cmd res) r s h k = h k
ShowsWork-keeps (saved cmd res) r s h k = h k
ShowsWork-keeps reported r s h k = h k

idle_cancel : (j : Job) (r : Runner) → j ≡ no_job → cancel_job j r ≡ r
unfolding cancel_job
idle_cancel no_job r h = refl
idle_cancel (running done) r h = absurd (cc (h))

running_cancel :
    (j : Job) (asked : Bool) (r : Runner)
    → j ≡ running asked
    → (cancel_job j r).job ≡ running (cancel_job j r).cancel_asked
unfolding cancel_job
running_cancel no_job asked r h = absurd (cc (h))
running_cancel (running done) asked r h = refl

request_cancel-HasJob : (p : Phase) (r : Runner) → HasJob p r → HasJob p (request_cancel r)
unfolding request_cancel
request_cancel-HasJob polling r h = ap (λ (s : Runner). s.job) (idle_cancel r.job r h) ∙ h
request_cancel-HasJob (begun cmd) r h = running_cancel r.job r.cancel_asked r h
request_cancel-HasJob (worked cmd res) r h = running_cancel r.job r.cancel_asked r h
request_cancel-HasJob (rested cmd res) r h = running_cancel r.job r.cancel_asked r h
request_cancel-HasJob (resolved cmd res) r h = running_cancel r.job r.cancel_asked r h
request_cancel-HasJob (saved cmd res) r h = running_cancel r.job r.cancel_asked r h
request_cancel-HasJob reported r h = running_cancel r.job r.cancel_asked r h

pub heartbeat_reply-HasJob :
    (p : Phase) (reply : Option Bool) (r : Runner) → HasJob p r → HasJob p (heartbeat_reply reply r)
unfolding heartbeat_reply
heartbeat_reply-HasJob p none r h = h
heartbeat_reply-HasJob p (some false) r h = h
heartbeat_reply-HasJob p (some true) r h = request_cancel-HasJob p r h

pub fetch_token-HasJob :
    (p : Phase) (reply : GrantReply) (r : Runner) → HasJob p r → HasJob p (fetch_token reply r).0
unfolding fetch_token
fetch_token-HasJob p unreachable r h = h
fetch_token-HasJob p (replied status none) r h = h
fetch_token-HasJob p (replied status (some g)) r h = ground arith

pub settle-HasJob :
    (p : Phase) (id : Str) (acked : Bool) (r : Runner) → HasJob p r → HasJob p (settle id acked r)
unfolding settle
settle-HasJob p id true r h = h
settle-HasJob p id false r h = h

-- What IsResolved is about.
abbrev pub SamePlane : Runner → Runner → Type 0
SamePlane r s =
    (s.dp ≡ r.dp)
    × (s.cfg ≡ r.cfg)
    × (s.dp_store ≡ r.dp_store)
    × (s.dp_token ≡ r.dp_token)
    × (s.custom_dp ≡ r.custom_dp)

pub SamePlane-IsResolved : (r s : Runner) → SamePlane r s → IsResolved r → IsResolved s
SamePlane-IsResolved r s (plane, config, store, tok, injected) h = record {
  from_fields = λ e. let k = h.from_fields (sym injected ∙ e) in cc;
  env_store =
      λ e. let k = h.env_store (ap (λ (c : Config). is_empty c.store) (sym config) ∙ e) in cc;
  env_token =
      λ e. let k = h.env_token (ap (λ (c : Config). is_empty c.sms_token) (sym config) ∙ e) in cc;
}

pub SameFrame-IsResolved : (r s : Runner) → SameFrame r s → IsResolved r → IsResolved s
SameFrame-IsResolved r s f =
    SamePlane-IsResolved r s (f.dp, f.cfg, f.dp_store, f.dp_token, f.injected)

cancel_job-SamePlane : (j : Job) (r : Runner) → SamePlane r (cancel_job j r)
unfolding cancel_job
cancel_job-SamePlane no_job r = (refl, refl, refl, refl, refl)
cancel_job-SamePlane (running done) r = (refl, refl, refl, refl, refl)

pub heartbeat_reply-IsResolved :
    (reply : Option Bool) (r : Runner) → IsResolved r → IsResolved (heartbeat_reply reply r)
unfolding heartbeat_reply request_cancel
heartbeat_reply-IsResolved none r h = h
heartbeat_reply-IsResolved (some false) r h = h
heartbeat_reply-IsResolved (some true) r h =
    SamePlane-IsResolved r (request_cancel r) (cancel_job-SamePlane r.job r) h

pub settle-SamePlane : (id : Str) (acked : Bool) (r : Runner) → SamePlane r (settle id acked r)
unfolding settle
settle-SamePlane id true r = (refl, refl, refl, refl, refl)
settle-SamePlane id false r = (refl, refl, refl, refl, refl)
