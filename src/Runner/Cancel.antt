-- ===== src/Runner/Cancel.antt =====
-- An operator's cancel, which reaches a running job with a heartbeat's reply (sdk.go: execute,
-- requestCancel, wasCancelled).
use binfinity_addon_sdk.Prelude.{
  Bool, List, Option, [], arith, false, none, refl, some, true, ◌||◌, ◌∙◌, ◌∷◌, ◌≡◌,
}
use binfinity_addon_sdk.Runner.{
  Runner, heartbeat_replies, heartbeat_reply, no_job, request_cancel, running,
}

abbrev is_cancel : Option Bool → Bool
is_cancel none = false
is_cancel (some b) = b

-- One of the replies asks to cancel.
abbrev pub any_cancel : List (Option Bool) → Bool
any_cancel [] = false
any_cancel (reply ∷ replies) = is_cancel reply || any_cancel replies

-- A job is registered.
abbrev pub IsRunning : Runner → Type 0
IsRunning r = (done : Bool) × (r.job ≡ running done)

heartbeat_reply-IsRunning :
    (reply : Option Bool) (r : Runner)
    → IsRunning r
    → IsRunning (heartbeat_reply reply r)
      × ((heartbeat_reply reply r).cancel_asked ≡ (is_cancel reply || r.cancel_asked))
unfolding heartbeat_reply
heartbeat_reply-IsRunning none r h = (h, refl)
heartbeat_reply-IsRunning (some false) r h = (h, refl)
heartbeat_reply-IsRunning (some true) r h = ((true, ground (arith, h.1)), ground (arith, h.1))

-- While a job runs, the flag that a cancel was asked for collects the replies.
pub heartbeat_replies-IsRunning :
    (replies : List (Option Bool)) (r : Runner)
    → IsRunning r
    → IsRunning (heartbeat_replies replies r)
      × ((heartbeat_replies replies r).cancel_asked ≡ (any_cancel replies || r.cancel_asked))
unfolding heartbeat_replies
heartbeat_replies-IsRunning [] r h = (h, refl)
heartbeat_replies-IsRunning (reply ∷ replies) r h =
    let step = heartbeat_reply-IsRunning reply r h in
    let rest = heartbeat_replies-IsRunning replies (heartbeat_reply reply r) step.0 in
    (rest.0, ground (arith, step.1, rest.1))

dp-heartbeat_reply : (reply : Option Bool) (r : Runner) → (heartbeat_reply reply r).dp ≡ r.dp
unfolding heartbeat_reply
dp-heartbeat_reply none r = refl
dp-heartbeat_reply (some false) r = refl
dp-heartbeat_reply (some true) r = ground arith

pub dp-heartbeat_replies :
    (replies : List (Option Bool)) (r : Runner) → (heartbeat_replies replies r).dp ≡ r.dp
unfolding heartbeat_replies
dp-heartbeat_replies [] r = refl
dp-heartbeat_replies (reply ∷ replies) r =
    dp-heartbeat_replies replies (heartbeat_reply reply r) ∙ dp-heartbeat_reply reply r

request_cancel_idle : (r : Runner) → r.job ≡ no_job → request_cancel r ≡ r
unfolding request_cancel
request_cancel_idle r h = ground arith

pub heartbeat_reply_idle :
    (reply : Option Bool) (r : Runner) → r.job ≡ no_job → heartbeat_reply reply r ≡ r
unfolding heartbeat_reply
heartbeat_reply_idle none r h = refl
heartbeat_reply_idle (some false) r h = refl
heartbeat_reply_idle (some true) r h = request_cancel_idle r h

-- Heartbeat replies that arrive while no job is registered leave the agent as it was.
pub heartbeat_replies_idle :
    (replies : List (Option Bool)) (r : Runner) → r.job ≡ no_job → heartbeat_replies replies r ≡ r
unfolding heartbeat_replies
heartbeat_replies_idle [] r h = refl
heartbeat_replies_idle (reply ∷ replies) r h =
    rw (heartbeat_reply_idle reply r h) (heartbeat_replies_idle replies r h)
