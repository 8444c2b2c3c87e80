-- ===== src/Outbox/Stopped.antt =====
-- What flush returns if ctx is done before the first report (outbox.go, flush).
use binfinity_addon_sdk.Prelude.{List, [], ap, arith, length, min, true, ℕ, ◌+◌, ◌∙◌, ◌∷◌, ◌≡◌}
use binfinity_addon_sdk.Disk.{Disk}
use binfinity_addon_sdk.Outbox.{Json, PendingReport, Sender, flush_all, flush_on, pending_on}

flush_all_stopped :
    (env : Sender) (ps : List PendingReport) (n : ℕ) (d : Disk)
    → ((p : PendingReport) → env.ctx_done p ≡ true)
    → flush_all env ps n d ≡ (d, n + min 1 (length ps))
unfolding flush_all
flush_all_stopped env [] n d h = ap {B = Disk × ℕ} (λ k. (d, k)) (omega arith)
flush_all_stopped env (p ∷ ps) n d h = rw (h p) (ap {B = Disk × ℕ} (λ k. (d, k)) (omega arith))

-- If ctx is done before any report is sent, flush leaves the directory as it was, and returns 1 if
-- a report is pending, however many are, and 0 if none is.
pub flush_on_stopped :
    (json : Json) (env : Sender) (d : Disk)
    → ((p : PendingReport) → env.ctx_done p ≡ true)
    → flush_on json env d ≡ (d, min 1 (length (pending_on json d)))
unfolding flush_on
flush_on_stopped json env d h =
    flush_all_stopped env (pending_on json d) 0 d h ∙ ap {B = Disk × ℕ} (λ k. (d, k)) (omega arith)
