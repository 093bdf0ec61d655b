-- ===== src/Adaptive/QueueWait.antt =====
-- The queue wait of a limiter is set by `New`; no method changes it.
use wallet_scan.Prelude.{ℕ, ◌≡◌, refl, ◌∙◌, arith}
use wallet_scan.Prelude.Texts.{Text}
use wallet_scan.Adaptive.{
  Outcome, Limiter, chain, register, adjust, give_back, release, attempt, retry_after,
}
use wallet_scan.Adaptive.Leases.{
  System, Step, Reach, registered, acquired, refused, asked, released, here, next,
}

chain-queue_wait : (l : Limiter) (t : Text) (now : ℕ) → (chain l t now).1.queue_wait ≡ l.queue_wait
unfolding chain
chain-queue_wait l t now = ground arith

attempt-queue_wait :
    (l : Limiter) (t : Text) (now : ℕ) → (attempt l t now).1.queue_wait ≡ l.queue_wait
unfolding attempt
attempt-queue_wait l t now = ground (arith, chain-queue_wait l t now)

release-queue_wait :
    (l : Limiter) (o : Outcome) (now : ℕ) → (release l o now).queue_wait ≡ l.queue_wait
unfolding release give_back adjust
release-queue_wait l o now = ground (arith, chain-queue_wait l o.chain now)

Step-queue_wait : {s t : System} → Step s t → t.limiter.queue_wait ≡ s.limiter.queue_wait
unfolding register retry_after
Step-queue_wait (registered s name now) = chain-queue_wait s.limiter name now
Step-queue_wait (acquired s name now h) = attempt-queue_wait s.limiter name now
Step-queue_wait (refused s name now h) = attempt-queue_wait s.limiter name now
Step-queue_wait (asked s name now) = chain-queue_wait s.limiter name now
Step-queue_wait (released s outcome now h) = release-queue_wait s.limiter outcome now

pub Reach-queue_wait : {s t : System} → Reach s t → t.limiter.queue_wait ≡ s.limiter.queue_wait
Reach-queue_wait here = refl
Reach-queue_wait (next r st) = Step-queue_wait st ∙ Reach-queue_wait r
