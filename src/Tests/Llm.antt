-- ===== src/Tests/Llm.antt =====
-- A gateway that is busy once and then answers.
use mow.Prelude.{ℕ, All, arith, zero, suc, true, false}
use mow.Llm.Retry.{missing, Reply, received, World, do_with_retry}
use mow.Llm.Retry.Budget.{IsBounded, clamped, do_with_retry-IsBounded}
use mow.Llm.Retry.Waits.{FitsReply, IsWait, do_with_retry-waits}
use mow.Llm.Retry.Causes.{IsExplained, do_with_retry-IsExplained}

abbrev reply : ℕ → Reply
reply zero = received (record { status = 503; retry_after = missing })
reply (suc i) = received (record { status = 200; retry_after = missing })

abbrev busy_once : World
busy_once = record {
  do_request = reply;
  context_done = λ _. false;
  done_in_wait = λ _ _. false;
  rewinds = λ _. true;
  random = λ _. 7;
}

do_with_retry-IsBounded_example : IsBounded (clamped 3) (do_with_retry busy_once 3)
do_with_retry-IsBounded_example = do_with_retry-IsBounded busy_once 3

abbrev at_once : (k : ℕ) → FitsReply (reply k)
at_once zero = tt
at_once (suc k) = tt

do_with_retry-waits_example : All IsWait (do_with_retry busy_once 3).retries
do_with_retry-waits_example = do_with_retry-waits busy_once 3 (omega arith) at_once

do_with_retry-IsExplained_example : IsExplained busy_once 0 (do_with_retry busy_once 3)
do_with_retry-IsExplained_example = do_with_retry-IsExplained busy_once 3
