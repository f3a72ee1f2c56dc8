-- ===== src/Tests/Lifespan.antt =====
-- The theorems on the shutdown at concrete inputs: socket 1 joins conversation 7, and the closing of
-- it outlasts its time.
use dizzchat.Prelude.{◌≡◌, ◌↔◌, refl, true, false, some, List, [], ◌∷◌, ok, err}
use dizzchat.Errors.{Error}
use dizzchat.Realtime.ConnectionManager.{hangs, register}
use dizzchat.Realtime.Subscriber.{failed, quiet, subscribe, run_reader}
use dizzchat.Realtime.ConversationRegistry.{join}
use dizzchat.Realtime.Lifespan.{
  reading, startup, serving_process, Happening, joined, read, happen, happen_all, shutdown,
}
use dizzchat.Realtime.Lifespan.Shutdown.{IsReleased, shutdown-IsReleased_iff, shutdown-lost}

started_up : startup (ok tt) ≡ ok serving_process
unfolding startup
started_up = refl

abbrev visits : List Happening
visits = joined true 7 1 ∷ read quiet ∷ []

shutdown-IsReleased_iff_example :
    IsReleased (shutdown (λ k. hangs) true true (happen_all visits serving_process))
    ↔ ((happen_all visits serving_process).task ≡ some reading)
shutdown-IsReleased_iff_example =
    shutdown-IsReleased_iff (ok tt) visits (λ k. hangs) serving_process started_up

visits_channels : (happen_all visits serving_process).replica.subscriber.channels ≡ 7 ∷ []
unfolding happen_all join register subscribe run_reader
visits_channels = refl

shutdown-lost_example :
    let lost = happen (read (failed λ c. false)) (happen_all visits serving_process) in
    let outcome = shutdown (λ k. hangs) true true (happen_all visits lost) in
    ((e : Error) × (outcome.0 ≡ err e))
    × (outcome.1.redis_open ≡ true)
    × (outcome.1.engine_open ≡ true)
shutdown-lost_example =
    shutdown-lost (ok tt) visits visits (λ c. false) (λ k. hangs) true true serving_process
      started_up (rw visits_channels refl) (rw visits_channels refl)
