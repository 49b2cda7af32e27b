-- ===== src/Throttle/Start.antt =====
-- When a listener of src/throttle.c starts to throttle.
use connio.Prelude.{
  ℕ, ◌<◌, ◌≤◌, ◌⊎◌, if◌then◌else◌, ◌≡◌, ◌≢◌, true, false, some, List, [], ◌∷◌, arith,
}
use connio.Throttle.{
  SocketEvent, AsyncListener, listener_should_throttle, listener_start_throttling, Call, call,
  listener_stopped, throttling_started,
}

abbrev pub started_calls : AsyncListener → ℕ → List Call
started_calls l n =
    if l.has_callback then call l listener_stopped n ∷ call l throttling_started n ∷ [] else []

-- listenerStartThrottling succeeds on a suspended listener with a threshold that the thread count
-- exceeds: the listener is paused, its other flags stay, and the callback, if there is one, is told
-- of the stop and of the throttling. On any other listener it fails, and nothing changes and nothing
-- is told.
pub listener_start_throttling_lem :
    (se : SocketEvent) (l : AsyncListener) (reading again : ℕ)
    → se.listener ≡ some l
    → ((se.flags.suspended ≡ true)
        × (l.throttling_threshold ≢ 0)
        × (l.throttling_threshold < reading)
        × (listener_start_throttling se reading again ≡ (
          true,
          (started_calls l again, record se { flags = record se.flags { paused = true } }),
        )))
      ⊎ (((se.flags.suspended ≡ false)
            ⊎ (l.throttling_threshold ≡ 0)
            ⊎ (reading ≤ l.throttling_threshold))
          × (listener_start_throttling se reading again ≡ (false, ([], se))))
unfolding listener_start_throttling
listener_start_throttling_lem se l reading again e = ground arith

-- A listener that is not suspended and whose threshold is exceeded should throttle by
-- listenerShouldThrottle, but listenerStartThrottling refuses.
pub start-refuses :
    (se : SocketEvent) (l : AsyncListener) (reading again : ℕ)
    → se.listener ≡ some l
    → se.flags.suspended ≡ false
    → l.throttling_threshold ≢ 0
    → l.throttling_threshold < reading
    → (listener_should_throttle se reading ≡ true)
      × (listener_start_throttling se reading again ≡ (false, ([], se)))
unfolding listener_should_throttle listener_start_throttling
start-refuses se l reading again e s z over = (ground arith, ground arith)
