-- ===== src/Gateway/Autonomy/Alternation.antt =====
-- The callbacks of ConnectivityMonitor of internal/gateway/autonomy.go, over any sequence of probes.
use ai_edge.Prelude.{
  ℕ, ◌≡◌, refl, Bool, true, false, Option, none, some, List, [], ◌∷◌, if◌then◌else◌,
}
use ai_edge.Gateway.Autonomy.{
  ConnectivityState, state_online, state_offline, Callback, on_offline, on_recover, Monitor, online,
  is_online, check_health, after_success, after_failure, probe, allow_new_task_claim,
}

abbrev also : Option Callback → List Callback → List Callback
also none cs = cs
also (some c) cs = c ∷ cs

-- The monitor after the probes at the given times with the given responses, and the callbacks.
abbrev pub run : Monitor → List (ℕ × Option ℕ) → Monitor × List Callback
run m [] = (m, [])
run m ((now, response) ∷ rest) =
    let (m', c) = probe now response m in let (m'', cs) = run m' rest in (m'', also c cs)

-- After an `on_offline` comes an `on_recover`, and the other way round.
abbrev pub Alternates : ConnectivityState → List Callback → ConnectivityState → Type 0
Alternates from [] to = from ≡ to
Alternates from (on_offline ∷ cs) to = (from ≡ state_online) × Alternates state_offline cs to
Alternates from (on_recover ∷ cs) to = (from ≡ state_offline) × Alternates state_online cs to

module _ (now : ℕ) (m : Monitor) (cs : List Callback) (to : ConnectivityState) where
  success_step :
      (st : ConnectivityState)
      → Alternates (after_success now m st).0.state cs to
      → Alternates st (also (after_success now m st).1 cs) to
  success_step state_online h = h
  success_step state_offline h = (refl, h)

  failure_step :
      (st : ConnectivityState)
      → Alternates (after_failure now m st).0.state cs to
      → Alternates st (also (after_failure now m st).1 cs) to
  failure_step state_online h = (refl, h)
  failure_step state_offline h = h

  chosen :
      (b : Bool)
      → Alternates
          (if b then after_success now m m.state else after_failure now m m.state).0.state
          cs
          to
      → Alternates m.state
          (also (if b then after_success now m m.state else after_failure now m m.state).1 cs)
          to
  chosen true h = success_step m.state h
  chosen false h = failure_step m.state h

  probe_step :
      (response : Option ℕ)
      → Alternates (probe now response m).0.state cs to
      → Alternates m.state (also (probe now response m).1 cs) to
  unfolding probe
  probe_step response h = chosen (check_health m response) h

-- Through any sequence of probes the callbacks alternate, from the state before the probes to the
-- state after them: no loss is reported twice without a recovery between, and none is left out.
pub run-Alternates :
    (m : Monitor) (probes : List (ℕ × Option ℕ))
    → Alternates m.state (run m probes).1 (run m probes).0.state
run-Alternates m [] = refl
run-Alternates m ((now, response) ∷ rest) =
    probe_step now m (run (probe now response m).0 rest).1
      (run (probe now response m).0 rest).0.state response
      (run-Alternates (probe now response m).0 rest)

settled :
    (now : ℕ) (m : Monitor) (b : Bool) (st : ConnectivityState)
    → online (if b then after_success now m st else after_failure now m st).0.state ≡ b
settled now m true state_online = refl
settled now m true state_offline = refl
settled now m false state_online = refl
settled now m false state_offline = refl

-- New tasks are claimed exactly if the last probe found the cloud, whatever was before it.
pub probe-allow_new_task_claim :
    (now : ℕ) (response : Option ℕ) (m : Monitor)
    → allow_new_task_claim (probe now response m).0 ≡ check_health m response
unfolding allow_new_task_claim is_online probe
probe-allow_new_task_claim now response m = settled now m (check_health m response) m.state
