-- ===== src/Gateway/Autonomy.antt =====
-- internal/gateway/autonomy.go: the monitor of the connection to the cloud. The result of the HTTP
-- request is a parameter: its status code, or none for an error. The two callbacks run in
-- goroutines of their own; here `probe` returns the one that it starts.
pub mod Alternation
use ai_edge.Prelude.{
  ℕ, ◌*◌, String, Bool, true, false, Option, none, some, ◌==◌, ltb, eqb, if◌then◌else◌,
}
use ai_edge.Task.Retry.{second}

pub data ConnectivityState : Type 0 where
  state_online state_offline : ConnectivityState

pub data Callback : Type 0 where
  on_offline on_recover : Callback

pub record MonitorConfig : Type 0 where
  pub cloud_health_url : String
  pub check_interval : ℕ
  pub timeout : ℕ

pub record Monitor : Type 0 where
  pub cloud_health_url : String
  pub check_interval : ℕ
  pub timeout : ℕ
  pub state : ConnectivityState
  pub last_online_at : ℕ
  pub last_offline_at : Option ℕ

unfoldable pub new_monitor : (now : ℕ) → MonitorConfig → Monitor
new_monitor now cfg = record {
  cloud_health_url = cfg.cloud_health_url;
  check_interval = if eqb cfg.check_interval 0 then 10 * second else cfg.check_interval;
  timeout = if eqb cfg.timeout 0 then 5 * second else cfg.timeout;
  state = state_online;
  last_online_at = now;
  last_offline_at = none;
}

abbrev pub online : ConnectivityState → Bool
online state_online = true
online state_offline = false

unfoldable pub is_online : Monitor → Bool
is_online m = online m.state

abbrev answered : Option ℕ → Bool
answered none = false
answered (some code) = ltb code 500

unfoldable pub check_health : Monitor → Option ℕ → Bool
check_health m response = if m.cloud_health_url == "" then true else answered response

abbrev pub after_success : (now : ℕ) → Monitor → ConnectivityState → Monitor × Option Callback
after_success now m state_online = (record m { state = state_online; last_online_at = now }, none)
after_success now m state_offline =
    (record m { state = state_online; last_online_at = now }, some on_recover)

abbrev pub after_failure : (now : ℕ) → Monitor → ConnectivityState → Monitor × Option Callback
after_failure now m state_online =
    (record m { state = state_offline; last_offline_at = some now }, some on_offline)
after_failure now m state_offline =
    (record m { state = state_offline; last_offline_at = some now }, none)

unfoldable pub probe : (now : ℕ) → Option ℕ → Monitor → Monitor × Option Callback
unfolding check_health
probe now response m =
    if check_health m response then after_success now m m.state else after_failure now m m.state

-- AutonomyGuard
unfoldable pub allow_new_task_claim : Monitor → Bool
unfolding is_online
allow_new_task_claim m = is_online m

unfoldable pub allow_new_onboarding : Monitor → Bool
unfolding is_online
allow_new_onboarding m = is_online m
