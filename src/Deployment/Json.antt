-- ===== src/Deployment/Json.antt =====
-- The JSON columns of internal/deployment/store.go. encoding/json is a parameter: a text is read into
-- a value, or not at all where json.Unmarshal returns an error, and a value is written as a text.
use ai_edge.Prelude.{◌≡◌, String, Option, List}
use ai_edge.Prelude.Int.{ℤ}

pub record DeploymentStatus : Type 0 where
  pub phase : String
  pub desired_nodes : ℤ
  pub ready_nodes : ℤ
  pub failed_nodes : ℤ

pub record Rollout : Type 0 where
  pub max_unavailable : ℤ

pub record Target : Type 0 where
  pub gateway_ids : List String
  pub label_selector : List (String × String)

-- `left_status` is what json.Unmarshal leaves in a zero status, an error or not, and `phase_text` the
-- database's status->>'phase'.
pub record JsonTools : Type 0 where
  pub read_status : String → Option DeploymentStatus
  pub left_status : String → DeploymentStatus
  pub phase_text : String → Option String
  pub write_status : DeploymentStatus → String
  pub read_rollout : String → Option Rollout
  pub write_rollout : Rollout → String
  pub read_target : String → Option Target
  pub write_target : Target → String
  pub read_object : String → Option (List (String × String))
  pub write_object : List (String × String) → String

-- The phase of a status that is written is read back.
pub record IsLawful (json : JsonTools) : Type 0 where
  pub phase-write_status :
      (st : DeploymentStatus) → (json.left_status (json.write_status st)).phase ≡ st.phase
