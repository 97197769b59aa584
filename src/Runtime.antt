-- ===== src/Runtime.antt =====
-- internal/runtime/manager.go and adapter.go: the adapters by name. An adapter is code outside the
-- manager that changes the node it runs on: its operations are functions of a state of that node.
use ai_edge.Prelude.{
  String, concat, quoted, Bool, Option, none, some, List, [], ◌∷◌, map, ◌==◌, if◌then◌else◌,
}

pub data Answer {ℓ} (A : Type ℓ) : Type ℓ where
  answer : A → Answer A
  fails : String → Answer A

-- An operation on the node: an error's text or a value, and the node after it.
abbrev pub Action {ℓ κ} : Type ℓ → Type κ → Type (ℓ ⊔ κ)
Action W A = W → Answer A × W

pub record Status : Type 0 where
  pub running : Bool
  pub state : String
  pub info : List (String × String)

pub record InstallConfig : Type 0 where
  pub model_name : String
  pub model_version : String
  pub artifact_uri : String
  pub runtime_config : List (String × String)

pub record RuntimeAdapter (W : Type 0) : Type 0 where
  pub name : String
  pub install : InstallConfig → Action W (Unit {0})
  pub start : (model_name model_version : String) → Action W (Unit {0})
  pub stop : (model_name model_version : String) → Action W (Unit {0})
  pub restart : (model_name model_version : String) → Action W (Unit {0})
  pub uninstall : (model_name model_version : String) → Action W (Unit {0})
  pub status : (model_name model_version : String) → Action W Status

-- The adapters, each under its name.
abbrev pub Manager : Type 0 → Type 0
Manager W = List (RuntimeAdapter W)

module _ {W : Type 0} where
  unfoldable pub get : Manager W → String → Answer (RuntimeAdapter W)
  get [] runtime = fails (concat "runtime: unknown adapter " (quoted runtime))
  get (a ∷ rest) runtime = if a.name == runtime then answer a else get rest runtime

  -- `none` where the program panics, on a name that is taken.
  unfoldable pub register : RuntimeAdapter W → Manager W → Option (Manager W)
  register a m = elim (get m a.name) [ answer old ↦ none | fails text ↦ some (a ∷ m) ]

  abbrev pub on_adapter {ℓ} :
      {A : Type ℓ} → Answer (RuntimeAdapter W) → (RuntimeAdapter W → Action W A) → Action W A
  on_adapter (fails text) f w = (fails text, w)
  on_adapter (answer a) f w = f a w

  unfoldable pub install : Manager W → String → InstallConfig → Action W (Unit {0})
  install m runtime cfg = on_adapter (get m runtime) (λ a. a.install cfg)

  unfoldable pub start :
      Manager W → (runtime model_name model_version : String) → Action W (Unit {0})
  start m runtime model_name model_version =
      on_adapter (get m runtime) (λ a. a.start model_name model_version)

  unfoldable pub stop :
      Manager W → (runtime model_name model_version : String) → Action W (Unit {0})
  stop m runtime model_name model_version =
      on_adapter (get m runtime) (λ a. a.stop model_name model_version)

  unfoldable pub restart :
      Manager W → (runtime model_name model_version : String) → Action W (Unit {0})
  restart m runtime model_name model_version =
      on_adapter (get m runtime) (λ a. a.restart model_name model_version)

  unfoldable pub uninstall :
      Manager W → (runtime model_name model_version : String) → Action W (Unit {0})
  uninstall m runtime model_name model_version =
      on_adapter (get m runtime) (λ a. a.uninstall model_name model_version)

  unfoldable pub status : Manager W → (runtime model_name model_version : String) → Action W Status
  status m runtime model_name model_version =
      on_adapter (get m runtime) (λ a. a.status model_name model_version)

  abbrev pub list_adapters : Manager W → List String
  list_adapters = map (λ (a : RuntimeAdapter W). a.name)
