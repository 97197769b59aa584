-- ===== src/Tests/Registries.antt =====
-- The theorems on the lists of tasks, on models and on gateways, applied.
use ai_edge.Prelude.{
  ℕ, zero, suc, ◌≤◌, count_rows, sym, ap, ◌∙◌, ◌↔◌, concat, Bool-cases, inl, inr, ◌≡◌, ◌<◌, ◌+◌,
  refl, String, true, false, Option, none, some, [], ◌∷◌, map, arith, ◌==◌, find_row, where_rows,
  order_by, if◌then◌else◌, length,
}
use ai_edge.Prelude.Int.{ℤ, pos}
use ai_edge.Proto.{status_unspecified, onnx}
use ai_edge.Store.Errors.{ok}
use ai_edge.Store.Session.{Session, autocommit}
use ai_edge.Task.Store.{in_filter, Scan}
use ai_edge.Gateway.Registry.{create_gateway, gateway_to_proto}
use ai_edge.Task.Service.{ListTasksRequest, row_to_proto}
use ai_edge.Task.Service.Listing.{AreInverse, IsScan, matching, follow, list_tasks_complete}
use mathlib.Core.List.Permᴰ
use ai_edge.Model.Service.{
  CreateModelRequest, ModelMessage, model_to_proto, requested_model, create_model_handler,
  get_model_handler,
}
use ai_edge.Model.Store.{new_model, create_model}
use ai_edge.Model.Registry.{get_model-create_model}
use ai_edge.Gateway.SelfRegister.{SelfRegisterConfig, SelfRegisterResult, self_register}
use ai_edge.Gateway.SelfRegister.Restart.{self_register-self_register}
use ai_edge.Gateway.Cache.{of_gateway, stale_entries, evict_lru}
use ai_edge.Gateway.Cache.Bound.{evict_lru-bounds}
use ai_edge.Store.Schema.{CacheEntry}
use ai_edge.Gateway.AdminAuth.{AdminAuthConfig, Cut, admin_auth}
use ai_edge.Gateway.AdminAuth.Access.{IsCut, Presents, admin_auth_iff}
use text.Mathlib.Text.{starts_with}
use text.Mathlib.TextEquality.{starts_with_iff}
use text.Mathlib.TextPositions.{len-append, slice-append_right}
use Prim.Native.String.{len, slice}
use ai_edge.Tests.{env, session, tables, waiting, ended}

-- Two offsets are written and read.
abbrev itoa : ℤ → String
itoa (pos zero) = "0"
itoa (pos (suc zero)) = "1"
itoa n = "?"

abbrev atoi : String → Option ℤ
atoi s = if s == "0" then some (pos 0) else if s == "1" then some (pos 1) else none

two_read : AreInverse 2 atoi itoa
two_read = record { itoa_some = written; atoi-itoa = read }
  where
    written : (n : ℕ) → n < 2 → (itoa (pos n) == "") ≡ false
    written zero h = refl
    written (suc zero) h = refl
    written (suc (suc n)) h = absurd (omega (arith, h))

    read : (n : ℕ) → n < 2 → atoi (itoa (pos n)) ≡ some (pos n)
    read zero h = refl
    read (suc zero) h = refl
    read (suc (suc n)) h = absurd (omega (arith, h))

abbrev any_task : ListTasksRequest
any_task = record {
  target_gateway_id = "";
  target_node_id = "";
  status = status_unspecified;
  type = "";
  page = none;
}

-- The database comes to the second row first.
abbrev turned : Scan
turned [] = []
turned (x ∷ []) = x ∷ []
turned (x ∷ y ∷ rows) = y ∷ x ∷ rows

turned-IsScan : IsScan turned
turned-IsScan [] = Permᴰ.refl []
turned-IsScan (x ∷ []) = Permᴰ.refl (x ∷ [])
turned-IsScan (x ∷ y ∷ rows) = Permᴰ.swap refl refl

-- Of the two tasks, one was created later.
abbrev two_times : Session
two_times = record session {
  db = record tables {
    tasks = waiting ∷ record ended { created_at = 5 + waiting.created_at } ∷ [];
  };
}

list_tasks_complete_example :
    (follow
      (suc (length (matching atoi any_task two_times.db)))
      env
      (λ n. turned)
      atoi
      itoa
      any_task
      1
      ""
      two_times).0
    ≡ ok (some (map row_to_proto (matching atoi any_task two_times.db)))
unfolding order_by where_rows in_filter
list_tasks_complete_example =
    list_tasks_complete env (λ n. turned) atoi itoa any_task 0 two_times two_read (λ k. refl)
      (λ n. turned-IsScan) ((refl, tt), (tt, tt)) (omega arith)

abbrev model_request : CreateModelRequest
model_request = record {
  name = "m";
  version = "1";
  format = onnx;
  checksum = "";
  size = pos 5;
  artifact_uri = "file";
  signature_uri = "";
  labels = [];
}

abbrev made : ModelMessage
made = model_to_proto (new_model 100 "u1" (requested_model model_request))

get_model-create_model_example :
    ((get_model_handler env
        (record { id = "u1"; name = ""; version = "" })
        (create_model_handler env model_request session).1).0
      ≡ ok made)
    × ((get_model_handler env
          (record { id = ""; name = "m"; version = "1" })
          (create_model_handler env model_request session).1).0
        ≡ ok made)
unfolding model_to_proto create_model_handler create_model autocommit find_row
get_model-create_model_example =
    get_model-create_model env env model_request session made (λ k. refl) refl refl

abbrev gateway : SelfRegisterConfig
gateway = record {
  gateway_id = "g1";
  region = "r";
  endpoint = "";
  name = "";
  labels = ("a", "b") ∷ [];
}

abbrev first_answer : SelfRegisterResult
first_answer = record { gateway_id = "u1"; name = "g1"; already_existed = false }

self_register-self_register_example :
    (self_register env atoi itoa gateway (self_register env atoi itoa gateway session).1).0
    ≡ ok (record first_answer { already_existed = true })
unfolding self_register create_gateway autocommit find_row gateway_to_proto
self_register-self_register_example =
    self_register-self_register env env atoi itoa gateway session first_answer (λ k. refl)
      (λ k. refl) (omega arith) refl

-- strings.HasPrefix and strings.TrimPrefix on UTF-8 texts.
abbrev cut_text : Cut
cut_text text prefix =
    if starts_with text prefix then some (slice text (len prefix) (len text)) else none

cut_text-IsCut : IsCut cut_text
cut_text-IsCut text prefix rest = (to, from)
  where
    after : (u : String) → concat prefix u ≡ text → slice text (len prefix) (len text) ≡ u
    after u e =
        ap (λ v. slice v (len prefix) (len v)) (sym e)
        ∙ ap (λ k. slice (concat prefix u) (len prefix) k) (len-append prefix u)
        ∙ slice-append_right prefix u

    to : cut_text text prefix ≡ some rest → text ≡ concat prefix rest
    to h = elim (Bool-cases (starts_with text prefix)) [
      | inr f ↦ absurd (ground (arith, h, f))
      | inl t ↦
          let (u, e) = (starts_with_iff text prefix).0 t in
          let same : slice text (len prefix) (len text) ≡ rest = ground (arith, h, t) in
          sym e ∙ ap (concat prefix) (sym (after u e) ∙ same)
    ]

    from : text ≡ concat prefix rest → cut_text text prefix ≡ some rest
    from h =
        let t = (starts_with_iff text prefix).1 (rest, sym h) in
        rw t (ap (λ (x : String). some x) (after rest (sym h)))

abbrev admins : AdminAuthConfig
admins = record { static_tokens = ("t1", "ann") ∷ ("t2", "bob") ∷ []; skip_methods = "Health" ∷ [] }

admin_auth_iff_example :
    (admin_auth cut_text admins "ListModels" (some ("Bearer t2" ∷ [])) ≡ ok (some "bob"))
    ↔ Presents admins.static_tokens (some ("Bearer t2" ∷ [])) "bob"
admin_auth_iff_example =
    admin_auth_iff cut_text admins "ListModels" (some ("Bearer t2" ∷ [])) "bob" cut_text-IsCut
      (refl, (refl, tt)) refl

abbrev cache_entry : (id : String) → (last_access_at : ℕ) → CacheEntry
cache_entry id last_access_at = record {
  id = id;
  gateway_id = "g1";
  model_id = id;
  version = "1";
  cached_at = 1;
  last_access_at = last_access_at;
  size_bytes = pos 5;
}

abbrev cached_two : Session
cached_two = record session {
  db = record tables { gateway_cache_entries = cache_entry "e1" 3 ∷ cache_entry "e2" 9 ∷ [] };
}

evict_lru-bounds_example :
    (count_rows (of_gateway "g1") (evict_lru env 1 "g1" cached_two).1.db.gateway_cache_entries ≤ 1)
    × (length (evict_lru env 1 "g1" cached_two).1.db.gateway_cache_entries + 1 ≡ 2)
unfolding evict_lru autocommit stale_entries where_rows order_by count_rows
evict_lru-bounds_example = evict_lru-bounds env 1 1 "g1" cached_two refl
