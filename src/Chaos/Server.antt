-- ===== src/Chaos/Server.antt =====
-- cmd/chaos/main.go: the HTTP handlers in front of the scenarios. The JSON texts are parameters.
use raft_implementation.Prelude.{
  ℕ, ◌≡◌, refl, sym, ◌∙◌, String, Bool, true, false, not, ◌||◌, some, List, [], ◌∷◌, map, any,
  str_eq, eq_iff, if◌then◌else◌, ◌<>◌, trim_prefix, trim_prefix-append, arith, Bool-cases, inl, inr,
  false≢true,
}
use text.Mathlib.Text.{starts_with}
use raft_implementation.Chaos.Harness.{
  ScenarioMeta, ScenarioEntry, ScenarioResult, insert_meta, sort_metas, list_scenarios, find_entry,
  run_scenario, result_of, perform_calls, new_harness,
}

pub record Request : Type 0 where
  pub method : String
  pub path : String

-- http.Error, a JSON body, and a header alone.
pub data Response : Type 0 where
  http_error : ℕ → String → Response
  json_body : String → Response
  no_content : Response

-- encoding/json for the two types that are sent.
pub record Encoder : Type 0 where
  pub encode_metas : List ScenarioMeta → String
  pub encode_result : ScenarioResult → String

module _ (json : Encoder) (registry : List ScenarioEntry) where
  unfoldable pub handle_list : Request → Response
  unfolding list_scenarios
  handle_list r =
      if not (str_eq r.method "GET")
      then http_error 405 "method not allowed"
      else json_body (json.encode_metas (list_scenarios registry))

  unfoldable pub handle_run : Request → Response
  unfolding run_scenario trim_prefix
  handle_run r =
      let id = trim_prefix r.path "/scenarios/" in
      if not (str_eq r.method "POST")
      then http_error 405 "method not allowed"
      else if str_eq id ""
      then http_error 400 "missing scenario id"
      else json_body (json.encode_result (run_scenario id registry))

  -- The patterns that `main` registers.
  unfoldable pub route : Request → Response
  unfolding handle_list handle_run
  route r =
      if str_eq r.path "/scenarios"
      then handle_list r
      else if starts_with r.path "/scenarios/"
      then handle_run r
      else http_error 404 "404 page not found"

-- The headers that are set before any answer.
abbrev pub cors_headers : List (String × String)
cors_headers =
    ("Access-Control-Allow-Origin", "*")
    ∷ ("Access-Control-Allow-Methods", "GET, POST, OPTIONS")
    ∷ ("Access-Control-Allow-Headers", "Content-Type")
    ∷ []

unfoldable pub cors_middleware : (Request → Response) → Request → List (String × String) × Response
cors_middleware next r = (cors_headers, if str_eq r.method "OPTIONS" then no_content else next r)

-- Whether a list of metadata has an id.
abbrev pub lists : String → List ScenarioMeta → Bool
lists id ms = any (λ (m : ScenarioMeta). str_eq m.id id) ms

lists-insert_meta :
    (id : String) (m : ScenarioMeta) (xs : List ScenarioMeta)
    → lists id (insert_meta m xs) ≡ str_eq m.id id || lists id xs
unfolding insert_meta
lists-insert_meta id m [] = ground arith
lists-insert_meta id m (x ∷ xs) = ground (arith, lists-insert_meta id m xs)

lists-sort_metas : (id : String) (ms : List ScenarioMeta) → lists id (sort_metas ms) ≡ lists id ms
unfolding sort_metas
lists-sort_metas id [] = refl
lists-sort_metas id (m ∷ ms) =
    ground (arith, lists-insert_meta id m (sort_metas ms), lists-sort_metas id ms)

find_entry-lists :
    (id : String) (registry : List ScenarioEntry)
    → lists id (map (λ (e : ScenarioEntry). e.meta) registry) ≡ true
    → (e : ScenarioEntry) × (find_entry id registry ≡ some e) × (e.meta.id ≡ id)
unfolding find_entry
find_entry-lists id [] h = absurd (false≢true h)
find_entry-lists id (e ∷ es) h = elim (Bool-cases (str_eq e.meta.id id)) [
  | inl here ↦ (e, rw here refl, (eq_iff e.meta.id id).0 here)
  | inr other ↦
      let (e', found, same) = find_entry-lists id es (ground arith) in (e', rw other found, same)
]

-- An id that is not empty and is in the list of scenarios belongs to a registered scenario, and a
-- POST to its path answers the result of that scenario's calls.
pub listed-runs :
    (json : Encoder) (registry : List ScenarioEntry) (id : String)
    → lists id (list_scenarios registry) ≡ true
    → str_eq id "" ≡ false
    → (e : ScenarioEntry) × (find_entry id registry ≡ some e)
      × (e.meta.id ≡ id)
      × (handle_run json registry (record { method = "POST"; path = "/scenarios/" <> id })
          ≡ json_body (json.encode_result (result_of id (perform_calls e.calls new_harness))))
unfolding handle_run list_scenarios run_scenario
listed-runs json registry id h named =
    let (e, found, same) = find_entry-lists id registry (sym (lists-sort_metas id _) ∙ h) in
    (
      e,
      found,
      same,
      rw (trim_prefix-append "/scenarios/" id, named) (rw (found, run_scenario) refl),
    )
