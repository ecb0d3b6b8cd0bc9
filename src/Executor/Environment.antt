-- ===== src/Executor/Environment.antt =====
-- executor.py, `invocation_env`: which names reach the child process, and with which values.
use model_eval.Prelude.{
  ◌≡◌, ◌≢◌, refl, none, some, String, List, [], ◌∷◌, arith, string_key, eq_iff, ◌=?◌, contains,
  lookup, if◌then◌else◌, ok, Option-cases, inl, inr,
}
use model_eval.Executor.{
  InvocationPath, env_allowlist, set_key, set_keys, inherited, invocation_env,
}

lookup-set_key :
    (name key value : String) (env : List (String × String))
    → lookup name (set_key key value env) ≡ (if name =? key then some value else lookup name env)
lookup-set_key name key value [] = refl
lookup-set_key name key value ((j, old) ∷ env) =
    ground (arith, lookup-set_key name key value env, eq_iff key j, eq_iff name j, eq_iff name key)

lookup-set_keys :
    (name value : String) (keys : List String) (env : List (String × String))
    → lookup name (set_keys keys value env)
      ≡ (if contains name keys then some value else lookup name env)
lookup-set_keys name value [] env = refl
lookup-set_keys name value (key ∷ keys) env = ground (
  arith,
  lookup-set_keys name value keys (set_key key value env),
  lookup-set_key name key value env,
)

lookup-inherited :
    (name : String) (names : List String) (source : List (String × String))
    → lookup name (inherited names source)
      ≡ (if contains name names then lookup name source else none)
lookup-inherited name [] source = refl
lookup-inherited name (key ∷ names) source = elim (Option-cases (lookup key source)) [
  | inl e ↦ ground (arith, lookup-inherited name names source, eq_iff name key)
  | inr (value, e) ↦ ground (arith, lookup-inherited name names source, eq_iff name key)
]

-- An environment is built only for a key that is not empty; in it the path's key variables hold the
-- key, the base URL is the path's, a name of the allowlist is inherited, and no other name is set.
pub invocation_env-lookup :
    (path : InvocationPath) (api_key : String) (source env : List (String × String)) (name : String)
    → invocation_env path api_key source ≡ ok env
    → (api_key ≢ "")
      × (lookup name env ≡ (
          if contains name path.key_env_vars
          then some api_key
          else if name =? "ANTHROPIC_BASE_URL"
          then some path.base_url
          else if contains name env_allowlist
          then lookup name source
          else none))
unfolding invocation_env
invocation_env-lookup path api_key source env name h =
    let base = set_key "ANTHROPIC_BASE_URL" path.base_url (inherited env_allowlist source) in
    ground (
      arith,
      eq_iff api_key "",
      lookup-set_keys name api_key path.key_env_vars base,
      lookup-set_key name "ANTHROPIC_BASE_URL" path.base_url (inherited env_allowlist source),
      lookup-inherited name env_allowlist source,
    )
