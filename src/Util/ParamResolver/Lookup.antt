-- ===== src/Util/ParamResolver/Lookup.antt =====
-- What an action's parameter becomes (util/param_resolver.go).
use orchy.Base.{Text, text_eq, text_beq_iff, Option, none, some, ◌≡◌, refl, ap, arith}
use orchy.Model.{Error}
use orchy.Model.Value.{Value, Fields, end, field, get_field, set_field, get_field-set_field}
use orchy.Util.ParamResolver.{resolve_params, resolve_value, resolve_input_params}

-- No key is there twice.
abbrev pub HasKeysOnce : Fields → Type 0
HasKeysOnce end = Unit
HasKeysOnce (field k v m) = (get_field k m ≡ none) × HasKeysOnce m

module _ (json_path_lookup : Fields → Text → Value × Option Error) (flow_data : Fields) where
  abbrev pub resolved : Option Value → Option Value → Option Value
  resolved (some v) old = some (resolve_value json_path_lookup flow_data v)
  resolved none old = old

  get_field-resolve_params :
      (params output : Fields) (k : Text)
      → HasKeysOnce params
      → get_field k (resolve_params json_path_lookup flow_data params output)
        ≡ resolved (get_field k params) (get_field k output)
  unfolding resolve_params get_field
  get_field-resolve_params end output k once = refl
  get_field-resolve_params (field j v params) output k once =
      let x = resolve_value json_path_lookup flow_data v in
      let rest = get_field-resolve_params params (set_field j x output) k once.1 in
      ground (
        arith,
        rest,
        text_beq_iff j k,
        get_field-set_field j k x output,
        once.0,
        ap (λ i. get_field i params),
      )

  -- ResolveInputParams gives each key of the parameters the resolved value of that key, and no other
  -- key a value, whatever the order is in which the parameters are gone through.
  pub get_field-resolve_input_params :
      (params : Fields) (k : Text)
      → HasKeysOnce params
      → get_field k (resolve_input_params json_path_lookup flow_data params)
        ≡ resolved (get_field k params) none
  unfolding resolve_input_params get_field
  get_field-resolve_input_params params k once = get_field-resolve_params params end k once
