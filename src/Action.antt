-- ===== src/Action.antt =====
-- The package action: the kinds of action, and what each validates and executes.
-- oliveagle/jsonpath and dop251/goja are parameters, and so is the JSON text that passes between
-- the context and a script.
use orchy.Base.{
  ℤ, pos, ◌*ℤ◌, int64, leb_ℤ, Text, lit, Bool, true, false, ◌||◌, if◌then◌else◌, Option, none, some,
  List, [], ◌∷◌, ◌++◌, text_eq, text_beq, Outcome, returned, panicked,
}
use orchy.Base.Map.{Map, lookup, insert}
use orchy.Base.Strconv.{itoa, equal_fold}
use orchy.Model.{
  Error, Result, ok, err, ActionType, system, user, NextMap, FlowContext, cannot_execute,
  no_implementation, wrong_delay, missing_default, empty_expression, invalid_expression,
  missing_next, missing_event, invalid_action_type, script_failed,
}
use orchy.Model.Value.{
  Value, Fields, object, null, bool, int, sized_int, float64, float32, string, list, nil_list,
  truncate,
}
use orchy.Util.ParamResolver.{resolve_input_params}

-- What the actions call of other packages.
pub record Libs : Type 0 where
  -- jsonpath.JsonPathLookup: a value and an error.
  pub json_path_lookup : Fields → Text → Value × Option Error
  -- Does jsonpath.Compile accept the expression?
  pub json_path_compiles : Text → Bool
  -- json.Marshal
  pub marshal : Value → Result Text
  -- json.Unmarshal into a map[string]any that is nil: what it then holds.
  pub unmarshal : Text → Option Fields
  -- RunString of a goja runtime that has run the scripts of the list, the latest first; Export.
  pub run_string : List Text → Text → Result Value

-- ToActionType
unfoldable pub to_action_type : Text → ActionType
unfolding equal_fold
to_action_type at = if equal_fold at (lit "system") then system else user

-- ValidateActionType
unfoldable pub validate_action_type : Text → Result (Unit {0})
unfolding equal_fold
validate_action_type at =
    if equal_fold at (lit "system") || equal_fold at (lit "user")
    then ok tt
    else err (invalid_action_type at)

-- What the map `params` of an action holds: a time.Duration in nanoseconds, or a string.
pub data Param : Type 0 where
  duration : ℤ → Param
  text : Text → Param

-- action.baseAction
pub record BaseAction : Type 0 where
  pub id : ℤ
  pub action_type : ActionType
  pub name : Text
  pub input_params : Fields
  pub next_map : NextMap
  pub params : Map Text Param

-- NewBaseAction
unfoldable pub new_base_action : ℤ → ActionType → Text → Fields → NextMap → BaseAction
new_base_action id at name input_params next_map = record {
  id = id;
  action_type = at;
  name = name;
  input_params = input_params;
  next_map = next_map;
  params = [];
}

-- The implementations of the interface Action; `base_action` is a *baseAction itself.
pub data Action : Type 0 where
  base_action : BaseAction → Action
  user_action : BaseAction → Action
  switch_action : Text → BaseAction → Action
  delay_action : ℤ → BaseAction → Action
  wait_action : Text → ℤ → BaseAction → Action
  js_action : Text → BaseAction → Action
  json_map_action : BaseAction → Action

-- time.Duration(seconds) * time.Second
unfoldable pub seconds : ℤ → ℤ
seconds n = int64 (n *ℤ pos 1_000_000_000)

-- NewDelayAction: the duration is written into the parameters too.
unfoldable pub new_delay_action : ℤ → BaseAction → Action
unfolding seconds insert text_beq
new_delay_action delay_seconds b =
    let delay = seconds delay_seconds in
    delay_action delay (record b { params = insert (lit "delay") (duration delay) b.params })

-- NewWaitAction
unfoldable pub new_wait_action : Text → ℤ → BaseAction → Action
unfolding seconds insert text_beq
new_wait_action event_name timeout_seconds b =
    let timeout = seconds timeout_seconds in
    let with_timeout = insert (lit "timeout") (duration timeout) b.params in
    wait_action event_name timeout
      (record b { params = insert (lit "event") (text event_name) with_timeout })

-- The embedded baseAction, through which every kind has its getters.
abbrev pub base : Action → BaseAction
base (base_action b) = b
base (user_action b) = b
base (switch_action expression b) = b
base (delay_action delay b) = b
base (wait_action event timeout b) = b
base (js_action expression b) = b
base (json_map_action b) = b

-- The groups of a next map; a nil map has none.
unfoldable pub branches : NextMap → Map Text (Option (List ℤ))
branches none = []
branches (some m) = m

-- _, ok := nextMap["default"]
has_default : NextMap → Bool
unfolding branches lookup
has_default next = elim (lookup (lit "default") (branches next)) [ none ↦ false | some v ↦ true ]

abbrev is_blank : Text → Bool
is_blank [] = true
is_blank (c ∷ s) = false

abbrev is_nil : {A : Type 0} → List A → Bool
is_nil [] = true
is_nil (x ∷ xs) = false

module _ (lib : Libs) where
  -- The methods Validate.
  unfoldable pub validate : Action → Result (Unit {0})
  unfolding has_default branches
  validate (base_action b) = err (no_implementation b.name)
  validate (user_action b) = ok tt
  validate (switch_action expression b) =
      if is_blank expression
      then err (empty_expression b.id)
      else if lib.json_path_compiles expression
      then if is_nil (branches b.next_map) then err (missing_next b.id) else ok tt
      else err (invalid_expression b.id)
  validate (delay_action delay b) =
      if leb_ℤ delay (pos 0)
      then err (wrong_delay b.id)
      else if has_default b.next_map
      then ok tt
      else err (missing_default b.id)
  validate (wait_action event timeout b) =
      if is_blank event
      then err (missing_event b.id)
      else if has_default b.next_map
      then ok tt
      else err (missing_default b.id)
  validate (js_action expression b) =
      if is_blank expression then err (empty_expression b.id) else ok tt
  validate (json_map_action b) = ok tt

  -- The switch on the kind of value in switchAction.Execute. The cases `int16`, `int32`, `int64`
  -- and `float32` assert another type than the value has, and panic.
  unfoldable pub event_of : Value → Outcome Text
  unfolding itoa truncate
  event_of (int n) = returned (itoa n)
  event_of (sized_int n) = panicked
  event_of (float64 x) = returned (itoa (truncate x))
  event_of (float32 x) = panicked
  event_of (bool true) = returned (lit "true")
  event_of (bool false) = returned (lit "false")
  event_of (string s) = returned s
  event_of (object m) = returned (lit "default")
  event_of (list l) = returned (lit "default")
  event_of nil_list = returned (lit "default")
  event_of null = returned (lit "default")

  -- An event and the output, which may be a nil map; or an error.
  abbrev pub Executed : Type 0
  Executed = Outcome (Result (Text × Option Fields))

  abbrev named : Outcome Text → Executed
  named (returned event) = returned (ok (event, none))
  named panicked = panicked

  -- switchAction.Execute, on what the lookup returned.
  abbrev switch_on : Value × Option Error → Executed
  switch_on (value, some e) = returned (err e)
  switch_on (value, none) = named (event_of value)

  -- jsAction.Execute after the first RunString: the script's `$` is read back.
  abbrev read_back : Text → Result Value → Executed
  read_back script (err e) = returned (err script_failed)
  read_back script (ok v) = elim (lib.run_string (script ∷ []) (lit "$")) [
    | err e ↦ returned (err script_failed)
    | ok exported ↦ elim (lib.marshal exported) [
      | err e ↦ returned (err e)
      | ok res ↦ returned (ok (lit "default", lib.unmarshal res))
    ]
  ]

  -- `data, _ := json.Marshal(...)`: on an error the text is empty.
  abbrev marshalled : Result Text → Text
  marshalled (ok s) = s
  marshalled (err e) = []

  -- The methods Execute.
  unfoldable pub execute : Action → FlowContext → Executed
  unfolding event_of resolve_input_params
  execute (base_action b) ctx = returned (err cannot_execute)
  execute (user_action b) ctx = returned (ok (lit "default", none))
  execute (switch_action expression b) ctx =
      switch_on (lib.json_path_lookup ctx.context_data expression)
  execute (delay_action delay b) ctx = returned (ok (lit "default", none))
  execute (wait_action event timeout b) ctx = returned (ok (lit "default", none))
  execute (js_action expression b) ctx =
      let json = marshalled (lib.marshal (object ctx.context_data)) in
      let script = lit "var $ = " ++ (json ++ (lit ";\n" ++ expression)) in
      read_back script (lib.run_string [] script)
  execute (json_map_action b) ctx = returned (
      ok (
        lit "default",
        some (resolve_input_params lib.json_path_lookup ctx.context_data b.input_params),
      ))
