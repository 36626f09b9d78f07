-- ===== src/Util/ParamResolver.antt =====
-- util/param_resolver.go. The library oliveagle/jsonpath is a parameter: `JsonPathLookup` returns a
-- value and an error, and here the error is not read.
pub mod Lookup
use orchy.Base.{Text, Bool, false, nat_beq, if◌then◌else◌, Option, [], ◌∷◌}
use orchy.Model.{Error}
use orchy.Model.Value.{
  Value, Items, Fields, null, bool, int, sized_int, float64, float32, string, nil_list, list,
  object, nil, cons, end, field, set_field, append_items,
}

-- strings.HasPrefix(v, "$")
unfoldable pub is_reference : Text → Bool
is_reference [] = false
is_reference (c ∷ s) = nat_beq c b'$'

-- A slice that was only appended to is nil while it is empty.
unfoldable pub appended : Items → Value
appended nil = nil_list
appended (cons x xs) = list (cons x xs)

module _ (json_path_lookup : Fields → Text → Value × Option Error) (flow_data : Fields) where
  unfoldable pub resolve_text : Text → Value
  unfolding is_reference
  resolve_text s = if is_reference s then (json_path_lookup flow_data s).0 else string s

  unfoldable mutual
    unfolding resolve_text set_field append_items appended

    -- The loop of resolveParams, over the entries that are left and the output so far.
    pub resolve_params : Fields → Fields → Fields
    resolve_params end output = output
    resolve_params (field k v params) output =
        resolve_params params (set_field k (resolve_value v) output)

    -- The value that resolveParams stores under a key.
    pub resolve_value : Value → Value
    resolve_value (object m) = object (resolve_params m end)
    resolve_value (string s) = resolve_text s
    resolve_value (list l) = appended (resolve_list l)
    resolve_value nil_list = nil_list
    resolve_value null = null
    resolve_value (bool b) = bool b
    resolve_value (int n) = int n
    resolve_value (sized_int n) = sized_int n
    resolve_value (float64 x) = float64 x
    resolve_value (float32 x) = float32 x

    -- resolveList: what an element that is itself a list resolves to is spliced into the output.
    pub resolve_list : Items → Items
    resolve_list nil = nil
    resolve_list (cons v rest) = append_items (resolve_item v) (resolve_list rest)

    -- What resolveList appends for one element.
    pub resolve_item : Value → Items
    resolve_item (object m) = cons (object (resolve_params m end)) nil
    resolve_item (string s) = cons (resolve_text s) nil
    resolve_item (list l) = resolve_list l
    resolve_item nil_list = nil
    resolve_item null = cons null nil
    resolve_item (bool b) = cons (bool b) nil
    resolve_item (int n) = cons (int n) nil
    resolve_item (sized_int n) = cons (sized_int n) nil
    resolve_item (float64 x) = cons (float64 x) nil
    resolve_item (float32 x) = cons (float32 x) nil

  -- ResolveInputParams, on the data of the flow's context.
  unfoldable pub resolve_input_params : Fields → Fields
  unfolding resolve_params
  resolve_input_params input_params = resolve_params input_params end
