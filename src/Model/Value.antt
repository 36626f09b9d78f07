-- ===== src/Model/Value.antt =====
-- What `encoding/json` and the workers put into an empty interface, and the maps of such values.
use orchy.Base.{
  ℕ, ◌^◌, ◌*◌, ◌/◌, ℤ, pos, negsuc, pos_part, neg_part, ltb, Bool, true, false, ◌&&◌, Text, Option,
  none, some, ◌==◌, text_eq, if◌then◌else◌, ◌≡◌, refl, arith, text_beq_iff, ◌-◌,
}

-- A float is (-1)^negative * mantissa * 2^exponent; JSON has no infinities.
pub record Float : Type 0 where
  pub negative : Bool
  pub mantissa : ℕ
  pub exponent : ℤ

mutual
  -- `sized_int` is an int16, int32 or int64; `object` a map[string]any; `list` a []any, and
  -- `nil_list` one that is nil.
  pub data Value : Type 0 where
    null : Value
    bool : Bool → Value
    int : ℤ → Value
    sized_int : ℤ → Value
    float64 : Float → Value
    float32 : Float → Value
    string : Text → Value
    nil_list : Value
    list : Items → Value
    object : Fields → Value

  pub data Items : Type 0 where
    nil : Items
    cons : Value → Items → Items

  pub data Fields : Type 0 where
    end : Fields
    field : Text → Value → Fields → Fields

-- append(xs, ys...)
unfoldable pub append_items : Items → Items → Items
append_items nil ys = ys
append_items (cons x xs) ys = cons x (append_items xs ys)

-- v, ok := m[k]
unfoldable pub get_field : Text → Fields → Option Value
get_field k end = none
get_field k (field j v m) = if j == k then some v else get_field k m

-- m[k] = v
unfoldable pub set_field : Text → Value → Fields → Fields
set_field k v end = field k v end
set_field k v (field j w m) = if j == k then field k v m else field j w (set_field k v m)

-- len(m) > 0
unfoldable pub has_fields : Fields → Bool
has_fields end = false
has_fields (field k v m) = true

pub get_field-set_field :
    (k j : Text) (v : Value) (m : Fields)
    → get_field j (set_field k v m) ≡ (if k == j then some v else get_field j m)
unfolding get_field set_field
get_field-set_field k j v end = refl
get_field-set_field k j v (field i w m) =
    ground
      (arith, text_beq_iff k j, text_beq_iff i k, text_beq_iff i j, get_field-set_field k j v m)

-- int(f): the fraction is cut off. Exact where the result fits in 63 bits.
unfoldable pub truncate : Float → ℤ
truncate f =
    let magnitude = f.mantissa * 2 ^ pos_part f.exponent / 2 ^ neg_part f.exponent in
    if f.negative && ltb 0 magnitude then negsuc (magnitude - 1) else pos magnitude
