-- ===== src/Dataperm/Condition.antt =====
-- condition.go: condition trees and their validation.
pub mod Valid
pub mod Panics
mod Tests
use Prim.Native.Char.{code}
use sydom.Base.{
  ℕ, String, ◌≡◌, Bool, true, false, ◌&&◌, ◌||◌, Option, none, some, List, [], ◌∷◌, Result, ok, err,
  ◌>>=◌, ◌>>◌, require, ◌==◌, string_eq, if◌then◌else◌,
}
use sydom.Base.Text.{is_word_start, all_words}
use sydom.Errors.{Error, invalid_policy, panic}

-- The string constants OpAnd, OpOr, …; any other string is `other`.
pub data Op : Type 0 where
  op_and op_or op_not : Op
  op_eq op_ne op_gt op_ge op_lt op_le op_in op_not_in op_like op_not_like : Op
  op_is_null op_is_not_null op_between : Op
  other : String → Op

-- What `encoding/json` puts into an `any`. A float64 is carried, never computed with, and so is
-- its bit pattern here.
mutual
  pub data Value : Type 0 where
    nil : Value
    bool : Bool → Value
    num : ℕ → Value
    str : String → Value
    arr : Values → Value
    obj : Members → Value

  pub data Values : Type 0 where
    done : Values
    item : Value → Values → Values

  pub data Members : Type 0 where
    no_member : Members
    member : String → Value → Members → Members

-- A `*Condition`: `null` is the nil pointer, which JSON's `null` among the children becomes.
mutual
  pub data Condition : Type 0 where
    null : Condition
    node : Op → String → Value → Children → Condition

  pub data Children : Type 0 where
    end : Children
    child : Condition → Children → Children

unfoldable pub is_logical_op : Op → Bool
is_logical_op op_and = true
is_logical_op op_or = true
is_logical_op op_not = true
is_logical_op _ = false

unfoldable pub is_leaf_op : Op → Bool
is_leaf_op op_and = false
is_leaf_op op_or = false
is_leaf_op op_not = false
is_leaf_op (other s) = false
is_leaf_op _ = true

abbrev pub is_nil : Value → Bool
is_nil nil = true
is_nil _ = false

-- `c.Value == nil` fails, and so does an array.
abbrev pub is_scalar : Value → Bool
is_scalar nil = false
is_scalar (arr vs) = false
is_scalar _ = true

-- `^[A-Za-z_][A-Za-z0-9_]*$`
unfoldable pub is_field_name : String → Bool
is_field_name String.[] = false
is_field_name (String.◌∷◌ c s) = is_word_start (code c) && all_words s

-- The value's test after its field's: `arr, ok := c.Value.([]any)` and the lengths.
unfoldable pub value_ok : Op → Value → Bool
value_ok op_is_null v = is_nil v
value_ok op_is_not_null v = is_nil v
value_ok op_in (arr (item v vs)) = true
value_ok op_in _ = false
value_ok op_not_in (arr (item v vs)) = true
value_ok op_not_in _ = false
value_ok op_between (arr (item v (item w done))) = true
value_ok op_between _ = false
value_ok _ v = is_scalar v

unfoldable pub validate_leaf : Op → String → Value → Result Error (Unit {0})
unfolding is_field_name value_ok
validate_leaf op field value = do
  require (is_field_name field) invalid_policy
  require (value_ok op value) invalid_policy

-- How many children a logical node may have.
unfoldable pub arity_ok : Op → Children → Bool
arity_ok op_not (child c end) = true
arity_ok op_not _ = false
arity_ok _ end = false
arity_ok _ (child c cs) = true

unfoldable mutual
  unfolding is_logical_op is_leaf_op validate_leaf arity_ok

  pub validate : Condition → Result Error (Unit {0})
  validate null = err panic
  validate (node op field value children) =
      let below = validate_children children in
      if is_logical_op op
      then (require (field == "" && is_nil value) invalid_policy
          >> (require (arity_ok op children) invalid_policy >> below))
      else if is_leaf_op op
      then validate_leaf op field value
      else err invalid_policy

  pub validate_children : Children → Result Error (Unit {0})
  validate_children end = ok tt
  validate_children (child c cs) = validate c >> validate_children cs

-- `unmarshal` is `json.Unmarshal` into a Condition, `none` where it fails.
module _ (unmarshal : String → Option Condition) where
  unfoldable pub parse_condition : String → Result Error Condition
  unfolding validate
  parse_condition raw = elim (unmarshal raw) [
    | none ↦ err invalid_policy
    | some c ↦ validate c >> ok c
  ]

  unfoldable pub validate_condition : String → Result Error (Unit {0})
  unfolding parse_condition
  validate_condition raw = parse_condition raw >>= λ _. ok tt
