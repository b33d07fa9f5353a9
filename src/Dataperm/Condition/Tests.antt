-- ===== src/Dataperm/Condition/Tests.antt =====
-- Conditions that pass and conditions that do not.
use sydom.Base.{◌≡◌, refl, ◌↔◌, ok, err, string_eq}
use sydom.Errors.{panic, invalid_policy}
use sydom.Dataperm.Condition.{
  op_and, op_not, op_between, nil, num, arr, done, item, Condition, null, node, end, child,
  validate,
}
use sydom.Dataperm.Condition.Valid.{Valid, validate_iff}
use sydom.Dataperm.Condition.Panics.{ReachesNull, validate-panic_iff}

abbrev adults : Condition
adults =
    node op_and "" nil
      (child (node op_between "age" (arr (item (num 18) (item (num 99) done))) end) end)

-- `{"op": "not", "children": [null]}`
abbrev not_null : Condition
not_null = node op_not "" nil (child null end)

no_children : validate (node op_and "" nil end) ≡ err invalid_policy
unfolding validate string_eq
no_children = refl

validate_iff_example : (validate adults ≡ ok tt) ↔ Valid adults
validate_iff_example = validate_iff adults

validate-panic_iff_example : (validate not_null ≡ err panic) ↔ ReachesNull not_null
validate-panic_iff_example = validate-panic_iff not_null
