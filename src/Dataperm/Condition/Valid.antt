-- ===== src/Dataperm/Condition/Valid.antt =====
-- The grammar of condition trees, stated apart from the code that checks it.
use sydom.Base.{
  String, ◌≡◌, refl, sym, ◌∙◌, ◌↔◌, ◌⊎◌, inl, inr, true, false, ok, arith, string_eq, ==_refl,
}
use sydom.Dataperm.Condition.{
  Op, op_and, op_or, op_not, op_eq, op_ne, op_gt, op_ge, op_lt, op_le, op_in, op_not_in, op_like,
  op_not_like, op_is_null, op_is_not_null, op_between, other, Value, nil, arr, Values, done, item,
  Condition, null, node, Children, end, child, is_scalar, is_leaf_op, is_field_name, is_logical_op,
  validate_leaf, value_ok, validate, validate_children,
}

-- The operators that compare a field with one value.
abbrev pub IsComparison : Op → Type 0
IsComparison op_eq = Unit
IsComparison op_ne = Unit
IsComparison op_gt = Unit
IsComparison op_ge = Unit
IsComparison op_lt = Unit
IsComparison op_le = Unit
IsComparison op_like = Unit
IsComparison op_not_like = Unit
IsComparison _ = ⊥

abbrev pub IsScalar : Value → Type 0
IsScalar nil = ⊥
IsScalar (arr vs) = ⊥
IsScalar _ = Unit

-- Which value an operator of a leaf takes.
pub data Fits : Op → Value → Type 0 where
  no_value : {op : Op} {v : Value} → (op ≡ op_is_null) ⊎ (op ≡ op_is_not_null) → v ≡ nil → Fits op v
  some_values :
      {op : Op} {v w : Value} {vs : Values}
      → (op ≡ op_in) ⊎ (op ≡ op_not_in)
      → v ≡ arr (item w vs)
      → Fits op v
  two_values :
      {op : Op} {v lo hi : Value} → op ≡ op_between → v ≡ arr (item lo (item hi done)) → Fits op v
  one_value : {op : Op} {v : Value} → IsComparison op → IsScalar v → Fits op v

mutual
  pub data Valid : Condition → Type 0 where
    both :
        {f : String} {v : Value} {c : Condition} {cs : Children}
        → f ≡ ""
        → v ≡ nil
        → AllValid (child c cs)
        → Valid (node op_and f v (child c cs))
    either :
        {f : String} {v : Value} {c : Condition} {cs : Children}
        → f ≡ ""
        → v ≡ nil
        → AllValid (child c cs)
        → Valid (node op_or f v (child c cs))
    neither :
        {f : String} {v : Value} {c : Condition}
        → f ≡ ""
        → v ≡ nil
        → Valid c
        → Valid (node op_not f v (child c end))
    leaf :
        {op : Op} {f : String} {v : Value} {cs : Children}
        → is_field_name f ≡ true
        → Fits op v
        → Valid (node op f v cs)

  pub data AllValid : Children → Type 0 where
    nothing : AllValid end
    also : {c : Condition} {cs : Children} → Valid c → AllValid cs → AllValid (child c cs)

IsScalar-of_test : (v : Value) → is_scalar v ≡ true → IsScalar v
IsScalar-of_test nil h = cc
IsScalar-of_test (arr vs) h = cc
IsScalar-of_test _ h = tt

value_ok-Fits : (op : Op) (v : Value) → is_leaf_op op ≡ true → value_ok op v ≡ true → Fits op v
unfolding value_ok is_leaf_op
value_ok-Fits op_eq v l h = one_value tt (IsScalar-of_test v h)
value_ok-Fits op_ne v l h = one_value tt (IsScalar-of_test v h)
value_ok-Fits op_gt v l h = one_value tt (IsScalar-of_test v h)
value_ok-Fits op_ge v l h = one_value tt (IsScalar-of_test v h)
value_ok-Fits op_lt v l h = one_value tt (IsScalar-of_test v h)
value_ok-Fits op_le v l h = one_value tt (IsScalar-of_test v h)
value_ok-Fits op_like v l h = one_value tt (IsScalar-of_test v h)
value_ok-Fits op_not_like v l h = one_value tt (IsScalar-of_test v h)
value_ok-Fits op_is_null nil l h = no_value (inl refl) refl
value_ok-Fits op_is_not_null nil l h = no_value (inr refl) refl
value_ok-Fits op_in (arr (item w vs)) l h = some_values (inl refl) refl
value_ok-Fits op_not_in (arr (item w vs)) l h = some_values (inr refl) refl
value_ok-Fits op_between (arr (item lo (item hi done))) l h = two_values refl refl
value_ok-Fits _ _ l h = cc

is_logical_op-leaf : (op : Op) → is_leaf_op op ≡ true → is_logical_op op ≡ false
unfolding is_leaf_op is_logical_op
is_logical_op-leaf op_and h = cc
is_logical_op-leaf op_or h = cc
is_logical_op-leaf op_not h = cc
is_logical_op-leaf _ h = refl

validate-node_leaf :
    (op : Op) (f : String) (v : Value) (cs : Children)
    → is_leaf_op op ≡ true
    → validate (node op f v cs) ≡ validate_leaf op f v
unfolding validate
validate-node_leaf op f v cs l = rw (is_logical_op-leaf op l, l)

leaf_sound :
    (op : Op) (f : String) (v : Value) (cs : Children)
    → is_leaf_op op ≡ true
    → validate (node op f v cs) ≡ ok tt
    → Valid (node op f v cs)
unfolding validate_leaf
leaf_sound op f v cs l h =
    let e : validate_leaf op f v ≡ ok tt = sym (validate-node_leaf op f v cs l) ∙ h in
    leaf (ground arith) (value_ok-Fits op v l (ground arith))

mutual
  unfolding validate

  validate_sound : (c : Condition) → validate c ≡ ok tt → Valid c
  validate_sound null h = cc
  validate_sound (node op_and f v (child c cs)) h =
      both (ground arith) (ground arith) (validate_children_sound (child c cs) (ground arith))
  validate_sound (node op_or f v (child c cs)) h =
      either (ground arith) (ground arith) (validate_children_sound (child c cs) (ground arith))
  validate_sound (node op_not f v (child c end)) h =
      neither (ground arith) (ground arith) (validate_sound c (ground arith))
  validate_sound (node (other s) f v cs) h = cc
  validate_sound (node op_and f v end) h = ground arith
  validate_sound (node op_or f v end) h = ground arith
  validate_sound (node op_not f v end) h = ground arith
  validate_sound (node op_not f v (child c (child d cs))) h = ground arith
  validate_sound (node op f v cs) h = leaf_sound op f v cs refl h

  validate_children_sound : (cs : Children) → validate_children cs ≡ ok tt → AllValid cs
  validate_children_sound end h = nothing
  validate_children_sound (child c cs) h =
      also (validate_sound c (ground arith)) (validate_children_sound cs (ground arith))

IsScalar-test : (v : Value) → IsScalar v → is_scalar v ≡ true
IsScalar-test nil s = absurd s
IsScalar-test (arr vs) s = absurd s
IsScalar-test _ s = refl

one_value-leaf :
    (op : Op) (v : Value)
    → IsComparison op
    → IsScalar v
    → (is_leaf_op op ≡ true) × (value_ok op v ≡ true)
unfolding is_leaf_op value_ok
one_value-leaf op_eq v c s = (refl, IsScalar-test v s)
one_value-leaf op_ne v c s = (refl, IsScalar-test v s)
one_value-leaf op_gt v c s = (refl, IsScalar-test v s)
one_value-leaf op_ge v c s = (refl, IsScalar-test v s)
one_value-leaf op_lt v c s = (refl, IsScalar-test v s)
one_value-leaf op_le v c s = (refl, IsScalar-test v s)
one_value-leaf op_like v c s = (refl, IsScalar-test v s)
one_value-leaf op_not_like v c s = (refl, IsScalar-test v s)
one_value-leaf _ v c s = absurd c

pub Fits-leaf : {op : Op} {v : Value} → Fits op v → (is_leaf_op op ≡ true) × (value_ok op v ≡ true)
unfolding is_leaf_op value_ok
Fits-leaf (no_value (inl e) n) = rw (e, n) (refl, refl)
Fits-leaf (no_value (inr e) n) = rw (e, n) (refl, refl)
Fits-leaf (some_values (inl e) n) = rw (e, n) (refl, refl)
Fits-leaf (some_values (inr e) n) = rw (e, n) (refl, refl)
Fits-leaf (two_values e n) = rw (e, n) (refl, refl)
Fits-leaf (one_value {op} {v} c s) = one_value-leaf op v c s

leaf_complete :
    (op : Op) (f : String) (v : Value) (cs : Children)
    → is_field_name f ≡ true
    → (is_leaf_op op ≡ true) × (value_ok op v ≡ true)
    → validate (node op f v cs) ≡ ok tt
unfolding validate_leaf
leaf_complete op f v cs n (l, fits) = validate-node_leaf op f v cs l ∙ rw (n, fits)

mutual
  unfolding validate

  validate_complete : {c : Condition} → Valid c → validate c ≡ ok tt
  validate_complete (both e n h) = rw (e, n, ==_refl) (validate_children_complete h)
  validate_complete (either e n h) = rw (e, n, ==_refl) (validate_children_complete h)
  validate_complete (neither e n h) = rw (e, n, ==_refl, validate_complete h)
  validate_complete (leaf {op} {f} {v} {cs} n fits) = leaf_complete op f v cs n (Fits-leaf fits)

  validate_children_complete : {cs : Children} → AllValid cs → validate_children cs ≡ ok tt
  validate_children_complete nothing = refl
  validate_children_complete (also h hs) = rw (validate_complete h) (validate_children_complete hs)

-- A condition passes validation exactly when it follows the grammar: logical nodes carry neither
-- field nor value and have the right number of valid children, and a leaf has a word for its
-- field and the kind of value that its operator takes.
pub validate_iff : (c : Condition) → (validate c ≡ ok tt) ↔ Valid c
validate_iff c = (validate_sound c, validate_complete)
