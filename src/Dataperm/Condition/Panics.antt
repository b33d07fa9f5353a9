-- ===== src/Dataperm/Condition/Panics.antt =====
-- A nil child, which JSON's `null` among the children becomes, is dereferenced by `validate`.
use sydom.Base.{String, ◌≡◌, refl, ◌↔◌, true, err, arith, string_eq, ==_refl, >>-eq-err, inl, inr}
use sydom.Errors.{panic}
use sydom.Dataperm.Condition.{
  Op, Value, nil, Condition, null, node, Children, end, child, is_logical_op, arity_ok, validate,
  validate_children, validate_leaf,
}
use sydom.Dataperm.Condition.Valid.{Valid, validate_iff}

-- Validation comes to a nil pointer: all that stands before it is valid.
mutual
  pub data ReachesNull : Condition → Type 0 where
    here : ReachesNull null
    under :
        {op : Op} {f : String} {v : Value} {cs : Children}
        → is_logical_op op ≡ true
        → f ≡ ""
        → v ≡ nil
        → arity_ok op cs ≡ true
        → ReachesNullIn cs
        → ReachesNull (node op f v cs)

  pub data ReachesNullIn : Children → Type 0 where
    first : {c : Condition} {cs : Children} → ReachesNull c → ReachesNullIn (child c cs)
    later :
        {c : Condition} {cs : Children} → Valid c → ReachesNullIn cs → ReachesNullIn (child c cs)

-- What a panic below a node says of the node.
panic_under :
    (op : Op) (f : String) (v : Value) (cs : Children)
    → validate (node op f v cs) ≡ err panic
    → (is_logical_op op ≡ true)
      × (f ≡ "")
      × (v ≡ nil)
      × (arity_ok op cs ≡ true)
      × (validate_children cs ≡ err panic)
unfolding validate validate_leaf
panic_under op f v cs h = ground arith

mutual
  unfolding validate

  panic_sound : (c : Condition) → validate c ≡ err panic → ReachesNull c
  panic_sound null h = here
  panic_sound (node op f v cs) h =
      let (l, e, n, a, below) = panic_under op f v cs h in under l e n a (panic_in_sound cs below)

  panic_in_sound : (cs : Children) → validate_children cs ≡ err panic → ReachesNullIn cs
  panic_in_sound end h = cc
  panic_in_sound (child c cs) h = elim (>>-eq-err (validate c) (validate_children cs) h) [
    | inl now ↦ first (panic_sound c now)
    | inr (fine, after) ↦ later ((validate_iff c).0 fine) (panic_in_sound cs after)
  ]

mutual
  unfolding validate

  panic_complete : {c : Condition} → ReachesNull c → validate c ≡ err panic
  panic_complete here = refl
  panic_complete (under l e n a below) = rw (l, e, n, a, ==_refl) (panic_in_complete below)

  panic_in_complete : {cs : Children} → ReachesNullIn cs → validate_children cs ≡ err panic
  panic_in_complete (first r) = rw (panic_complete r)
  panic_in_complete (later {c} h r) = rw ((validate_iff c).1 h) (panic_in_complete r)

-- The check of a condition panics exactly when it reaches a nil child.
pub validate-panic_iff : (c : Condition) → (validate c ≡ err panic) ↔ ReachesNull c
validate-panic_iff c = (panic_sound c, panic_complete)
