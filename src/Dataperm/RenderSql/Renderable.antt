-- ===== src/Dataperm/RenderSql/Renderable.antt =====
-- The trees that the renderer takes without an error: what validation leaves, also after the
-- variables are resolved.
use sydom.Base.{String, ◌≡◌, refl, subst, inl, inr, true, false, ok, >>=-eq-ok, ok-injective}
use sydom.Base.Dict.{Dict}
use sydom.Dataperm.Condition.{
  Op, op_and, op_or, op_not, op_in, op_not_in, op_between, Value, nil, arr, done, item, Condition,
  node, Children, end, child, is_field_name, is_logical_op,
}
use sydom.Dataperm.Condition.Valid.{
  Valid, AllValid, Fits, no_value, some_values, two_values, one_value, IsComparison,
}
use sydom.Dataperm.Filter.{
  resolve_value, resolve_values, resolve_leaf, resolve_vars, resolve_children,
}

-- The shape that an operator needs: IN and NOT IN a list, BETWEEN two values.
abbrev pub Shaped : Op → Value → Type 0
Shaped op_and v = ⊥
Shaped op_or v = ⊥
Shaped op_not v = ⊥
Shaped op_in (arr vs) = Unit
Shaped op_in _ = ⊥
Shaped op_not_in (arr vs) = Unit
Shaped op_not_in _ = ⊥
Shaped op_between (arr (item lo (item hi done))) = Unit
Shaped op_between _ = ⊥
Shaped _ v = Unit

mutual
  pub data Renderable : Condition → Type 0 where
    both :
        {f : String} {v : Value} {cs : Children}
        → AllRenderable cs
        → Renderable (node op_and f v cs)
    either :
        {f : String} {v : Value} {cs : Children} → AllRenderable cs → Renderable (node op_or f v cs)
    neither :
        {f : String} {v : Value} {c : Condition}
        → Renderable c
        → Renderable (node op_not f v (child c end))
    leaf :
        {op : Op} {f : String} {v : Value} {cs : Children}
        → is_field_name f ≡ true
        → Shaped op v
        → Renderable (node op f v cs)

  pub data AllRenderable : Children → Type 0 where
    nothing : AllRenderable end
    also :
        {c : Condition} {cs : Children}
        → Renderable c
        → AllRenderable cs
        → AllRenderable (child c cs)

Shaped-of_comparison : (op : Op) (v : Value) → IsComparison op → Shaped op v
Shaped-of_comparison op_and v c = c
Shaped-of_comparison op_or v c = c
Shaped-of_comparison op_not v c = c
Shaped-of_comparison op_in v c = absurd c
Shaped-of_comparison op_not_in v c = absurd c
Shaped-of_comparison op_between v c = absurd c
Shaped-of_comparison _ v c = tt

Fits-Shaped : {op : Op} {v : Value} → Fits op v → Shaped op v
Fits-Shaped (no_value (inl e) n) = rw e tt
Fits-Shaped (no_value (inr e) n) = rw e tt
Fits-Shaped (some_values (inl e) n) = rw (e, n) tt
Fits-Shaped (some_values (inr e) n) = rw (e, n) tt
Fits-Shaped (two_values e n) = rw (e, n) tt
Fits-Shaped (one_value {op} {v} c s) = Shaped-of_comparison op v c

mutual
  pub Valid-Renderable : {c : Condition} → Valid c → Renderable c
  Valid-Renderable (Valid.both e n h) = both (AllValid-AllRenderable h)
  Valid-Renderable (Valid.either e n h) = either (AllValid-AllRenderable h)
  Valid-Renderable (Valid.neither e n h) = neither (Valid-Renderable h)
  Valid-Renderable (Valid.leaf w fits) = leaf w (Fits-Shaped fits)

  AllValid-AllRenderable : {cs : Children} → AllValid cs → AllRenderable cs
  AllValid-AllRenderable AllValid.nothing = nothing
  AllValid-AllRenderable (AllValid.also h hs) =
      also (Valid-Renderable h) (AllValid-AllRenderable hs)

pub Shaped-resolve_value :
    (attrs : Dict String Value) (op : Op) (v : Value) {w : Value}
    → Shaped op v
    → resolve_value attrs v ≡ ok w
    → Shaped op w
unfolding resolve_value
Shaped-resolve_value attrs op_and v s h = absurd s
Shaped-resolve_value attrs op_or v s h = absurd s
Shaped-resolve_value attrs op_not v s h = absurd s
Shaped-resolve_value attrs op_in (arr vs) s h =
    let (ws, each, e) = >>=-eq-ok (resolve_values attrs vs) _ h in
    subst (Shaped op_in) (ok-injective e) tt
Shaped-resolve_value attrs op_not_in (arr vs) s h =
    let (ws, each, e) = >>=-eq-ok (resolve_values attrs vs) _ h in
    subst (Shaped op_not_in) (ok-injective e) tt
Shaped-resolve_value attrs op_between (arr (item lo (item hi done))) s h =
    let (ws, each, e) = >>=-eq-ok (resolve_values attrs (item lo (item hi done))) _ h in
    let (a, first, more) = >>=-eq-ok (resolve_value attrs lo) _ each in
    let (bs, second, e') = >>=-eq-ok (resolve_values attrs (item hi done)) _ more in
    let (b, third, e'') = >>=-eq-ok (resolve_value attrs hi) _ second in
    subst (Shaped op_between) (ok-injective e) (
      subst (λ vs. Shaped op_between (arr vs)) (ok-injective e')
        (subst (λ vs. Shaped op_between (arr (item a vs))) (ok-injective e'') tt))
Shaped-resolve_value attrs op_in _ s h = absurd s
Shaped-resolve_value attrs op_not_in _ s h = absurd s
Shaped-resolve_value attrs op_between _ s h = absurd s
Shaped-resolve_value attrs _ v s h = tt

pub Shaped-not_logical : (op : Op) (v : Value) → Shaped op v → is_logical_op op ≡ false
unfolding is_logical_op
Shaped-not_logical op_and v s = absurd s
Shaped-not_logical op_or v s = absurd s
Shaped-not_logical op_not v s = absurd s
Shaped-not_logical _ v s = refl

module _ (attrs : Dict String Value) where
  resolve_leaf-Renderable :
      (op : Op) (f : String) (v : Value) {d : Condition}
      → is_field_name f ≡ true
      → Shaped op v
      → resolve_leaf attrs op f v ≡ ok d
      → Renderable d
  unfolding resolve_leaf
  resolve_leaf-Renderable op f v w s e =
      let (x, resolved, same) = >>=-eq-ok (resolve_value attrs v) _ e in
      subst Renderable (ok-injective same) (leaf w (Shaped-resolve_value attrs op v s resolved))

  mutual
    unfolding resolve_vars

    -- The variables are resolved into a tree that can be rendered too.
    pub resolve_vars-Renderable :
        {c d : Condition} → Renderable c → resolve_vars attrs c ≡ ok d → Renderable d
    resolve_vars-Renderable (both {cs} h) e =
        let (ds, each, same) =
          >>=-eq-ok (resolve_children attrs cs) (λ ds. ok (node op_and "" nil ds)) e in
        subst Renderable (ok-injective same)
          (both {f = ""} {v = nil} (resolve_children-AllRenderable h each))
    resolve_vars-Renderable (either {cs} h) e =
        let (ds, each, same) =
          >>=-eq-ok (resolve_children attrs cs) (λ ds. ok (node op_or "" nil ds)) e in
        subst Renderable (ok-injective same)
          (either {f = ""} {v = nil} (resolve_children-AllRenderable h each))
    resolve_vars-Renderable (neither {c} h) e =
        let (ds, each, same) = >>=-eq-ok (resolve_children attrs (child c end)) _ e in
        let (d, below, more) = >>=-eq-ok (resolve_vars attrs c) _ each in
        subst Renderable (ok-injective same) (
          subst (λ ds. Renderable (node op_not "" nil ds)) (ok-injective more)
            (neither (resolve_vars-Renderable h below)))
    resolve_vars-Renderable (leaf {op} {f} {v} w s) e =
        resolve_leaf-Renderable op f v w s (rw (Shaped-not_logical op v s, resolve_vars) at e)

    resolve_children-AllRenderable :
        {cs ds : Children} → AllRenderable cs → resolve_children attrs cs ≡ ok ds → AllRenderable ds
    resolve_children-AllRenderable nothing e = subst AllRenderable (ok-injective e) nothing
    resolve_children-AllRenderable (also {c} {cs} h hs) e =
        let (d, now, more) = >>=-eq-ok (resolve_vars attrs c) _ e in
        let (ds, after, same) = >>=-eq-ok (resolve_children attrs cs) _ more in
        subst AllRenderable (ok-injective same)
          (also (resolve_vars-Renderable h now) (resolve_children-AllRenderable hs after))
