-- ===== src/Controlplane/Diff/Distinct.antt =====
-- The rules that `Diff` adds have keys of their own.
use sydom.Base.{
  String, ◌≡◌, refl, sym, subst, ◌∙◌, ◌⊎◌, inl, inr, Bool-cases, List, [], ◌∷◌, map, ◌==◌, ==_eq,
  ==_ne, string_eq, In, Option-cases,
}
use sydom.Base.Dict.{Dict, lookup, insert}
use sydom.Kernel.Types.{Rule}
use sydom.Controlplane.Diff.{rule_key, index_rules, missing_from, diff}

-- No two rules have one key.
abbrev pub Apart : List Rule → Type 0
Apart [] = Unit
Apart (r ∷ rs) = (¬ In (rule_key r) (map rule_key rs)) × Apart rs

abbrev key_of : String × Rule → String
key_of e = e.0

-- Each entry stands under the key of its rule, and no key has two entries.
abbrev IsKeyed : Dict String Rule → Type 0
IsKeyed [] = Unit
IsKeyed ((k, r) ∷ m) = (k ≡ rule_key r) × (¬ In k (map key_of m)) × IsKeyed m

keys-insert :
    (k j : String) (r : Rule) (m : Dict String Rule)
    → In k (map key_of (insert j r m))
    → (k ≡ j) ⊎ In k (map key_of m)
unfolding insert
keys-insert k j r [] (inl e) = inl e
keys-insert k j r [] (inr i) = absurd i
keys-insert k j r ((h, s) ∷ m) i = elim (Bool-cases (j == h)) [
  | inl same ↦ elim (rw same at i) [ inl e ↦ inl e | inr i ↦ inr (inr i) ]
  | inr differ ↦ elim (rw differ at i) [
    | inl e ↦ inr (inl e)
    | inr i ↦ elim (keys-insert k j r m i) [ inl e ↦ inl e | inr i ↦ inr (inr i) ]
  ]
]

insert-IsKeyed : (r : Rule) (m : Dict String Rule) → IsKeyed m → IsKeyed (insert (rule_key r) r m)
unfolding insert
insert-IsKeyed r [] h = (refl, λ i. i, tt)
insert-IsKeyed r ((h, s) ∷ m) (named, only, rest) = elim (Bool-cases (rule_key r == h)) [
  | inl same ↦ rw same (refl, subst (λ z. ¬ In z (map key_of m)) (sym (==_eq same)) only, rest)
  | inr differ ↦ rw differ (
    named,
    λ i. elim (keys-insert h (rule_key r) r m i) [ inl e ↦ ==_ne differ (sym e) | inr i ↦ only i ],
    insert-IsKeyed r m rest,
  )
]

index_rules-IsKeyed :
    (rs : List Rule) (m : Dict String Rule) → IsKeyed m → IsKeyed (index_rules rs m)
unfolding index_rules
index_rules-IsKeyed [] m h = h
index_rules-IsKeyed (r ∷ rs) m h =
    index_rules-IsKeyed rs (insert (rule_key r) r m) (insert-IsKeyed r m h)

missing_from-keys :
    (other m : Dict String Rule) (k : String)
    → IsKeyed m
    → In k (map rule_key (missing_from other m))
    → In k (map key_of m)
unfolding missing_from
missing_from-keys other [] k h i = i
missing_from-keys other ((j, r) ∷ m) k (named, only, rest) i =
    elim (Option-cases (lookup j other)) [
      | inl gone ↦ elim (rw (gone, missing_from) at i) [
        | inl e ↦ inl (e ∙ sym named)
        | inr i ↦ inr (missing_from-keys other m k rest i)
      ]
      | inr (s, there) ↦ inr (missing_from-keys other m k rest (rw (there, missing_from) at i))
    ]

missing_from-Apart : (other m : Dict String Rule) → IsKeyed m → Apart (missing_from other m)
unfolding missing_from
missing_from-Apart other [] h = tt
missing_from-Apart other ((j, r) ∷ m) (named, only, rest) = elim (Option-cases (lookup j other)) [
  | inl gone ↦
      rw (gone, missing_from)
        (
          λ i. only (
              subst (λ z. In z (map key_of m)) (sym named)
                (missing_from-keys other m (rule_key r) rest i)),
          missing_from-Apart other m rest,
        )
  | inr (s, there) ↦ rw (there, missing_from) (missing_from-Apart other m rest)
]

pub diff-Apart : (current desired : List Rule) → Apart (diff current desired).0
unfolding diff
diff-Apart current desired =
    missing_from-Apart (index_rules current []) (index_rules desired [])
      (index_rules-IsKeyed desired [] tt)
