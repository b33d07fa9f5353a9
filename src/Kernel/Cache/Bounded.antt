-- ===== src/Kernel/Cache/Bounded.antt =====
-- The cache stays within its capacity, and answers what was set last.
use sydom.Base.{
  ℕ, suc, ◌≤◌, String, ◌≡◌, ◌≢◌, ◌↔◌, refl, sym, ap, ◌∙◌, subst, inl, inr, Bool, none, some, [],
  ◌∷◌, Result, ok, err, length, ◌==◌, string_eq, Option-cases, arith, if◌then◌else◌,
}
use sydom.Base.Dict.{Dict, lookup, erase, lookup-erase}
use sydom.Errors.{Error}
use sydom.Kernel.Cache.{
  BoundedCache, with_list, drop_back, push_front, no_such_key, set, get, delete,
}

-- There is room for one entry at least, and no more entries than there is room for.
abbrev pub IsBounded : BoundedCache → Type 0
IsBounded c = (1 ≤ c.capacity) × (length c.ll ≤ c.capacity)

length-erase : (k : String) (l : Dict String Bool) → length (erase k l) ≤ length l
unfolding erase
length-erase k [] = omega arith
length-erase k ((j, v) ∷ l) = ground (arith, length-erase k l)

length-erase_found :
    (k : String) (l : Dict String Bool) (v : Bool)
    → lookup k l ≡ some v
    → suc (length (erase k l)) ≤ length l
unfolding erase lookup
length-erase_found k [] v h = cc
length-erase_found k ((j, w) ∷ l) v h = ground (arith, length-erase_found k l v, length-erase k l)

length-drop_back :
    (x : String × Bool) (l : Dict String Bool) → length (drop_back (x ∷ l)) ≡ length l
unfolding drop_back
length-drop_back x [] = refl
length-drop_back x (y ∷ l) = ap suc (length-drop_back y l)

length-push_front :
    (n : ℕ) (x : String × Bool) (l : Dict String Bool)
    → length l ≤ n
    → length (push_front n x l) ≤ n
length-push_front n x l h = ground (arith, length-drop_back x l)

set_known :
    (k : String) (v w : Bool) (c : BoundedCache)
    → lookup k c.ll ≡ some w
    → set k v c ≡ with_list c ((k, v) ∷ erase k c.ll)
unfolding set
set_known k v w c h = rw (h, set) refl

set_new :
    (k : String) (v : Bool) (c : BoundedCache)
    → lookup k c.ll ≡ none
    → set k v c ≡ with_list c (push_front c.capacity (k, v) c.ll)
unfolding set
set_new k v c h = rw (h, set) refl

-- What is found in a list whose last entry was dropped was there before.
lookup-drop_back :
    (j : String) (l : Dict String Bool) (b : Bool)
    → lookup j (drop_back l) ≡ some b
    → lookup j l ≡ some b
unfolding lookup drop_back
lookup-drop_back j [] b h = h
lookup-drop_back j (x ∷ []) b h = cc
lookup-drop_back j (x ∷ y ∷ l) b h = ground (arith, lookup-drop_back j (y ∷ l) b)

lookup-push_front :
    (n : ℕ) (j k : String) (v : Bool) (l : Dict String Bool) (b : Bool)
    → j ≢ k
    → lookup j (push_front n (k, v) l) ≡ some b
    → lookup j l ≡ some b
unfolding lookup
lookup-push_front n j k v l b differ h = ground (arith, lookup-drop_back j ((k, v) ∷ l) b)

lookup-drop_back_first :
    (k : String) (v : Bool) (l : Dict String Bool)
    → 1 ≤ length l
    → lookup k (drop_back ((k, v) ∷ l)) ≡ some v
unfolding lookup drop_back
lookup-drop_back_first k v [] h = absurd (omega arith)
lookup-drop_back_first k v (y ∷ l) h = ground arith

lookup-push_front_first :
    (n : ℕ) (k : String) (v : Bool) (l : Dict String Bool)
    → 1 ≤ n
    → lookup k (push_front n (k, v) l) ≡ some v
unfolding lookup
lookup-push_front_first n k v l h = ground (arith, lookup-drop_back_first k v l)

-- What a `Set` is to do with the entries.
abbrev pub Remembers : String → Bool → BoundedCache → BoundedCache → Type 0
Remembers k v c c' =
    IsBounded c'
    × (lookup k c'.ll ≡ some v)
    × ((j : String) (b : Bool) → j ≢ k → lookup j c'.ll ≡ some b → lookup j c.ll ≡ some b)

-- A `Set` on a cache within its capacity leaves one within it that has the new value, and for
-- every other key the value that was there, if it has any.
pub set-Remembers :
    (k : String) (v : Bool) (c : BoundedCache) → IsBounded c → Remembers k v c (set k v c)
unfolding lookup
set-Remembers k v c (room, bound) = elim (Option-cases (lookup k c.ll)) [
  | inl fresh ↦ subst (Remembers k v c) (sym (set_new k v c fresh)) (
    (room, length-push_front c.capacity (k, v) c.ll bound),
    lookup-push_front_first c.capacity k v c.ll room,
    λ j b differ found. lookup-push_front c.capacity j k v c.ll b differ found,
  )
  | inr (w, known) ↦ subst (Remembers k v c) (sym (set_known k v w c known)) (
    (room, omega (arith, length-erase_found k c.ll w known)),
    ground arith,
    λ j b differ found. ground (arith, lookup-erase j k c.ll),
  )
]

get_known :
    (k : String) (w : Bool) (c : BoundedCache)
    → lookup k c.ll ≡ some w
    → get k c ≡ (ok w, with_list c ((k, w) ∷ erase k c.ll))
unfolding get
get_known k w c h = rw (h, get) refl

get_missing :
    (k : String) (c : BoundedCache) → lookup k c.ll ≡ none → get k c ≡ (err no_such_key, c)
unfolding get
get_missing k c h = rw (h, get) refl

-- The answer is what the cache has for the key, the cache stays within its capacity, and the value
-- of no key changes.
abbrev pub Answered : String → BoundedCache → Result Error Bool × BoundedCache → Type 0
Answered k c (m, c') =
    IsBounded c'
    × ((b : Bool) → (m ≡ ok b) ↔ (lookup k c.ll ≡ some b))
    × ((j : String) → lookup j c'.ll ≡ lookup j c.ll)

-- A `Get` answers what the cache has for the key; the cache stays within its capacity, and the
-- value of no key changes.
pub get-Answered : (k : String) (c : BoundedCache) → IsBounded c → Answered k c (get k c)
unfolding lookup
get-Answered k c (room, bound) = elim (Option-cases (lookup k c.ll)) [
  | inl missing ↦
      subst (Answered k c) (sym (get_missing k c missing))
        ((room, bound), λ b. (λ h. cc, λ h. absurd (clash b h missing)), λ j. refl)
  | inr (w, known) ↦ subst (Answered k c) (sym (get_known k w c known)) (
    (room, omega (arith, length-erase_found k c.ll w known)),
    λ b. (λ h. ground (arith, known), λ h. ground (arith, known)),
    λ j. ground (arith, known, lookup-erase j k c.ll),
  )
]
  where
    clash : (b : Bool) → lookup k c.ll ≡ some b → lookup k c.ll ≡ none → ⊥
    clash b h m = let e = sym h ∙ m in cc

-- A `Delete` forgets the key and no other.
pub lookup-delete :
    (j k : String) (c : BoundedCache)
    → lookup j (delete k c).1.ll ≡ (if j == k then none else lookup j c.ll)
unfolding delete
lookup-delete j k c = elim (Option-cases (lookup k c.ll)) [
  | inl missing ↦ rw (missing, delete) (ground arith)
  | inr (w, known) ↦ rw (known, delete) (lookup-erase j k c.ll)
]
