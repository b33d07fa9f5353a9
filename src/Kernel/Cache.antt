-- ===== src/Kernel/Cache.antt =====
-- cache.go: the bounded cache of decisions. The list of the entries, the last used first, stands
-- for both the linked list and the map to its elements, which hold the same keys.
pub mod Bounded
mod Tests
use sydom.Base.{
  ℕ, zero, suc, String, Bool, Option, none, some, List, [], ◌∷◌, Result, ok, err, length, leb,
  string_eq, if◌then◌else◌,
}
use sydom.Base.Int.{ℤ, pos, negsuc, lebℤ}
use sydom.Base.Dict.{Dict, lookup, erase}
use sydom.Errors.{Error, external}

pub record BoundedCache : Type 0 where
  pub capacity : ℕ
  pub ll : Dict String Bool

-- An `int` that is not positive counts as 1.
unfoldable pub new_bounded_cache : ℤ → BoundedCache
new_bounded_cache (pos zero) = record { capacity = 1; ll = [] }
new_bounded_cache (pos (suc n)) = record { capacity = suc n; ll = [] }
new_bounded_cache (negsuc n) = record { capacity = 1; ll = [] }

-- `ll.Remove(ll.Back())`
unfoldable pub drop_back : Dict String Bool → Dict String Bool
drop_back [] = []
drop_back (x ∷ []) = []
drop_back (x ∷ y ∷ xs) = x ∷ drop_back (y ∷ xs)

abbrev with_list : BoundedCache → Dict String Bool → BoundedCache
with_list c l = record c { ll = l }

-- `PushFront`, and the last one dropped where there are too many.
abbrev push_front : ℕ → String × Bool → Dict String Bool → Dict String Bool
push_front capacity x l = if leb (length (x ∷ l)) capacity then x ∷ l else drop_back (x ∷ l)

unfoldable pub set : String → Bool → BoundedCache → BoundedCache
unfolding drop_back
set key value c = elim (lookup key c.ll) [
  | some old ↦ with_list c ((key, value) ∷ erase key c.ll)
  | none ↦ with_list c (push_front c.capacity (key, value) c.ll)
]

abbrev pub no_such_key : Error
no_such_key = external "there's no such key existing in cache"

-- A hit moves the entry to the front.
unfoldable pub get : String → BoundedCache → Result Error Bool × BoundedCache
get key c = elim (lookup key c.ll) [
  | some value ↦ (ok value, with_list c ((key, value) ∷ erase key c.ll))
  | none ↦ (err no_such_key, c)
]

unfoldable pub delete : String → BoundedCache → Option Error × BoundedCache
delete key c = elim (lookup key c.ll) [
  | some value ↦ (none, with_list c (erase key c.ll))
  | none ↦ (some no_such_key, c)
]

unfoldable pub clear : BoundedCache → BoundedCache
clear c = with_list c []
