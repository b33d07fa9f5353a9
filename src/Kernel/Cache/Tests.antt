-- ===== src/Kernel/Cache/Tests.antt =====
-- A cache for two decisions.
use sydom.Base.{◌≡◌, refl, true, false, [], ◌∷◌, string_eq, arith}
use sydom.Base.Dict.{lookup}
use sydom.Kernel.Cache.{BoundedCache, set, get}
use sydom.Kernel.Cache.Bounded.{IsBounded, Remembers, set-Remembers, Answered, get-Answered}

abbrev full : BoundedCache
full = record { capacity = 2; ll = ("b", false) ∷ ("a", true) ∷ [] }

full-IsBounded : IsBounded full
full-IsBounded = (omega arith, omega arith)

-- The one that was used least recently goes.
evicts : (set "c" true full).ll ≡ ("c", true) ∷ ("b", false) ∷ []
unfolding set lookup string_eq
evicts = refl

set-Remembers_example : Remembers "c" true full (set "c" true full)
set-Remembers_example = set-Remembers "c" true full full-IsBounded

get-Answered_example : Answered "a" full (get "a" full)
get-Answered_example = get-Answered "a" full full-IsBounded
