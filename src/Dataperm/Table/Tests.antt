-- ===== src/Dataperm/Table/Tests.antt =====
-- The operations on the table of the example.
use sydom.Base.{◌≡◌, refl, false, List, [], ◌∷◌, ok, string_eq, nat_eq, any, ◌==◌}
use sydom.Base.Dict.{lookup, insert, erase}
use sydom.Kernel.Types.{DataPolicy, change_remove, change_update}
use sydom.Dataperm.Condition.{parse_condition}
use sydom.Dataperm.Table.{Stored, Table, bucket, find, apply_change}
use sydom.Dataperm.Table.Invariant.{IsWellFormed, apply_change-IsWellFormed}
use sydom.Dataperm.Table.Buckets.{
  bucket_of, policies_of, stored_all, find-apply_snapshot, Changed, bucket-apply_change,
  apply_change-remove_absent,
}
use sydom.Dataperm.Example.{
  read_json, owners, own_stored, secret_stored, policies, docs, docs_loaded, docs-IsWellFormed,
}

-- The policy of the owners, moved to another resource.
abbrev moved : DataPolicy
moved = record owners { resource = "file" }

abbrev after_move : Table
after_move = ("doc", own_stored ∷ secret_stored ∷ []) ∷ ("file", own_stored ∷ []) ∷ []

update_moved : apply_change read_json change_update moved docs ≡ ok after_move
unfolding apply_change string_eq nat_eq lookup insert erase parse_condition
update_moved = refl

-- A deletion that names no resource.
abbrev nameless : DataPolicy
nameless = record owners { resource = "" }

remove_nameless : apply_change read_json change_remove nameless docs ≡ ok docs
unfolding apply_change string_eq nat_eq lookup insert erase
remove_nameless = refl

none_nameless : any (λ s. s.id == nameless.id) (bucket "" docs) ≡ false
unfolding string_eq lookup nat_eq
none_nameless = refl

apply_change-IsWellFormed_example : IsWellFormed after_move
apply_change-IsWellFormed_example =
    apply_change-IsWellFormed read_json change_update moved docs docs-IsWellFormed update_moved

find-apply_snapshot_example :
    (ss : List Stored) × (stored_all read_json (policies_of "doc" policies) ≡ ok ss)
    × (find "doc" docs ≡ bucket_of ss)
find-apply_snapshot_example = find-apply_snapshot read_json policies [] "doc" docs_loaded

bucket-apply_change_example :
    Changed read_json change_update moved "doc" (bucket "doc" docs) (bucket "doc" after_move)
bucket-apply_change_example =
    bucket-apply_change read_json change_update moved docs "doc" update_moved

apply_change-remove_absent_example : find "doc" docs ≡ find "doc" docs
apply_change-remove_absent_example =
    apply_change-remove_absent read_json nameless docs "doc" docs-IsWellFormed none_nameless
      remove_nameless
