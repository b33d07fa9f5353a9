-- ===== src/Controlplane/Manager.antt =====
-- policy/manager.go: the changes that the writes of data policies send out. The transaction around
-- them is Controlplane.Writes.
pub mod Deletion
mod Tests
use sydom.Base.{String, Bool, List, [], ◌∷◌, ◌==◌, string_eq, if◌then◌else◌}
use sydom.Base.Int.{ℤ, pos}
use sydom.Kernel.Types.{change_add, change_update, change_remove}
use sydom.Controlplane.Types.{DataPolicy, DataPolicyChange}

-- What `UpsertDataPolicy` sends, from what the store answered: the identifier, and whether it is
-- new.
unfoldable pub upsert_changes : DataPolicy → ℤ → Bool → List DataPolicyChange
upsert_changes p id created =
    let effect = if p.effect == "" then "allow" else p.effect in
    record {
      op = if created then change_add else change_update;
      policy = record p { id = id; effect = effect };
    }
    ∷ []

-- What `DeleteDataPolicy` sends: `cp.DataPolicy{ID: dataPolicyID}`.
unfoldable pub delete_changes : ℤ → List DataPolicyChange
delete_changes id =
    record {
      op = change_remove;
      policy = record {
        id = id;
        subject_type = "";
        subject_id = "";
        resource = "";
        condition = "";
        effect = "";
        description = "";
      };
    }
    ∷ []
