-- ===== src/Controlplane/Diff/Tests.antt =====
-- The difference of the example.
use sydom.Base.{◌≡◌, refl, ◌↔◌, [], ◌∷◌, In, string_eq}
use sydom.Base.Dict.{lookup, insert}
use sydom.Kernel.Engine.Example.{reader, writer}
use sydom.Controlplane.Diff.{diff}
use sydom.Controlplane.Diff.Membership.{diff_iff}
use sydom.Controlplane.Diff.Example.{current_rules, desired_rules, current-IsPlain, desired-IsPlain}

one_each : diff current_rules desired_rules ≡ (writer ∷ [], reader ∷ [])
unfolding diff string_eq lookup insert
one_each = refl

diff_iff_example :
    (In writer (diff current_rules desired_rules).0
      ↔ (In writer desired_rules × ¬ In writer current_rules))
    × (In writer (diff current_rules desired_rules).1
        ↔ (In writer current_rules × ¬ In writer desired_rules))
diff_iff_example = diff_iff current_rules desired_rules current-IsPlain desired-IsPlain writer
