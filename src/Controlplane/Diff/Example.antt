-- ===== src/Controlplane/Diff/Example.antt =====
-- Rules without the separator, found so by a test.
use Prim.Native.Char.{code}
use sydom.Base.{String, ◌≡◌, refl, Bool, true, ◌&&◌, List, [], ◌∷◌, ◌==◌, nat_eq, All, arith, not}
use sydom.Kernel.Types.{Rule}
use sydom.Kernel.Engine.Example.{reader, writer, member}
use sydom.Controlplane.Diff.Keys.{NoSeparator, IsPlain}

abbrev is_clean : String → Bool
is_clean String.[] = true
is_clean (String.◌∷◌ c s) = not (code c == 0x1f) && is_clean s

is_clean-NoSeparator : (s : String) → is_clean s ≡ true → NoSeparator s
is_clean-NoSeparator String.[] h = tt
is_clean-NoSeparator (String.◌∷◌ c s) h = (λ e. ground arith, is_clean-NoSeparator s (ground arith))

pub reader-IsPlain : IsPlain reader
unfolding nat_eq
reader-IsPlain = record {
  in_ptype = is_clean-NoSeparator "p" refl;
  in_v0 = is_clean-NoSeparator "staff" refl;
  in_v1 = is_clean-NoSeparator "app" refl;
  in_v2 = is_clean-NoSeparator "doc" refl;
  in_v3 = is_clean-NoSeparator "read" refl;
  in_v4 = is_clean-NoSeparator "allow" refl;
}

pub writer-IsPlain : IsPlain writer
unfolding nat_eq
writer-IsPlain = record {
  in_ptype = is_clean-NoSeparator "p" refl;
  in_v0 = is_clean-NoSeparator "staff" refl;
  in_v1 = is_clean-NoSeparator "app" refl;
  in_v2 = is_clean-NoSeparator "doc" refl;
  in_v3 = is_clean-NoSeparator "write" refl;
  in_v4 = is_clean-NoSeparator "allow" refl;
}

pub member-IsPlain : IsPlain member
unfolding nat_eq
member-IsPlain = record {
  in_ptype = is_clean-NoSeparator "g" refl;
  in_v0 = is_clean-NoSeparator "bob" refl;
  in_v1 = is_clean-NoSeparator "staff" refl;
  in_v2 = is_clean-NoSeparator "app" refl;
  in_v3 = is_clean-NoSeparator "" refl;
  in_v4 = is_clean-NoSeparator "" refl;
}

-- The member stays, and the reader becomes a writer.
abbrev pub current_rules : List Rule
current_rules = reader ∷ member ∷ []

abbrev pub desired_rules : List Rule
desired_rules = member ∷ writer ∷ []

pub current-IsPlain : All IsPlain current_rules
current-IsPlain = (reader-IsPlain, (member-IsPlain, tt))

pub desired-IsPlain : All IsPlain desired_rules
desired-IsPlain = (member-IsPlain, (writer-IsPlain, tt))
