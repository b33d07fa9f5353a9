-- ===== src/Controlplane/Diff/Keys.antt =====
-- The key of a rule tells it apart, where no cell holds the separator.
use Prim.Native.Char.{Char, code}
use sydom.Base.{String, ◌<>◌, ◌≡◌, refl, sym, ap, ap₂, ◌∙◌, ◌≢◌}
use sydom.Kernel.Types.{Rule}
use sydom.Controlplane.Diff.{separator, rule_key}
use text.Mathlib.TextLemmas.{nil-append, cons-append}

abbrev sep_char : Char
sep_char = "\u{1f}"

abbrev pub NoSeparator : String → Type 0
NoSeparator String.[] = Unit
NoSeparator (String.◌∷◌ c s) = (code c ≢ 0x1f) × NoSeparator s

pub record IsPlain (r : Rule) : Type 0 where
  pub in_ptype : NoSeparator r.ptype
  pub in_v0 : NoSeparator r.v0
  pub in_v1 : NoSeparator r.v1
  pub in_v2 : NoSeparator r.v2
  pub in_v3 : NoSeparator r.v3
  pub in_v4 : NoSeparator r.v4

separator-append : (x : String) → separator <> x ≡ String.◌∷◌ sep_char x
separator-append x = cons-append sep_char String.[] x ∙ ap (String.◌∷◌ sep_char) (nil-append x)

cut_head :
    (s t x y : String)
    → NoSeparator s
    → NoSeparator t
    → s <> (separator <> x) ≡ t <> (separator <> y)
    → (s ≡ t) × (x ≡ y)
cut_head String.[] String.[] x y hs ht e =
    let e' =
      sym (separator-append x) ∙ sym (nil-append _) ∙ e ∙ nil-append _ ∙ separator-append y in
    (refl, tail_eq e')
  where
    tail_eq : String.◌∷◌ sep_char x ≡ String.◌∷◌ sep_char y → x ≡ y
    tail_eq e = cc
cut_head String.[] (String.◌∷◌ d t) x y hs (hd, ht) e =
    let e' = sym (separator-append x) ∙ sym (nil-append _) ∙ e ∙ cons-append d t _ in
    absurd (hd (sym (ap code (head_eq e'))))
  where
    head_eq : String.◌∷◌ sep_char x ≡ String.◌∷◌ d (t <> (separator <> y)) → sep_char ≡ d
    head_eq e = cc
cut_head (String.◌∷◌ c s) String.[] x y (hc, hs) ht e =
    let e' = sym (separator-append y) ∙ sym (nil-append _) ∙ sym e ∙ cons-append c s _ in
    absurd (hc (sym (ap code (head_eq e'))))
  where
    head_eq : String.◌∷◌ sep_char y ≡ String.◌∷◌ c (s <> (separator <> x)) → sep_char ≡ c
    head_eq e = cc
cut_head (String.◌∷◌ c s) (String.◌∷◌ d t) x y (hc, hs) (hd, ht) e =
    let e' = sym (cons-append c s _) ∙ e ∙ cons-append d t _ in
    let (p, q) = cut_head s t x y hs ht (tail_eq e') in (ap₂ String.◌∷◌ (head_eq e') p, q)
  where
    head_eq : String.◌∷◌ c (s <> (separator <> x)) ≡ String.◌∷◌ d (t <> (separator <> y)) → c ≡ d
    head_eq e = cc

    tail_eq :
        String.◌∷◌ c (s <> (separator <> x)) ≡ String.◌∷◌ d (t <> (separator <> y))
        → s <> (separator <> x) ≡ t <> (separator <> y)
    tail_eq e = cc

-- Two rules with one key are one rule.
pub rule_key-injective : (r s : Rule) → IsPlain r → IsPlain s → rule_key r ≡ rule_key s → r ≡ s
unfolding rule_key
rule_key-injective r s p q e =
    let (e₁, rest₁) = cut_head r.ptype s.ptype _ _ p.in_ptype q.in_ptype e in
    let (e₂, rest₂) = cut_head r.v0 s.v0 _ _ p.in_v0 q.in_v0 rest₁ in
    let (e₃, rest₃) = cut_head r.v1 s.v1 _ _ p.in_v1 q.in_v1 rest₂ in
    let (e₄, rest₄) = cut_head r.v2 s.v2 _ _ p.in_v2 q.in_v2 rest₃ in
    let (e₅, rest₅) = cut_head r.v3 s.v3 _ _ p.in_v3 q.in_v3 rest₄ in
    let (e₆, e₇) = cut_head r.v4 s.v4 _ _ p.in_v4 q.in_v4 rest₅ in
    λ i. record { ptype = e₁ i; v0 = e₂ i; v1 = e₃ i; v2 = e₄ i; v3 = e₅ i; v4 = e₆ i; v5 = e₇ i }
