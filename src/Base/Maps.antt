-- ===== src/Base/Maps.antt =====
-- Go's maps, as lists of keys and values: reading and writing a key. The order of the list stands for
-- the order in which Go happens to range over the map.
use Prim.Native.Nat.{ℕ}
use mathlib.Core.Path.{◌≡◌, refl, ap}
use mathlib.Core.Logic.{◌↔◌}
use mathlib.Core.Bool.{Bool, true, false, ◌&&◌, ◌||◌}
use mathlib.Core.Option.{Option, none, some}
use mathlib.Core.List.{List, [], ◌∷◌, ◌++◌}
use native.Mathlib.Omega.{arith}
use mcgv.Base.Tests.{◌==◌ as nat_beq, ==_iff, if◌then◌else◌}

-- A type whose values are compared with `==`.
pub record Comparable {ℓ} (A : Type ℓ) : Type ℓ where
  pub same : A → A → Bool
  pub same_iff : (a b : A) → (same a b ≡ true) ↔ (a ≡ b)

instance abbrev pub number_keys : Comparable ℕ
number_keys = record { same = nat_beq; same_iff = ==_iff }

-- A string is the list of its bytes.
abbrev pub String : Type 0
String = List ℕ

abbrev pub same_string : String → String → Bool
same_string [] [] = true
same_string (x ∷ xs) (y ∷ ys) = nat_beq x y && same_string xs ys
same_string _ _ = false

pub same_string_iff : (xs ys : String) → (same_string xs ys ≡ true) ↔ (xs ≡ ys)
same_string_iff [] [] = ground arith
same_string_iff [] (y ∷ ys) = ground arith
same_string_iff (x ∷ xs) [] = ground arith
same_string_iff (x ∷ xs) (y ∷ ys) = ground (arith, same_string_iff xs ys)

instance abbrev pub string_keys : Comparable String
string_keys = record { same = same_string; same_iff = same_string_iff }

pub same_pair_iff : (p q : ℕ × ℕ) → ((nat_beq p.0 q.0 && nat_beq p.1 q.1) ≡ true) ↔ (p ≡ q)
same_pair_iff (a, b) (c, d) = ground arith

instance abbrev pub pair_keys : Comparable (ℕ × ℕ)
pair_keys = record { same = λ p q. nat_beq p.0 q.0 && nat_beq p.1 q.1; same_iff = same_pair_iff }

abbrev pub Map {ℓ κ} : Type ℓ → Type κ → Type (ℓ ⊔ κ)
Map K V = List (K × V)

pub same_refl {ℓ} : {K : Type ℓ} ⦃c : Comparable K⦄ (k : K) → c.same k k ≡ true
same_refl ⦃c⦄ k = (c.same_iff k k).1 refl

module _ {ℓ κ} {K : Type ℓ} {V : Type κ} ⦃c : Comparable K⦄ where
  -- `v, ok := m[k]`
  abbrev pub lookup : K → Map K V → Option V
  lookup k [] = none
  lookup k ((j, v) ∷ m) = if c.same k j then some v else lookup k m

  -- `m[k] = v`
  abbrev pub put : K → V → Map K V → Map K V
  put k v [] = (k, v) ∷ []
  put k v ((j, w) ∷ m) = let rest = put k v m in if c.same k j then (k, v) ∷ m else (j, w) ∷ rest

  -- A key that is written is the only one whose value changes.
  pub lookup-put :
      (j k : K) (v : V) (m : Map K V)
      → lookup j (put k v m) ≡ (if c.same j k then some v else lookup j m)
  lookup-put j k v [] = refl
  lookup-put j k v ((i, w) ∷ m) =
      ground (arith, lookup-put j k v m, c.same_iff k i, c.same_iff j k, c.same_iff j i)

-- Whether a key is in a list of keys.
abbrev pub is_listed {ℓ} : {K : Type ℓ} ⦃c : Comparable K⦄ → K → List K → Bool
is_listed k [] = false
is_listed ⦃c⦄ k (j ∷ js) = c.same k j || is_listed k js

abbrev pub value_or {ℓ} : {V : Type ℓ} → V → Option V → V
value_or d none = d
value_or d (some v) = v

pub some-injective {ℓ} : {V : Type ℓ} {a b : V} → some a ≡ some b → a ≡ b
some-injective {a = a} e = ap (value_or a) e

abbrev pub has_value {ℓ} : {V : Type ℓ} → Option V → Bool
has_value none = false
has_value (some v) = true

pub is_listed-append {ℓ} :
    {K : Type ℓ} ⦃c : Comparable K⦄ (k j : K) (js : List K)
    → is_listed k (js ++ (j ∷ [])) ≡ (c.same k j || is_listed k js)
is_listed-append ⦃c⦄ k j [] = refl
is_listed-append ⦃c⦄ k j (i ∷ js) = ground (arith, is_listed-append k j js)
