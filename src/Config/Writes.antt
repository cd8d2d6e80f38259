-- ===== src/Config/Writes.antt =====
-- Properties that are set one after the other, and the last of each code.
use mcgv.Base.{ℕ, ◌≡◌, refl, ap, ◌∙◌, Bool, true, false, List, [], ◌∷◌, Option, none, some}
use mcgv.Base.{lookup, put, lookup-put, number_keys, if◌then◌else◌, ◌==◌}
use mcgv.Metadata.Wire.Sequences.{first_of}

-- `add`: a property is set, or nothing is.
abbrev pub add {ℓ} : {V : Type ℓ} → ℕ → Option V → List (ℕ × V) → List (ℕ × V)
add code none props = props
add code (some v) props = put code v props

abbrev pub add_all {ℓ} : {V : Type ℓ} → List (ℕ × Option V) → List (ℕ × V) → List (ℕ × V)
add_all [] props = props
add_all ((code, o) ∷ ws) props = add_all ws (add code o props)

-- The last write to a code.
abbrev pub last_write {ℓ} : {V : Type ℓ} → ℕ → List (ℕ × Option V) → Option V → Option V
last_write k [] d = d
last_write k ((code, o) ∷ ws) d = last_write k ws (if k == code then first_of o d else d)

lookup-add {ℓ} :
    {V : Type ℓ} (k code : ℕ) (o : Option V) (props : List (ℕ × V))
    → lookup k (add code o props)
      ≡ (if k == code then first_of o (lookup k props) else lookup k props)
lookup-add k code none props = choose (k == code)
  where
    choose : (b : Bool) → lookup k props ≡ (if b then lookup k props else lookup k props)
    choose true = refl
    choose false = refl
lookup-add k code (some v) props = lookup-put k code v props

pub lookup-add_all {ℓ} :
    {V : Type ℓ} (k : ℕ) (ws : List (ℕ × Option V)) (props : List (ℕ × V))
    → lookup k (add_all ws props) ≡ last_write k ws (lookup k props)
lookup-add_all k [] props = refl
lookup-add_all k ((code, o) ∷ ws) props =
    lookup-add_all k ws (add code o props) ∙ ap (last_write k ws) (lookup-add k code o props)
