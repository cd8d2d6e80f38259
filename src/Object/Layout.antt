-- ===== src/Object/Layout.antt =====
-- How `Field` of binary_object.go finds the offset of a field in a footer that `WriteFooter` wrote.
use mcgv.Base.{ℕ, zero, suc, ◌+◌, ◌-◌, ◌*◌, ◌^◌, ◌<◌, ◌≤◌, ◌≡◌, refl, sym, ap, ◌∙◌, arith, inl, inr}
use mcgv.Base.{true, false, ◌&&◌, List, [], ◌∷◌, ◌++◌, map, append_assoc}
use mcgv.Base.{Option, some, ok, leb, ltb, ◌==◌, if◌then◌else◌}
use mcgv.Base.{length, take, Bool-cases, length-append, take-append, drop-append, lt→ltb, ==_iff}
use mcgv.Base.{lookup, number_keys, is_listed, some-injective}
use mcgv.Base.Bytes.{le_bytes, of_le, length-le_bytes, of_le-le_bytes}
use mcgv.Schema.Footer.{footer_bytes}
use mcgv.Object.Reader.{sub_slice, last_index, find_entry}

-- A slice that lies within a list.
pub sub_slice-append :
    (a b c : List ℕ) (low high : ℕ)
    → low ≡ length a
    → high ≡ length a + length b
    → sub_slice (a ++ (b ++ c)) low high ≡ ok b
sub_slice-append a b c low high l h =
    let inside : (leb low high && leb high (length (a ++ (b ++ c)))) ≡ true =
      ground (arith, length-append a (b ++ c), length-append b c) in
    rw inside (
      ap ok (
        ap (take (high - low)) (drop-append a (b ++ c) low l)
        ∙ take-append b c (high - low) (omega arith)))

-- A slice that is taken ends within the list.
pub sub_slice-inside :
    (l : List ℕ) (low high : ℕ) (w : List ℕ) → sub_slice l low high ≡ ok w → high ≤ length l
sub_slice-inside l low high w e = elim (Bool-cases (leb low high && leb high (length l))) [
  | inl inside ↦ ground (arith, inside)
  | inr outside ↦ cc (rw outside at e)
]

-- The ids of fields are int32, and all different.
abbrev pub AreDistinct : List (ℕ × ℕ) → Type 0
AreDistinct [] = Unit
AreDistinct ((id, offset) ∷ ds) =
    (is_listed id (map (λ d. d.0) ds) ≡ false) × (id < 2 ^ 32) × AreDistinct ds

-- Where the bytes of an offset stand.
pub record IsAt (footer : List ℕ) (size offset idx : ℕ) : Type 0 where
  pub found : sub_slice footer idx (idx + size) ≡ ok (le_bytes size offset)

find_entry_step :
    (fuel : ℕ) (footer : List ℕ) (size id pos i : ℕ)
    → ltb pos (length footer) ≡ true
    → sub_slice footer pos (pos + 4) ≡ ok (le_bytes 4 i)
    → i < 2 ^ 32
    → find_entry (suc fuel) (length footer) footer size id pos ≡ (
        if i == id
        then ok (some (pos + 4))
        else find_entry fuel (length footer) footer size id (pos + 4 + size))
unfolding find_entry
find_entry_step fuel footer size id pos i behind here h =
    let number : of_le (le_bytes 4 i) ≡ i = of_le-le_bytes 4 i h in rw (behind, here, number) refl

equal_ids : (i id : ℕ) → (i == id) ≡ true → (id == i) ≡ true
equal_ids i id h = ground arith

other_ids : (i id : ℕ) → (i == id) ≡ false → (id == i) ≡ false
other_ids i id h = ground arith

-- A footer with ids, of which the entries `seen` are behind `pos`.
pub find_entry_lem :
    (fuel size id offset : ℕ) (footer seen : List ℕ) (ds : List (ℕ × ℕ)) (pos : ℕ)
    → footer ≡ seen ++ footer_bytes false size ds
    → length ds < fuel
    → pos ≡ length seen
    → AreDistinct ds
    → lookup id ds ≡ some offset
    → (idx : ℕ) × (find_entry fuel (length footer) footer size id pos ≡ ok (some idx))
      × IsAt footer size offset idx
find_entry_lem zero size id offset footer seen ds pos w f p d e = absurd (omega arith)
find_entry_lem (suc fuel) size id offset footer seen [] pos w f p d e = cc e
find_entry_lem (suc fuel) size id offset footer seen ((i, o) ∷ ds) pos w f p d e =
    let rest = footer_bytes false size ds in
    let split : footer ≡ seen ++ (le_bytes 4 i ++ (le_bytes size o ++ rest)) =
      w ∙ ap (λ l. seen ++ l) (append_assoc (le_bytes 4 i) (le_bytes size o) rest) in
    let four = length-le_bytes 4 i in
    let here : sub_slice footer pos (pos + 4) ≡ ok (le_bytes 4 i) =
      ap (λ l. sub_slice l pos (pos + 4)) split
      ∙ sub_slice-append seen (le_bytes 4 i) (le_bytes size o ++ rest) pos (pos + 4) p
          (omega (arith, four)) in
    let behind : ltb pos (length footer) ≡ true = lt→ltb _ _ (
      omega (
        arith,
        ap length split,
        length-append seen (le_bytes 4 i ++ (le_bytes size o ++ rest)),
        length-append (le_bytes 4 i) (le_bytes size o ++ rest),
        four,
      )) in
    let step = find_entry_step fuel footer size id pos i behind here d.1 in
    let front = seen ++ le_bytes 4 i in
    let split' : footer ≡ front ++ (le_bytes size o ++ rest) =
      split ∙ sym (append_assoc seen (le_bytes 4 i) (le_bytes size o ++ rest)) in
    let front_length : length front ≡ pos + 4 =
      omega (arith, length-append seen (le_bytes 4 i), four) in
    elim (Bool-cases (i == id)) [
      | inl same ↦
          let value : o ≡ offset = some-injective (rw (lookup, equal_ids i id same) at e) in
          (
            pos + 4,
            step ∙ rw same refl,
            record {
              found =
                  ap (λ l. sub_slice l (pos + 4) (pos + 4 + size)) split'
                  ∙ sub_slice-append front (le_bytes size o) rest (pos + 4) (pos + 4 + size)
                      (sym front_length) (omega (arith, front_length, length-le_bytes size o))
                  ∙ ap (λ v. ok (le_bytes size v)) value;
            },
          )
      | inr other ↦
          let (idx, run, at') =
            find_entry_lem fuel size id offset footer (front ++ le_bytes size o) ds (pos + 4 + size)
              (split' ∙ sym (append_assoc front (le_bytes size o) rest)) (omega arith)
              (omega (
                arith,
                front_length,
                length-append front (le_bytes size o),
                length-le_bytes size o,
              ))
              d.2 (rw (lookup, other_ids i id other) at e) in
          (idx, step ∙ rw other run, at')
    ]

-- No later entry has the id.
last_index_absent :
    (id : ℕ) (ids : List ℕ) (idx : ℕ) (found : Option ℕ)
    → is_listed id ids ≡ false
    → last_index id ids idx found ≡ found
unfolding last_index
last_index_absent id [] idx found h = refl
last_index_absent id (i ∷ ids) idx found h = elim (Bool-cases (id == i)) [
  | inl same ↦ cc (rw (is_listed, same) at h)
  | inr other ↦
      rw (other_ids id i other)
        (last_index_absent id ids (suc idx) found (rw (is_listed, other) at h))
]

-- A footer without ids, of which the entries `seen` are behind.
pub last_index_lem :
    (size id offset : ℕ) (footer seen : List ℕ) (ds : List (ℕ × ℕ)) (n : ℕ) (found : Option ℕ)
    → footer ≡ seen ++ footer_bytes true size ds
    → length seen ≡ n * size
    → AreDistinct ds
    → lookup id ds ≡ some offset
    → (idx : ℕ) × (last_index id (map (λ d. d.0) ds) n found ≡ some idx)
      × IsAt footer size offset (idx * size)
unfolding last_index
last_index_lem size id offset footer seen [] n found w p d e = cc e
last_index_lem size id offset footer seen ((i, o) ∷ ds) n found w p d e =
    let rest = footer_bytes true size ds in
    elim (Bool-cases (i == id)) [
      | inl same ↦
          let value : o ≡ offset = some-injective (rw (lookup, equal_ids i id same) at e) in
          let absent : is_listed id (map (λ d. d.0) ds) ≡ false =
            ap (λ k. is_listed k (map (λ d. d.0) ds)) (sym ((==_iff i id).0 same)) ∙ d.0 in
          (
            n,
            rw (last_index, same)
                (last_index_absent id (map (λ d. d.0) ds) (suc n) (some n) absent),
            record {
              found =
                  ap (λ l. sub_slice l (n * size) (n * size + size)) w
                  ∙ sub_slice-append seen (le_bytes size o) rest (n * size) (n * size + size)
                      (sym p) (omega (arith, length-le_bytes size o))
                  ∙ ap (λ v. ok (le_bytes size v)) value;
            },
          )
      | inr other ↦
          let (idx, run, at') =
            last_index_lem size id offset footer (seen ++ le_bytes size o) ds (suc n) found
              (w ∙ sym (append_assoc seen (le_bytes size o) rest))
              (length-append seen (le_bytes size o)
                ∙ next (length seen) (length (le_bytes size o)) n p (length-le_bytes size o))
              d.2 (rw (lookup, other_ids i id other) at e) in
          (idx, rw (last_index, other) run, at')
    ]
  where
    next : (a b m : ℕ) → a ≡ m * size → b ≡ size → a + b ≡ suc m * size
    next a b m h k = grind arith
