-- ===== src/Cursor/Pages.antt =====
-- The rows that a loop over `Next` and `Scan` of cursor_base.go sees, and the pages of the server.
use mcgv.Base.{
  ℕ, zero, suc, ◌+◌, ◌*◌, ◌^◌, ◌≤◌, ◌<◌, ◌≡◌, refl, sym, ap, ◌∙◌, arith, Bool, true, false, not,
  List, [], ◌∷◌, ◌++◌,
}
use mcgv.Base.{
  append_assoc, append-nil, Option, none, some, ok, ltb, if◌then◌else◌, length, take, drop, All,
  length-append, take-append, drop-append, ltb-false, lt→ltb, ◌>>=◌,
}
use mathlib.Core.Path.{subst}
use mcgv.Base.Bytes.{le_bytes}
use mcgv.Stream.In.{In}
use mcgv.Stream.In.Reads.{
  Reads, Shows, advance, advance-Shows, bind_Reads, map_Reads, return-Reads, size_Reads, bool_Reads,
}
use mcgv.Metadata.Wire.Sequences.{all_bytes}
use mcgv.Cursor.{
  Server, input, Cursor, CursorError, read_values, finish_data, read_data, next_index, at_row,
  take_page, next, row_at, all_rows,
}

-- The values of rows in turn.
abbrev pub flatten {ℓ} : {A : Type ℓ} → List (List A) → List A
flatten [] = []
flatten (row ∷ rows) = row ++ flatten rows

-- Whether there is another page.
abbrev pub any_left {ℓ} : {A : Type ℓ} → List A → Bool
any_left [] = false
any_left (x ∷ xs) = true

-- How `Next` comes to ask for a page.
asks_page {ℓ} :
    {A : Type ℓ} (e : Option CursorError) (inside more : Bool) (x y z p q : A)
    → e ≡ none
    → inside ≡ false
    → more ≡ true
    → p ≡ q
    → (elim e [ some f ↦ x | none ↦ if inside then y else if not more then z else p ]) ≡ q
asks_page e inside more x y z p q h i j k = rw (h, i, j) k

at_true :
    (e : Option CursorError) (b : Bool)
    → e ≡ none
    → b ≡ true
    → (elim e [ some f ↦ false | none ↦ b ]) ≡ true
at_true e b h k = rw (h, k) refl

module _ (server : Server) (bytes : server.Value → List ℕ) where
  open server use {World, Value, next_page, unmarshal}

  -- A page on the wire: how many rows, their values, and whether there is more.
  abbrev pub page_bytes : List (List Value) → Bool → List ℕ
  page_bytes rows more =
      le_bytes 4 (length rows) ++ (all_bytes bytes (flatten rows) ++ ((if more then 1 else 0) ∷ []))

  -- Rows of `r` values that `unmarshal` reads from their bytes.
  abbrev pub AreRows : ℕ → List (List Value) → Type 0
  AreRows r rows = All (λ row. (length row ≡ r) × All (λ v. Reads unmarshal (bytes v) v) row) rows

  -- From `w` on, the server answers the requests of the cursor `id` with the pages, none of them empty.
  pub data Serves (id r : ℕ) : World → List (List (List Value)) → Type 0 where
    no_pages : (w : World) → Serves id r w []
    page :
        (w w' : World) (s : In) (rest : List ℕ) (row : List Value) (rows : List (List Value))
        (pages : List (List (List Value)))
        → next_page id w ≡ (input s, w')
        → Shows s (page_bytes (row ∷ rows) (any_left pages) ++ rest)
        → length (row ∷ rows) < 2 ^ 31
        → AreRows r (row ∷ rows)
        → Serves id r w' pages
        → Serves id r w ((row ∷ rows) ∷ pages)

  -- Before its next call of `Next`, the cursor has the values `front` behind it and `rows` before it, and
  -- knows whether there is a page after them.
  pub record Before (c : Cursor server) (id r : ℕ) (front : List Value) (rows : List (List Value))
      (more : Bool) : Type 0 where
    pub ids : c.cur_id ≡ id
    pub sizes : c.row_size ≡ r
    pub no_error : c.last_err ≡ none
    pub values : c.values ≡ front ++ flatten rows
    pub index : next_index server c ≡ length front
    pub more_known : c.has_more ≡ more

  read_values-Reads :
      (vs acc : List Value)
      → All (λ v. Reads unmarshal (bytes v) v) vs
      → Reads (read_values server (length vs) acc) (all_bytes bytes vs) (acc ++ vs, none)
  unfolding read_values
  read_values-Reads [] acc h = rw (append-nil acc) (return-Reads (acc, none))
  read_values-Reads (v ∷ vs) acc h = record {
    result = λ s rest shows.
        let tail = all_bytes bytes vs in
        let shows' : Shows s (bytes v ++ (tail ++ rest)) = record {
          inside = shows.inside;
          left = shows.left ∙ append_assoc (bytes v) tail rest;
        } in
        let later =
          (read_values-Reads vs (acc ++ (v ∷ [])) h.1).result (advance (length (bytes v)) s) rest
            (advance-Shows s (bytes v) (tail ++ rest) shows') in
        rw (read_values, h.0.result s (tail ++ rest) shows')
          (later
            ∙ ap
                (λ (l : List Value).
                  ok ((l, none), advance (length tail) (advance (length (bytes v)) s)))
                (append_assoc acc (v ∷ []) vs)
            ∙ ap (λ (n : ℕ). ok ((acc ++ (v ∷ vs), none), record s { position = n }))
                (omega (arith, length-append (bytes v) tail)));
  }

  length-flatten :
      (r : ℕ) (rows : List (List Value)) → AreRows r rows → length (flatten rows) ≡ length rows * r
  length-flatten r [] h = omega arith
  length-flatten r (row ∷ rows) h =
      length-append row (flatten rows)
      ∙ next_row (length row) (length (flatten rows)) (length rows) h.0.0
          (length-flatten r rows h.1)
    where
      next_row : (a b n : ℕ) → a ≡ r → b ≡ n * r → a + b ≡ suc n * r
      next_row a b n e f = grind arith

  flatten_values :
      (r : ℕ) (rows : List (List Value))
      → AreRows r rows
      → All (λ v. Reads unmarshal (bytes v) v) (flatten rows)
  flatten_values r [] h = tt
  flatten_values r (row ∷ rows) h = both row (flatten rows) h.0.1 (flatten_values r rows h.1)
    where
      both :
          (a b : List Value)
          → All (λ v. Reads unmarshal (bytes v) v) a
          → All (λ v. Reads unmarshal (bytes v) v) b
          → All (λ v. Reads unmarshal (bytes v) v) (a ++ b)
      both [] b p q = q
      both (x ∷ a) b p q = (p.0, both a b p.1 q)

  read_data-Reads :
      (c : Cursor server) (rows : List (List Value)) (more : Bool)
      → length rows < 2 ^ 31
      → AreRows c.row_size rows
      → Reads
          (read_data server c)
          (page_bytes rows more)
          (record c { values = flatten rows; has_more = more })
  unfolding read_data finish_data
  read_data-Reads c rows more small h = bind_Reads _ (size_Reads (length rows) small) (
      bind_Reads _
        (subst
          (λ n.
            Reads (read_values server n []) (all_bytes bytes (flatten rows)) (flatten rows, none))
          (length-flatten c.row_size rows h)
          (read_values-Reads (flatten rows) [] (flatten_values c.row_size rows h)))
        (map_Reads _ (λ b. record c { values = flatten rows; has_more = b }) _ _ (bool_Reads more)))

  -- One more row of the page.
  next-row :
      (c : Cursor server) (w : World) (id r : ℕ) (front row : List Value) (rows : List (List Value))
      (more : Bool)
      → 1 ≤ r
      → length row ≡ r
      → Before c id r front (row ∷ rows) more
      → (c' : Cursor server) × (next server c w ≡ ok (true, c', w))
        × (row_at server c' ≡ row)
        × Before c' id r (front ++ row) rows more
  unfolding next
  next-row c w id r front row rows more positive size h =
      let i = next_index server c in
      let total = ap length h.values ∙ length-append front (row ++ flatten rows) in
      let inside : ltb i (length c.values) ≡ true =
        lt→ltb _ _ (omega (arith, total, h.index, length-append row (flatten rows))) in
      (
        record c { curr_idx = some i },
        rw (h.no_error, inside) refl,
        ap (take c.row_size)
              (ap (drop i) h.values ∙ drop-append front (row ++ flatten rows) i h.index)
            ∙ take-append row (flatten rows) c.row_size (omega (arith, h.sizes)),
        record {
          ids = h.ids;
          sizes = h.sizes;
          no_error = h.no_error;
          values = h.values ∙ sym (append_assoc front row (flatten rows));
          index = omega (arith, h.index, h.sizes, length-append front row);
          more_known = h.more_known;
        },
      )

  -- The first row of the next page.
  next-page :
      (c : Cursor server) (w w' : World) (s : In) (rest : List ℕ) (id r : ℕ)
      (front row : List Value) (rows : List (List Value)) (more : Bool)
      → 1 ≤ r
      → next_page id w ≡ (input s, w')
      → Shows s (page_bytes (row ∷ rows) more ++ rest)
      → length (row ∷ rows) < 2 ^ 31
      → AreRows r (row ∷ rows)
      → Before c id r front [] true
      → (c' : Cursor server) × (next server c w ≡ ok (true, c', w'))
        × (row_at server c' ≡ row)
        × Before c' id r row rows more
  unfolding next take_page
  next-page c w w' s rest id r front row rows more positive served shows small are h =
      let i = next_index server c in
      let moved : Cursor server = record c { curr_idx = some i } in
      let total = ap length h.values ∙ length-append front [] in
      let outside : ltb i (length c.values) ≡ false =
        ltb-false _ _ (omega (arith, total, h.index)) in
      let asked : next_page c.cur_id w ≡ (input s, w') = ap (λ k. next_page k w) h.ids ∙ served in
      let read =
        (read_data-Reads moved (row ∷ rows) more small
            (subst (λ k. AreRows k (row ∷ rows)) (sym h.sizes) are)).result
          s rest shows in
      let some_row : ltb 0 (length (row ++ flatten rows)) ≡ true =
        lt→ltb _ _ (omega (arith, length-append row (flatten rows), are.0.0)) in
      let after : Cursor server = record c {
        curr_idx = some 0;
        values = row ++ flatten rows;
        has_more = more;
      } in
      let stands : at_row server after ≡ true =
        at_true c.last_err (ltb 0 (length (row ++ flatten rows))) h.no_error some_row in
      let got : take_page server moved (input s) ≡ ok after = rw (take_page, read) refl in
      let taken =
        ap (λ p. take_page server moved p.0 >>= λ c'. ok (at_row server c', c', p.1)) asked
        ∙ ap (λ o. o >>= λ c'. ok (at_row server c', c', w')) got
        ∙ ap (λ b. ok (b, after, w')) stands in
      (
        after,
        asks_page c.last_err (ltb i (length c.values)) c.has_more _ _ _ _ _ h.no_error outside
            h.more_known taken,
        take-append row (flatten rows) c.row_size (omega (arith, h.sizes, are.0.0)),
        record {
          ids = h.ids;
          sizes = h.sizes;
          no_error = h.no_error;
          values = refl;
          index = omega (arith, h.sizes, are.0.0);
          more_known = refl;
        },
      )

  next-end :
      (c : Cursor server) (w : World) (id r : ℕ) (front : List Value)
      → Before c id r front [] false
      → next server c w ≡ ok (false, record c { curr_idx = some (next_index server c) }, w)
  unfolding next
  next-end c w id r front h =
      let total = ap length h.values ∙ length-append front [] in
      let outside : ltb (next_index server c) (length c.values) ≡ false =
        ltb-false _ _ (omega (arith, total, h.index)) in
      rw (h.no_error, outside, h.more_known) refl

  -- A cursor of rows that are not empty, over a server that answers with its pages: the loop over `Next`
  -- ends without an error, it sees the rows before the cursor and then those of the pages in their order,
  -- each once, and the cursor then knows that there is no more. It takes one round more than there are
  -- rows. No page is empty.
  pub all_rows-pages :
      (fuel : ℕ) (c : Cursor server) (w : World) (id r : ℕ) (front : List Value)
      (rows : List (List Value)) (pages : List (List (List Value)))
      → 1 ≤ r
      → AreRows r rows
      → Before c id r front rows (any_left pages)
      → Serves id r w pages
      → length rows + length (flatten pages) < fuel
      → (c' : Cursor server) × (w' : World) × (all_rows server fuel c w
          ≡ ok (rows ++ flatten pages, c', w'))
        × (c'.last_err ≡ none)
        × (c'.has_more ≡ false)
  unfolding all_rows
  all_rows-pages zero c w id r front rows pages positive are h serves enough = absurd (omega arith)
  all_rows-pages (suc fuel) c w id r front (row ∷ rows) pages positive are h serves enough =
      let (c1, run, here, h1) =
        next-row c w id r front row rows (any_left pages) positive are.0.0 h in
      let (c2, w2, rest, clean, ended) =
        all_rows-pages fuel c1 w id r (front ++ row) rows pages positive are.1 h1 serves
          (omega arith) in
      (c2, w2, rw (all_rows, run, rest, here) refl, clean, ended)
  all_rows-pages (suc fuel) c _ id r front [] _ positive are h (no_pages w) enough = (
    record c { curr_idx = some (next_index server c) },
    w,
    rw (all_rows, next-end c w id r front h) refl,
    h.no_error,
    h.more_known,
  )
  all_rows-pages (suc fuel) c _ id r front [] _ positive are h
        (page w w1 s rest row rows pages served shows small are' serves) enough =
      let (c1, run, here, h1) =
        next-page c w w1 s rest id r front row rows (any_left pages) positive served shows small
          are' h in
      let total = length-append rows (flatten pages) in
      let (c2, w2, later, clean, ended) =
        all_rows-pages fuel c1 w1 id r row rows pages positive are'.1 h1 serves
          (omega (arith, total)) in
      (c2, w2, rw (all_rows, run, later, here) refl, clean, ended)
