-- ===== src/Cursor.antt =====
-- `baseCursor` of cursor_base.go: the rows of a query, of which the server sends one page after the
-- other. The channel is the record `Server`: what its callback is given for a request.
pub mod Pages
mod Tests
use mcgv.Base.{
  ℕ, zero, suc, ◌+◌, ◌*◌, Bool, true, false, not, List, [], ◌∷◌, ◌++◌, Option, none, some,
}
use mcgv.Base.{Result, ok, err, panic, stuck, ◌>>=◌, ltb, if◌then◌else◌, length, take, drop}
use mcgv.Base.Int.{ℤ, pos, negsuc}
use mcgv.Stream.Types.{Error}
use mcgv.Stream.In.{In, Read, ◌>>>◌, return, read_size, read_bool}

-- What the callback of a request gets: an input, or an error with what is left of an input, if there was
-- an answer.
pub data Reply : Type 0 where
  input : In → Reply
  failed : Option In → Reply

pub record Server : Type 1 where
  pub World : Type 0
  pub Value : Type 0
  -- `send` of the request for the next page, and of the request that closes, by the id of the cursor
  pub next_page : ℕ → World → Reply × World
  pub close_resource : ℕ → World → Bool × World
  -- `marsh.unmarshal`
  pub unmarshal : Read Value

-- `lastErr`: what reading a page returned, or the request of a page or of closing.
pub data CursorError : Type 0 where
  reading : Error → CursorError
  request_failed closing : CursorError

module _ (server : Server) where
  open server use {World, Value, next_page, close_resource, unmarshal}

  -- `baseCursor`; the index is none for -1.
  pub record Cursor : Type 0 where
    pub cur_id : ℕ
    pub curr_idx : Option ℕ
    pub row_size : ℕ
    pub values : List Value
    pub has_more : Bool
    pub last_err : Option CursorError

  -- The loop of `readData`: the values until an error, and the error.
  unfoldable pub read_values : ℕ → List Value → Read (List Value × Option Error)
  read_values zero acc s = ok ((acc, none), s)
  read_values (suc n) acc s = elim (unmarshal s) [
    | ok (v, s') ↦ read_values n (acc ++ (v ∷ [])) s'
    | err e ↦ ok ((acc, some e), s)
    | panic ↦ panic
    | stuck ↦ stuck
  ]

  -- What `readData` leaves in the cursor, after the values.
  unfoldable pub finish_data : Cursor → List Value × Option Error → Read Cursor
  finish_data c (vs, none) =
      read_bool >>> λ more. return (record c { values = vs; has_more = more })
  finish_data c (vs, some e) = return (record c { values = vs; last_err = some (reading e) })

  -- `readData`; `make` panics on a negative capacity.
  unfoldable pub read_data : Cursor → Read Cursor
  unfolding read_values finish_data
  read_data c = read_size >>> λ sz. elim sz [
    | pos n ↦ read_values (n * c.row_size) [] >>> finish_data c
    | negsuc n ↦ λ s. panic
  ]

  -- The index that `Next` goes to.
  abbrev pub next_index : Cursor → ℕ
  next_index c = elim c.curr_idx [ none ↦ 0 | some i ↦ i + c.row_size ]

  -- Whether there is a row at the index, with the cursor.
  abbrev pub at_row : Cursor → Bool
  at_row c = elim c.last_err [
    | some e ↦ false
    | none ↦ elim c.curr_idx [ none ↦ false | some i ↦ ltb i (length c.values) ]
  ]

  -- The callback of the request for a page. `readData` is called on a failed request too, and panics if
  -- there is no input.
  unfoldable pub take_page : Cursor → Reply → Result Error Cursor
  unfolding read_data
  take_page c (failed none) = panic
  take_page c (failed (some s)) =
      read_data (record c { last_err = some request_failed }) s >>= λ (c', s').
      ok (record c' { curr_idx = some 0 })
  take_page c (input s) = read_data c s >>= λ (c', s'). ok (record c' { curr_idx = some 0 })

  -- `Next`
  unfoldable pub next : Cursor → World → Result Error (Bool × Cursor × World)
  unfolding take_page
  next c w =
      let i = next_index c in
      let moved : Cursor = record c { curr_idx = some i } in
      let (reply, w') = next_page c.cur_id w in
      let paged = take_page moved reply >>= λ c'. ok (at_row c', c', w') in
      elim c.last_err [
        | some e ↦ ok (false, c, w)
        | none ↦
            if ltb i (length c.values)
            then ok (true, moved, w)
            else if not c.has_more
            then ok (false, moved, w)
            else paged
      ]

  -- `Close`: whether it returns no error.
  unfoldable pub close : Cursor → World → Bool × Cursor × World
  close c w =
      let (closed, w') = close_resource c.cur_id w in
      if not c.has_more then (true, c, w) else (
        closed,
        record c { has_more = false; last_err = if closed then c.last_err else some closing },
        w',
      )

  -- The values that `Scan` reads into as many destinations as a row has.
  abbrev pub row_at : Cursor → List Value
  row_at c = elim c.curr_idx [ none ↦ [] | some i ↦ take c.row_size (drop i c.values) ]

  -- `for cursor.Next() { cursor.Scan(...) }`. Each round takes one of the fuel.
  unfoldable pub all_rows : ℕ → Cursor → World → Result Error (List (List Value) × Cursor × World)
  unfolding next
  all_rows zero c w = stuck
  all_rows (suc fuel) c w = elim (next c w) [
    | ok (true, c', w') ↦
        (all_rows fuel c' w' >>= λ (rows, c'', w''). ok (row_at c' ∷ rows, c'', w''))
    | ok (false, c', w') ↦ ok ([], c', w')
    | err e ↦ err e
    | panic ↦ panic
    | stuck ↦ stuck
  ]
