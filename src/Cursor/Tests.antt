-- ===== src/Cursor/Tests.antt =====
-- The theorem on cursor_base.go at a concrete cursor: one row is read, and a page of two is to come.
use mcgv.Base.{ℕ, ◌≡◌, refl, arith, true, false, List, [], ◌∷◌, none, ok}
use mcgv.Base.Bytes.{le_bytes}
use mcgv.Stream.In.{In, new_input_stream, read_uint8}
use mcgv.Stream.In.Reads.{new-Shows, uint8_Reads}
use mcgv.Cursor.{Server, Reply, input, failed, Cursor, all_rows}
use mcgv.Cursor.Pages.{Serves, no_pages, page, page_bytes, all_rows-pages}

-- The server sends the inputs in turn; a value is a byte.
abbrev send_next : ℕ → List In → Reply × List In
send_next id [] = (failed none, [])
send_next id (s ∷ w) = (input s, w)

abbrev server : Server
server = record {
  World = List In;
  Value = ℕ;
  next_page = send_next;
  close_resource = λ id w. (true, w);
  unmarshal = read_uint8;
}

abbrev byte : ℕ → List ℕ
byte v = v ∷ []

abbrev cursor : Cursor server
cursor = record {
  cur_id = 4;
  curr_idx = none;
  row_size = 1;
  values = 7 ∷ [];
  has_more = true;
  last_err = none;
}

abbrev second_page : In
unfolding new_input_stream
second_page = new_input_stream (page_bytes server byte ((8 ∷ []) ∷ ((9 ∷ []) ∷ [])) false) 0

page-Serves : Serves server byte 4 1 (second_page ∷ []) (((8 ∷ []) ∷ ((9 ∷ []) ∷ [])) ∷ [])
unfolding le_bytes second_page new_input_stream
page-Serves =
    page (second_page ∷ []) [] second_page [] (8 ∷ []) ((9 ∷ []) ∷ []) [] refl
      (new-Shows (page_bytes server byte ((8 ∷ []) ∷ ((9 ∷ []) ∷ [])) false)) (omega arith)
      ((refl, (uint8_Reads 8 (omega arith), tt)), ((refl, (uint8_Reads 9 (omega arith), tt)), tt))
      (no_pages [])

all_rows-pages_example :
    (c' : Cursor server) × (w' : List In) × (all_rows server 4 cursor (second_page ∷ [])
      ≡ ok ((7 ∷ []) ∷ ((8 ∷ []) ∷ ((9 ∷ []) ∷ [])), c', w'))
    × (c'.last_err ≡ none)
    × (c'.has_more ≡ false)
all_rows-pages_example =
    all_rows-pages server byte 4 cursor (second_page ∷ []) 4 1 [] ((7 ∷ []) ∷ [])
      (((8 ∷ []) ∷ ((9 ∷ []) ∷ [])) ∷ []) (omega arith)
      ((refl, (uint8_Reads 7 (omega arith), tt)), tt)
      (record {
        ids = refl;
        sizes = refl;
        no_error = refl;
        values = refl;
        index = refl;
        more_known = refl;
      })
      page-Serves (omega arith)
