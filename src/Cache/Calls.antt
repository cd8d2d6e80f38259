-- ===== src/Cache/Calls.antt =====
-- The methods of a cache as one type of calls, described independently: the code of the operation,
-- the arguments, and what is returned at once.
use mcgv.Base.{ℕ, Bool, true, List, [], ◌∷◌, Option, none, some, Result, ok, err, if◌then◌else◌}
use mcgv.Transaction.{Session}
use mcgv.Cache.{Cache}
use mcgv.Cache.Client.{
  Client, CacheError, nil_key, nil_value, nil_old_value, nil_new_value, World, Value,
}
use mcgv.Cache.Operations.{
  get, put, put_if_absent, get_all, put_all, get_and_put, get_and_replace, get_and_remove,
  get_and_put_if_absent, replace, replace_if_equals, contains_key, contains_keys, clear_all, clear,
  clear_keys, remove, remove_if_equals, remove_keys, remove_all, size,
}

-- Kinds of results.
pub data Kind : Type 0 where
  a_value a_bool nothing some_pairs a_size : Kind

module _ (cli : Client) where
  pub data Call : Type 0 where
    call_get : Value cli → Call
    call_put : Value cli → Value cli → Call
    call_put_if_absent : Value cli → Value cli → Call
    call_get_all : List (Value cli) → Call
    call_put_all : List (Value cli × Value cli) → Call
    call_get_and_put : Value cli → Value cli → Call
    call_get_and_replace : Value cli → Value cli → Call
    call_get_and_remove : Value cli → Call
    call_get_and_put_if_absent : Value cli → Value cli → Call
    call_replace : Value cli → Value cli → Call
    call_replace_if_equals : Value cli → Value cli → Value cli → Call
    call_contains_key : Value cli → Call
    call_contains_keys : List (Value cli) → Call
    call_clear_all : Call
    call_clear : Value cli → Call
    call_clear_keys : List (Value cli) → Call
    call_remove : Value cli → Call
    call_remove_if_equals : Value cli → Value cli → Call
    call_remove_keys : List (Value cli) → Call
    call_remove_all : Call
    call_size : List ℕ → Call

  -- What a call returns.
  abbrev pub kind_of : Call → Kind
  kind_of (call_get k) = a_value
  kind_of (call_put k v) = nothing
  kind_of (call_put_if_absent k v) = a_bool
  kind_of (call_get_all ks) = some_pairs
  kind_of (call_put_all es) = nothing
  kind_of (call_get_and_put k v) = a_value
  kind_of (call_get_and_replace k v) = a_value
  kind_of (call_get_and_remove k) = a_value
  kind_of (call_get_and_put_if_absent k v) = a_value
  kind_of (call_replace k v) = a_bool
  kind_of (call_replace_if_equals k old new) = a_bool
  kind_of (call_contains_key k) = a_bool
  kind_of (call_contains_keys ks) = a_bool
  kind_of call_clear_all = nothing
  kind_of (call_clear k) = nothing
  kind_of (call_clear_keys ks) = nothing
  kind_of (call_remove k) = a_bool
  kind_of (call_remove_if_equals k old) = a_bool
  kind_of (call_remove_keys ks) = nothing
  kind_of call_remove_all = nothing
  kind_of (call_size modes) = a_size

  abbrev pub Of : Kind → Type 0
  Of a_value = Value cli
  Of a_bool = Bool
  Of nothing = Unit
  Of some_pairs = List (Value cli × Value cli)
  Of a_size = ℕ

  abbrev pub Returned : Call → Type 0
  Returned c = Of (kind_of c)

  -- The codes of the protocol.
  abbrev pub code_of : Call → ℕ
  code_of (call_get k) = 1000
  code_of (call_put k v) = 1001
  code_of (call_put_if_absent k v) = 1002
  code_of (call_get_all ks) = 1003
  code_of (call_put_all es) = 1004
  code_of (call_get_and_put k v) = 1005
  code_of (call_get_and_replace k v) = 1006
  code_of (call_get_and_remove k) = 1007
  code_of (call_get_and_put_if_absent k v) = 1008
  code_of (call_replace k v) = 1009
  code_of (call_replace_if_equals k old new) = 1010
  code_of (call_contains_key k) = 1011
  code_of (call_contains_keys ks) = 1012
  code_of call_clear_all = 1013
  code_of (call_clear k) = 1014
  code_of (call_clear_keys ks) = 1015
  code_of (call_remove k) = 1016
  code_of (call_remove_if_equals k old) = 1017
  code_of (call_remove_keys ks) = 1018
  code_of call_remove_all = 1019
  code_of (call_size modes) = 1020

  -- The values that have to be there, with the errors for those that are not.
  abbrev pub required : Call → List (Value cli × CacheError)
  required (call_get k) = (k, nil_key) ∷ []
  required (call_put k v) = (k, nil_key) ∷ (v, nil_value) ∷ []
  required (call_put_if_absent k v) = (k, nil_key) ∷ (v, nil_value) ∷ []
  required (call_get_and_put k v) = (k, nil_key) ∷ (v, nil_value) ∷ []
  required (call_get_and_replace k v) = (k, nil_key) ∷ (v, nil_value) ∷ []
  required (call_get_and_remove k) = (k, nil_key) ∷ []
  required (call_get_and_put_if_absent k v) = (k, nil_key) ∷ (v, nil_value) ∷ []
  required (call_replace k v) = (k, nil_key) ∷ (v, nil_value) ∷ []
  required (call_replace_if_equals k old new) =
      (k, nil_key) ∷ (old, nil_old_value) ∷ (new, nil_new_value) ∷ []
  required (call_contains_key k) = (k, nil_key) ∷ []
  required (call_clear k) = (k, nil_key) ∷ []
  required (call_remove k) = (k, nil_key) ∷ []
  required (call_remove_if_equals k old) = (k, nil_key) ∷ (old, nil_old_value) ∷ []
  required _ = []

  -- The first of them that is nil.
  abbrev pub first_nil : List (Value cli × CacheError) → Option CacheError
  first_nil [] = none
  first_nil ((v, e) ∷ vs) = let rest = first_nil vs in if cli.marsh.is_nil v then some e else rest

  -- What a call with no keys returns.
  abbrev pub without_keys : (c : Call) → Option (Returned c)
  without_keys (call_get_all []) = some []
  without_keys (call_put_all []) = some tt
  without_keys (call_contains_keys []) = some true
  without_keys (call_clear_keys []) = some tt
  without_keys (call_remove_keys []) = some tt
  without_keys _ = none

  -- The calls that need no request: a value is missing, or there are no keys.
  abbrev pub at_once : (c : Call) → Option (Result CacheError (Returned c))
  at_once c = elim (first_nil (required c)) [
    | some e ↦ some (err e)
    | none ↦ elim (without_keys c) [ some v ↦ some (ok v) | none ↦ none ]
  ]

  module _ (tx : Option (Session cli.cluster)) (cache : Cache) where
    -- The methods.
    unfoldable pub run : (c : Call) → World cli → Result CacheError (Returned c) × World cli
    run (call_get k) = get cli tx cache k
    run (call_put k v) = put cli tx cache k v
    run (call_put_if_absent k v) = put_if_absent cli tx cache k v
    run (call_get_all ks) = get_all cli tx cache ks
    run (call_put_all es) = put_all cli tx cache es
    run (call_get_and_put k v) = get_and_put cli tx cache k v
    run (call_get_and_replace k v) = get_and_replace cli tx cache k v
    run (call_get_and_remove k) = get_and_remove cli tx cache k
    run (call_get_and_put_if_absent k v) = get_and_put_if_absent cli tx cache k v
    run (call_replace k v) = replace cli tx cache k v
    run (call_replace_if_equals k old new) = replace_if_equals cli tx cache k old new
    run (call_contains_key k) = contains_key cli tx cache k
    run (call_contains_keys ks) = contains_keys cli tx cache ks
    run call_clear_all = clear_all cli tx cache
    run (call_clear k) = clear cli tx cache k
    run (call_clear_keys ks) = clear_keys cli tx cache ks
    run (call_remove k) = remove cli tx cache k
    run (call_remove_if_equals k old) = remove_if_equals cli tx cache k old
    run (call_remove_keys ks) = remove_keys cli tx cache ks
    run call_remove_all = remove_all cli tx cache
    run (call_size modes) = size cli tx cache modes
