-- ===== src/Trade/Call.antt =====
-- A call as the program writes it down, and back: `apiProxy` of src/trade/preprocess.js, which
-- records the property names and the arguments of a call of the API, and the `reduce` of `formTx`
-- in src/trade/trader.js, which replays them on the API. The API itself is a parameter.
use Prim.Native.String.{String}
use runtime_bridge.Prelude.{
  ◌≡◌, Option, none, some, List, [], ◌∷◌, ◌++◌, map, ◌>>=◌, map_option, Option-cases, inl, inr,
}

-- An element of a recorded call: a property name, or the list of the arguments.
pub data Segment : Type 0 where
  prop : String → Segment
  args : List String → Segment

abbrev pub Call : Type 0
Call = List Segment

-- An argument: a string, an object with a truthy `toHex`, one with only a truthy `toString`, one
-- with neither, or undefined, of which no property can be read.
pub data Arg : Type 0 where
  string with_hex with_text : String → Arg
  bare undefined : Arg

-- The `map` callback of the `apply` trap; `none` is a throw.
unfoldable pub to_text : Arg → Option String
to_text (string s) = some s
to_text (with_hex s) = some s
to_text (with_text s) = some s
to_text bare = none
to_text undefined = none

-- `api.root.p1.….pn(…vs)` on `apiProxy`.
unfoldable pub record_call : String → List String → List Arg → Option Call
unfolding to_text
record_call root props vs = do
  texts ← map_option to_text vs
  some (prop root ∷ (map prop props ++ args texts ∷ []))

-- The API's objects: a property of one, if it has it, and the result of a call, if it is a function
-- that takes the arguments.
pub record Api : Type 1 where
  pub Node : Type 0
  pub root : Node
  pub get : Node → String → Option Node
  pub apply : Node → List String → Option Node

module _ (api : Api) where
  -- The `reduce` of `formTx` for one call, from an object on.
  unfoldable pub replay : api.Node → Call → Option api.Node
  replay x [] = some x
  replay x (prop p ∷ c) = api.get x p >>= λ y. replay y c
  replay x (args vs ∷ c) = api.apply x vs >>= λ y. replay y c

  -- The `map` of `formTx`.
  unfoldable pub form_calls : List Call → Option (List api.Node)
  unfolding replay
  form_calls cs = map_option (replay api.root) cs

  -- The same call made on the API itself: the properties in turn, then the call.
  abbrev pub walk : api.Node → List String → Option api.Node
  walk x [] = some x
  walk x (p ∷ ps) = api.get x p >>= λ y. walk y ps

  abbrev pub invoke : List String → List String → Option api.Node
  invoke path vs = walk api.root path >>= λ x. api.apply x vs

  replay-map_prop :
      (x : api.Node) (ps : List String) (vs : List String)
      → replay x (map prop ps ++ args vs ∷ []) ≡ (walk x ps >>= λ y. api.apply y vs)
  unfolding replay
  replay-map_prop x [] vs = elim (Option-cases (api.apply x vs)) [
    | inl failed ↦ rw failed
    | inr (y, made) ↦ rw made
  ]
  replay-map_prop x (p ∷ ps) vs = elim (Option-cases (api.get x p)) [
    | inl failed ↦ rw failed
    | inr (y, found) ↦ rw found (replay-map_prop y ps vs)
  ]

  -- Recording a call and replaying it makes that call: if the arguments can be turned into texts,
  -- `formTx` gets from the recorded call what the API gives for the same path and those texts, and
  -- it fails in the same cases.
  pub replay-record_call :
      (r : String) (ps : List String) (vs : List Arg) (texts : List String)
      → map_option to_text vs ≡ some texts
      → (record_call r ps vs >>= replay api.root) ≡ invoke (r ∷ ps) texts
  unfolding record_call
  replay-record_call r ps vs texts e = rw e (replay-map_prop api.root (r ∷ ps) texts)
