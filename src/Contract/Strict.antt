-- ===== src/Contract/Strict.antt =====
-- `Strict` of src-tauri/src/runtime_contract.rs: a document in which no object repeats a key.
use starframe.Prelude.{Option, some, Text, ◌>>=◌}
use starframe.Json.{
  JsonLibrary, Json, Values, Members, null, boolean, number, string, array, object, no_values,
  value, no_members, member, insert_new,
}

module _ (json : JsonLibrary) where
  -- The visitor of `Strict`: a document with its keys in order, `none` where one is repeated.
  unfoldable mutual
    unfolding insert_new

    pub strict : Json json → Option (Json json)
    strict null = some null
    strict (boolean b) = some (boolean b)
    strict (number n) = some (number n)
    strict (string text) = some (string text)
    strict (array values) = visit_seq values >>= λ output. some (array output)
    strict (object members) = visit_map members no_members >>= λ output. some (object output)

    pub visit_seq : Values json.Number → Option (Values json.Number)
    visit_seq no_values = some no_values
    visit_seq (value first rest) =
        strict first >>= λ v. visit_seq rest >>= λ output. some (value v output)

    pub visit_map :
        Members json.Number → (output : Members json.Number) → Option (Members json.Number)
    visit_map no_members output = some output
    visit_map (member key first rest) output =
        strict first >>= λ v. insert_new json key v output >>= λ longer. visit_map rest longer

  -- What `serde_json::from_slice::<Strict>(bytes)` returns, without the text of its error.
  unfoldable pub from_slice : Text → Option (Json json)
  unfolding strict
  from_slice bytes = json.from_slice bytes >>= λ syntax. strict syntax
