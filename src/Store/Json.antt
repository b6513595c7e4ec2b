-- ===== src/Store/Json.antt =====
-- Which values the column of a result, JSONB in migrations/0001_init.sql, can hold: json.Marshal
-- writes the character 0 as \u0000, which Postgres refuses in JSONB.
use Prim.Native.Char.{code}
use taskflow.Common.{String, Bool, true, false, ◌==◌, ◌||◌, not, Option, none, some}
use taskflow.Model.{
  Value, Values, Fields, null, boolean, number, text, array, object, end, item, empty, field,
}

unfoldable pub has_zero : String → Bool
has_zero String.[] = false
has_zero (String.◌∷◌ c s) = (code c == 0) || has_zero s

unfoldable mutual
  unfolding has_zero

  pub value_has_zero : Value → Bool
  value_has_zero (text s) = has_zero s
  value_has_zero (array vs) = values_have_zero vs
  value_has_zero (object fs) = fields_have_zero fs
  value_has_zero null = false
  value_has_zero (boolean b) = false
  value_has_zero (number n) = false

  pub values_have_zero : Values → Bool
  values_have_zero end = false
  values_have_zero (item v vs) = value_has_zero v || values_have_zero vs

  pub fields_have_zero : Fields → Bool
  fields_have_zero empty = false
  fields_have_zero (field n v fs) = has_zero n || value_has_zero v || fields_have_zero fs

unfoldable pub fits_jsonb : Option Fields → Bool
unfolding fields_have_zero
fits_jsonb none = true
fits_jsonb (some fs) = not (fields_have_zero fs)
