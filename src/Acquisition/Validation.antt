-- ===== src/Acquisition/Validation.antt =====
-- contexts/data_acquisition/domain/validation.py: the structural checks of a fetched content.
use Prim.Native.Char.{code}
use Prim.Native.String.{◌++◌ as str_append}
use text.Mathlib.Text.{◌==◌ as str_eq}
use novaapi.Common.{
  ℕ, String, Bool, true, false, not, ◌&&◌, Option, none, some, List, [], ◌∷◌, ◌++◌, map, filter,
  length, ltb, ◌==◌, if◌then◌else◌,
}
use novaapi.Common.Text.{is_blank, is_empty, strip, ends_with, drop_last, join, contains_text}
use novaapi.Acquisition.Json.{Json, string, array, object, Fields, get}
use novaapi.Errors.{Result, ok, err, external}
use novaapi.Acquisition.Types.{AcquisitionFormat, geojson, csv, geotiff, shapefile, json}

-- `bytes`
abbrev pub Bytes : Type 0
Bytes = List ℕ

-- What a parser answers: a value, the exception that the code expects, or another one, each with its
-- text.
pub data Decoded (A : Type 0) : Type 0 where
  decoded : A → Decoded A
  malformed crashed : String → Decoded A

-- The functions of Python's library that the checks call.
pub record Stdlib : Type 0 where
  pub json_loads : Bytes → Decoded Json
  -- `csv.reader` over the text that `decode("utf-8")` gives.
  pub csv_rows : Bytes → Decoded (List (List String))
  -- `ZipFile(...)` with its `namelist`, which expects `BadZipFile`.
  pub namelist : Bytes → Decoded (List String)
  pub lower : String → String
  pub repr : String → String
  pub repr_json : Option Json → String
  pub str_nat : ℕ → String
  -- The digits of `\d`.
  pub is_digit : ℕ → Bool

-- The errors of a check, or an exception that it lets through. What it extracts is read by nobody.
abbrev pub Check : Type 0
Check = Result (List String)

abbrev pub refuse : String → Check
refuse text = ok (text ∷ [])

abbrev pub pass : Check
pass = ok []

-- The members of `_GEOJSON_TYPES`.
abbrev pub geojson_types : List String
geojson_types =
    "Point" ∷ "MultiPoint" ∷ "LineString" ∷ "MultiLineString" ∷ "Polygon" ∷ "MultiPolygon"
    ∷ "GeometryCollection" ∷ "Feature" ∷ "FeatureCollection" ∷ []

-- The branch for a feature collection.
abbrev check_features : Option Json → Check
check_features (some (array vs)) = pass
check_features _ = refuse "FeatureCollection.features must be a list"

abbrev check_geometry : Option Json → Check
check_geometry none = refuse "Feature is missing a 'geometry' member"
check_geometry (some g) = pass

-- The checks of an object whose type is a text.
unfoldable pub check_object : String → Fields → Check
unfolding get
check_object t fs =
    if str_eq t "FeatureCollection"
    then check_features (get "features" fs)
    else if str_eq t "Feature"
    then check_geometry (get "geometry" fs)
    else pass

-- `geojson_type not in _GEOJSON_TYPES`, which raises where the type has no hash; the message names
-- what was found.
unfoldable pub check_type : (Option Json → String) → Option Json → Fields → Check
unfolding contains_text check_object
check_type show (some (string t)) fs =
    if not (contains_text t geojson_types)
    then refuse (str_append "Unrecognized GeoJSON type: " (show (some (string t))))
    else check_object t fs
check_type show (some (array vs)) fs = err (external "unhashable type: 'list'")
check_type show (some (object ms)) fs = err (external "unhashable type: 'dict'")
check_type show other fs = refuse (str_append "Unrecognized GeoJSON type: " (show other))

abbrev check_geojson : (Option Json → String) → Decoded Json → Check
check_geojson show (malformed text) = refuse (str_append "Not valid JSON: " text)
check_geojson show (crashed text) = err (external text)
check_geojson show (decoded (object fs)) = check_type show (get "type" fs) fs
check_geojson show (decoded _) = refuse "GeoJSON root must be a JSON object"

abbrev check_rows : Decoded (List (List String)) → Check
check_rows (malformed text) = refuse (str_append "Not valid UTF-8 text: " text)
check_rows (crashed text) = err (external text)
check_rows (decoded []) = refuse "CSV content is empty"
check_rows (decoded ([] ∷ rows)) = refuse "CSV header row is empty"
check_rows (decoded ((h ∷ hs) ∷ rows)) = pass

-- `content[:4] in _TIFF_MAGIC`
abbrev has_magic : Bytes → Bool
has_magic (a ∷ b ∷ c ∷ d ∷ rest) =
    (if a == 73 && b == 73 && c == 42 && d == 0
      then true
      else a == 77 && b == 77 && c == 0 && d == 42)
has_magic _ = false

unfoldable pub validate_geotiff : Bytes → Check
validate_geotiff content =
    if ltb (length content) 8
    then refuse "Content does not start with a valid TIFF header"
    else if not (has_magic content)
    then refuse "Content does not start with a valid TIFF header"
    else pass

module _ (lib : Stdlib) where
  open lib use {json_loads, csv_rows, namelist, lower, repr, repr_json, str_nat, is_digit}

  -- `\d+$` on a stripped text.
  unfoldable pub all_digits : String → Bool
  all_digits String.[] = true
  all_digits (String.◌∷◌ c s) = is_digit (code c) && all_digits s

  -- `_EPSG_PATTERN.match`
  abbrev pub is_epsg : String → Bool
  is_epsg (String.◌∷◌ e (String.◌∷◌ p (String.◌∷◌ s (String.◌∷◌ g (String.◌∷◌ colon digits))))) =
      code e == 69
      && code p == 80
      && code s == 83
      && code g == 71
      && code colon == 58
      && not (is_empty digits)
      && all_digits digits
  is_epsg _ = false

  unfoldable pub validate_crs : String → List String
  unfolding is_blank strip is_empty all_digits
  validate_crs crs =
      if is_blank crs
      then "CRS must not be blank" ∷ []
      else if not (is_epsg (strip crs))
      then str_append "CRS " (str_append (repr crs) " is not of the form 'EPSG:<code>'") ∷ []
      else []

  unfoldable pub validate_geojson : Bytes → Check
  unfolding get check_type
  validate_geojson content = check_geojson repr_json (json_loads content)

  unfoldable pub validate_csv : Bytes → Check
  validate_csv content = check_rows (csv_rows content)

  unfoldable pub validate_json : Bytes → Check
  validate_json content = elim (json_loads content) [
    | malformed text ↦ refuse (str_append "Not valid JSON: " text)
    | decoded v ↦ pass
    | crashed text ↦ err (external text)
  ]

  -- The components that the archive lacks.
  unfoldable pub missing_components : String → List String → List String
  unfolding contains_text
  missing_components base names =
      map (λ (ext : String). str_append base ext)
        (filter
          (λ (ext : String). not (contains_text (str_append (lower base) ext) (map lower names)))
          (".shx" ∷ ".dbf" ∷ ".prj" ∷ []))

  abbrev complete_or : List String → Check
  complete_or [] = pass
  complete_or (m ∷ ms) = refuse (
      str_append "Incomplete Shapefile dataset — missing required component(s): "
        (join ", " (m ∷ ms)))

  -- The checks of the entries of the archive that end in `.shp`.
  unfoldable pub check_entries : List String → List String → Check
  unfolding missing_components drop_last join
  check_entries [] names = refuse "ZIP archive contains no .shp file"
  check_entries (e ∷ []) names = complete_or (missing_components (drop_last 4 e) names)
  check_entries (e ∷ f ∷ es) names = refuse (
      str_append "ZIP archive must contain exactly one .shp dataset, found "
        (str_append (str_nat (length (e ∷ f ∷ es))) (str_append ": " (join ", " (e ∷ f ∷ es)))))

  unfoldable pub validate_shapefile_archive : Bytes → Check
  unfolding check_entries ends_with
  validate_shapefile_archive content = elim (namelist content) [
    | malformed text ↦ refuse "Content is not a valid ZIP archive"
    | decoded names ↦
        check_entries (filter (λ (n : String). ends_with ".shp" (lower n)) names) names
    | crashed text ↦ err (external text)
  ]

  -- `_VALIDATORS_BY_FORMAT[format]`
  abbrev pub validator : AcquisitionFormat → Bytes → Check
  validator geojson = validate_geojson
  validator csv = validate_csv
  validator geotiff = validate_geotiff
  validator shapefile = validate_shapefile_archive
  validator json = validate_json

  -- `validate_dataset_content`: the errors of its outcome.
  unfoldable pub validate_dataset_content : AcquisitionFormat → Bytes → String → Check
  unfolding validate_crs validate_geojson validate_csv validate_geotiff validate_shapefile_archive
      validate_json
  validate_dataset_content format content crs = elim (validator format content) [
    | ok errors ↦ ok (errors ++ validate_crs crs)
    | err e ↦ err e
  ]
