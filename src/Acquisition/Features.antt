-- ===== src/Acquisition/Features.antt =====
-- contexts/data_acquisition/domain/feature_extraction.py.
pub mod Exact
use Prim.Native.String.{◌++◌ as str_append}
use text.Mathlib.Text.{◌==◌ as str_eq}
use novaapi.Common.{
  ℕ, String, Bool, true, false, Option, none, some, List, [], ◌∷◌, ◌==◌, if◌then◌else◌,
}
use novaapi.Acquisition.Types.{
  RemoteSensingSource, sentinel_1, sentinel_2, SpectralIndex, ndvi, evi, savi, ndwi, lst, nbr, dnbr,
  spei,
}

-- The arithmetic of `float`; `literal "2.5"` is the number that the source writes so.
pub record Floats (V : Type 0) : Type 0 where
  pub literal : String → V
  pub add : V → V → V
  pub sub : V → V → V
  pub mul : V → V → V
  pub div : V → V → V
  pub pow : V → V → V
  pub tanh : V → V
  pub is_zero : V → Bool
  pub is_nonpositive : V → Bool

-- A logical band, and the text that names it.
pub data Band : Type 0 where
  blue green red nir swir1 swir2 thermal precipitation temperature : Band

abbrev pub band_text : Band → String
band_text blue = "BLUE"
band_text green = "GREEN"
band_text red = "RED"
band_text nir = "NIR"
band_text swir1 = "SWIR1"
band_text swir2 = "SWIR2"
band_text thermal = "THERMAL"
band_text precipitation = "PRECIPITATION"
band_text temperature = "TEMPERATURE"

abbrev pub source_value : RemoteSensingSource → String
source_value sentinel_1 = "SENTINEL_1"
source_value sentinel_2 = "SENTINEL_2"
source_value RemoteSensingSource.landsat = "LANDSAT"
source_value RemoteSensingSource.modis = "MODIS"
source_value RemoteSensingSource.chirps = "CHIRPS"
source_value RemoteSensingSource.era5 = "ERA5"

abbrev pub index_value : SpectralIndex → String
index_value ndvi = "NDVI"
index_value evi = "EVI"
index_value savi = "SAVI"
index_value ndwi = "NDWI"
index_value lst = "LST"
index_value nbr = "NBR"
index_value dnbr = "DNBR"
index_value spei = "SPEI"

-- `BAND_NAMES_BY_SOURCE`
unfoldable pub band_name : RemoteSensingSource → Band → Option String
band_name sentinel_2 blue = some "B2"
band_name sentinel_2 green = some "B3"
band_name sentinel_2 red = some "B4"
band_name sentinel_2 nir = some "B8"
band_name sentinel_2 swir1 = some "B11"
band_name sentinel_2 swir2 = some "B12"
band_name RemoteSensingSource.landsat blue = some "SR_B2"
band_name RemoteSensingSource.landsat green = some "SR_B3"
band_name RemoteSensingSource.landsat red = some "SR_B4"
band_name RemoteSensingSource.landsat nir = some "SR_B5"
band_name RemoteSensingSource.landsat swir1 = some "SR_B6"
band_name RemoteSensingSource.landsat swir2 = some "SR_B7"
band_name RemoteSensingSource.landsat thermal = some "ST_B10"
band_name RemoteSensingSource.modis red = some "sur_refl_b01"
band_name RemoteSensingSource.modis nir = some "sur_refl_b02"
band_name RemoteSensingSource.modis blue = some "sur_refl_b03"
band_name RemoteSensingSource.modis green = some "sur_refl_b04"
band_name RemoteSensingSource.modis swir1 = some "sur_refl_b06"
band_name RemoteSensingSource.modis swir2 = some "sur_refl_b07"
band_name RemoteSensingSource.chirps precipitation = some "precipitation"
band_name RemoteSensingSource.era5 precipitation = some "total_precipitation"
band_name RemoteSensingSource.era5 temperature = some "mean_2m_air_temperature"
band_name _ _ = none

-- `_REQUIRED_BANDS_BY_INDEX`; the entry of dNBR is the bands that its branch looks up.
unfoldable pub required_bands : SpectralIndex → List Band
required_bands ndvi = nir ∷ red ∷ []
required_bands evi = nir ∷ red ∷ blue ∷ []
required_bands savi = nir ∷ red ∷ []
required_bands ndwi = green ∷ nir ∷ []
required_bands nbr = nir ∷ swir2 ∷ []
required_bands lst = thermal ∷ []
required_bands spei = precipitation ∷ temperature ∷ []
required_bands dnbr = nir ∷ swir2 ∷ []

abbrev pub index_rank : SpectralIndex → ℕ
index_rank ndvi = 0
index_rank evi = 1
index_rank savi = 2
index_rank ndwi = 3
index_rank lst = 4
index_rank nbr = 5
index_rank dnbr = 6
index_rank spei = 7

unfoldable pub same_index : SpectralIndex → SpectralIndex → Bool
same_index i j = index_rank i == index_rank j

module _ {A : Type 0} where
  -- `statistics.get(name)`
  unfoldable pub statistic : String → List (String × A) → Option A
  statistic name [] = none
  statistic name ((k, v) ∷ m) =
      let rest = statistic name m in if str_eq k name then some v else rest

  -- `features[index.value] = a`
  unfoldable pub assign : SpectralIndex → A → List (SpectralIndex × A) → List (SpectralIndex × A)
  assign i a [] = (i, a) ∷ []
  assign i a ((j, b) ∷ m) = if same_index j i then (j, a) ∷ m else (j, b) ∷ assign i a m

-- `", ".join(bands)`
abbrev pub join_bands : List Band → String
join_bands [] = ""
join_bands (b ∷ []) = band_text b
join_bands (b ∷ c ∷ bs) = str_append (band_text b) (str_append ", " (join_bands (c ∷ bs)))

infixl 5 ◌>>=◌
abbrev ◌>>=◌ : {A B : Type 0} → Option A → (A → Option B) → Option B
none >>= f = none
some a >>= f = f a

module _ {V : Type 0} (fl : Floats V) where
  open fl use {literal, add, sub, mul, div, pow, tanh, is_zero, is_nonpositive}

  unfoldable pub safe_ratio : V → V → V
  safe_ratio n d = if is_zero d then literal "0.0" else div n d

  unfoldable pub compute_ndvi : V → V → V
  unfolding safe_ratio
  compute_ndvi n r = safe_ratio (sub n r) (add n r)

  unfoldable pub compute_evi : V → V → V → V
  unfolding safe_ratio
  compute_evi n r b =
      let denominator =
        add (sub (add n (mul (literal "6") r)) (mul (literal "7.5") b)) (literal "1") in
      safe_ratio (mul (literal "2.5") (sub n r)) denominator

  -- `compute_savi` with the default of its third argument.
  unfoldable pub compute_savi : V → V → V
  unfolding safe_ratio
  compute_savi n r =
      let soil = literal "0.5" in
      safe_ratio (mul (add (literal "1") soil) (sub n r)) (add (add n r) soil)

  unfoldable pub compute_ndwi : V → V → V
  unfolding safe_ratio
  compute_ndwi g n = safe_ratio (sub g n) (add g n)

  unfoldable pub compute_nbr : V → V → V
  unfolding safe_ratio
  compute_nbr n s = safe_ratio (sub n s) (add n s)

  unfoldable pub compute_dnbr : V → V → V
  compute_dnbr pre_fire post_fire = sub pre_fire post_fire

  unfoldable pub compute_lst_celsius : V → V
  compute_lst_celsius kelvin = sub kelvin (literal "273.15")

  unfoldable pub thornthwaite_pet_mm : V → V
  thornthwaite_pet_mm t =
      if is_nonpositive t
      then literal "0.0"
      else (let h = pow (div t (literal "5.0")) (literal "1.514") in
          let a =
            add
              (add
                (sub (mul (literal "6.75e-7") (pow h (literal "3")))
                  (mul (literal "7.71e-5") (pow h (literal "2"))))
                (mul (literal "1.792e-2") h))
              (literal "0.49239") in
          mul (literal "16.0") (pow (div (mul (literal "10.0") t) h) a))

  unfoldable pub compute_spei : V → V → V
  unfolding thornthwaite_pet_mm
  compute_spei p t =
      mul (literal "3.0") (tanh (div (sub p (thornthwaite_pet_mm t)) (literal "100.0")))

  -- `_value`
  unfoldable pub value : RemoteSensingSource → List (String × V) → Band → Option V
  unfolding band_name statistic
  value source statistics b = elim (band_name source b) [
    | none ↦ none
    | some name ↦ statistic name statistics
  ]

  -- The value of an index other than dNBR, where all bands are there.
  unfoldable pub index_of : (Band → Option V) → SpectralIndex → Option V
  unfolding compute_ndvi compute_evi compute_savi compute_ndwi compute_nbr compute_lst_celsius
      compute_spei
  index_of val ndvi = do n ← val nir; r ← val red; some (compute_ndvi n r)
  index_of val evi = do n ← val nir; r ← val red; b ← val blue; some (compute_evi n r b)
  index_of val savi = do n ← val nir; r ← val red; some (compute_savi n r)
  index_of val ndwi = do g ← val green; n ← val nir; some (compute_ndwi g n)
  index_of val nbr = do n ← val nir; s ← val swir2; some (compute_nbr n s)
  index_of val lst = do t ← val thermal; some (compute_lst_celsius t)
  index_of val spei = do p ← val precipitation; t ← val temperature; some (compute_spei p t)
  index_of val dnbr = none

  -- The value of dNBR from two periods.
  unfoldable pub dnbr_of : (Band → Option V) → (Band → Option V) → Option V
  unfolding compute_dnbr compute_nbr
  dnbr_of pre post = do
    a ← pre nir
    b ← pre swir2
    c ← post nir
    d ← post swir2
    some (compute_dnbr (compute_nbr a b) (compute_nbr c d))

-- What the loop does with an index.
pub data Feature (V : Type 0) : Type 0 where
  computed : V → Feature V
  skipped : String → Feature V

abbrev pub or_skipped : {V : Type 0} → String → Option V → Feature V
or_skipped reason none = skipped reason
or_skipped reason (some v) = computed v

abbrev pub lacks_dnbr : RemoteSensingSource → String
lacks_dnbr source =
    str_append (source_value source) " does not provide the NIR/SWIR2 bands required for dNBR"

abbrev pub lacks_bands : RemoteSensingSource → SpectralIndex → List Band → String
lacks_bands source i bands = str_append (source_value source) (
    str_append " does not provide the band(s) required for "
      (str_append (index_value i) (str_append " (" (str_append (join_bands bands) ")"))))

module _ {V : Type 0} (fl : Floats V) (source : RemoteSensingSource)
    (statistics : List (String × V)) (comparison : Option (List (String × V))) where
  -- The body of the loop of `extract_features` on one index, up to the assignment.
  unfoldable pub feature : SpectralIndex → Feature V
  unfolding value index_of dnbr_of required_bands
  feature dnbr = elim comparison [
    | none ↦ skipped "dNBR requires a comparison_temporal_start/end window (pre/post fire)"
    | some later ↦
        or_skipped (lacks_dnbr source)
          (dnbr_of fl (value fl source statistics) (value fl source later))
  ]
  feature i =
      or_skipped (lacks_bands source i (required_bands i))
        (index_of fl (value fl source statistics) i)

abbrev pub Features : Type 0 → Type 0
Features V = List (SpectralIndex × V) × List (SpectralIndex × String)

abbrev pub record_feature : {V : Type 0} → SpectralIndex → Feature V → Features V → Features V
record_feature i (computed v) (c, s) = (assign i v c, s)
record_feature i (skipped reason) (c, s) = (c, assign i reason s)

module _ {V : Type 0} where
  unfoldable pub extract_from :
      (SpectralIndex → Feature V) → List SpectralIndex → Features V → Features V
  extract_from f [] acc = acc
  extract_from f (i ∷ is) acc = extract_from f is (record_feature i (f i) acc)

  unfoldable pub extract_features :
      Floats V
      → RemoteSensingSource
      → List (String × V)
      → List SpectralIndex
      → Option (List (String × V))
      → Features V
  unfolding extract_from feature
  extract_features fl source statistics requested comparison =
      extract_from (feature fl source statistics comparison) requested ([], [])
