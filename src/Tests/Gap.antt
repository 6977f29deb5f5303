-- ===== src/Tests/Gap.antt =====
-- internal/datagap: two prices four hours apart.
use poly_asian_data.Base.{ℕ, List, [], ◌∷◌, All}
use poly_asian_data.Float.FixedPoint.{Fixed, fixed_float, Fixed-IsOrdered}
use poly_asian_data.Sort.{stable_sort, All-stable_sort, stable_sort-IsOrderly}
use poly_asian_data.Gap.{default_opts, normalize, hours}
use poly_asian_data.Gap.Prices.{PricePoint, fill_prices, synth_at}
use poly_asian_data.Gap.Bounds.{IsSort, IsIn, fill_prices-IsIn}
use poly_asian_data.Gap.Signs.{Fixed-HasSigns}
use poly_asian_data.Gap.Between.{Origin, synth_at-Origin}

abbrev cents : ℕ → Fixed
cents n = fixed_float.lit n 2

abbrev real : List (PricePoint Fixed)
real =
    record { time = hours 10; price = cents 40; source = "" }
    ∷ record { time = hours 14; price = cents 60; source = "" }
    ∷ []

abbrev grid : List ℕ
grid = hours 11 ∷ hours 14 ∷ hours 15 ∷ []

stable_sort-IsSort : IsSort {F = Fixed} stable_sort
stable_sort-IsSort = record {
  keeps = λ less P xs. All-stable_sort less P xs;
  orders = λ less asym xs. stable_sort-IsOrderly less asym xs;
}

fill_prices-IsIn_example :
    All (IsIn (normalize default_opts)) ((fill_prices stable_sort real grid default_opts).0)
fill_prices-IsIn_example =
    fill_prices-IsIn Fixed-IsOrdered stable_sort stable_sort-IsSort real grid default_opts

synth_at-Origin_example :
    Origin default_opts real (hours 11) (synth_at default_opts real (hours 11))
synth_at-Origin_example =
    synth_at-Origin Fixed-IsOrdered Fixed-HasSigns default_opts real (hours 11)
