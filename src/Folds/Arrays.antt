-- ===== src/Folds/Arrays.antt =====
-- Sums of arrays, of windows of them, and of what an iterator makes of them. `sum` of a lazy iterator
-- computes an element when it adds it, which the maps here keep.
use sa_plugin_sla.Prelude.{
  leb, if◌then◌else◌, length, ℤ, pos, eqb_ℤ, ℕ, zero, suc, ◌-◌, ◌&&◌, List, [], ◌∷◌,
}
use sa_plugin_sla.Rust.{
  out_of_bounds, Outcome, done, panic, ◌>>=◌, Exit, print, int_line, add_i32, mul_i32, rem_i32,
  sum_i32,
}

-- 44_slice_iteration and 116_va_list_variadic
unfoldable pub sum : List ℤ → Outcome ℤ
sum values = sum_i32 values

unfoldable pub slice_iteration_main : Exit
unfolding sum
slice_iteration_main = print int_line (sum (pos 1 ∷ pos 2 ∷ pos 3 ∷ pos 4 ∷ []))

-- 116_va_list_variadic
unfoldable pub variadic_main : Exit
unfolding sum
variadic_main = print int_line (sum (pos 1 ∷ pos 2 ∷ pos 3 ∷ []))

-- 29_const_data
unfoldable pub values : List ℤ
values = pos 1 ∷ pos 2 ∷ pos 3 ∷ []

unfoldable pub const_data_main : Exit
unfolding values
const_data_main = print int_line (sum_i32 values)

-- 13_array_sum
unfoldable pub array_sum_main : Exit
array_sum_main = print int_line (sum_i32 (pos 1 ∷ pos 2 ∷ pos 3 ∷ pos 4 ∷ []))

-- 119_simd_intrinsics
unfoldable pub simd_main : Exit
simd_main = print int_line (sum_i32 (pos 1 ∷ pos 2 ∷ pos 3 ∷ pos 4 ∷ []))

-- 14_slice_window: `values[low..high]` panics unless `low ≤ high ≤ values.len()`.
unfoldable pub skip : ℕ → List ℤ → List ℤ
skip zero xs = xs
skip (suc n) [] = []
skip (suc n) (x ∷ xs) = skip n xs

unfoldable pub first : ℕ → List ℤ → List ℤ
first zero xs = []
first (suc n) [] = []
first (suc n) (x ∷ xs) = x ∷ first n xs

unfoldable pub slice : ℕ → ℕ → List ℤ → Outcome (List ℤ)
unfolding skip first
slice low high xs =
    if leb low high && leb high (length xs)
    then done (first (high - low) (skip low xs))
    else panic out_of_bounds

unfoldable pub slice_window_main : Exit
unfolding slice
slice_window_main =
    print int_line (slice 1 3 (pos 1 ∷ pos 2 ∷ pos 3 ∷ pos 4 ∷ []) >>= λ window. sum_i32 window)

-- 33_iterator_map and 49_pipeline_map
unfoldable pub doubled_sum_from : ℤ → List ℤ → Outcome ℤ
doubled_sum_from acc [] = done acc
doubled_sum_from acc (x ∷ xs) = do
  twice ← mul_i32 x (pos 2)
  acc' ← add_i32 acc twice
  doubled_sum_from acc' xs

unfoldable pub iterator_map_main : Exit
unfolding doubled_sum_from
iterator_map_main = print int_line (doubled_sum_from (pos 0) (pos 1 ∷ pos 2 ∷ pos 3 ∷ []))

-- 49_pipeline_map
unfoldable pub pipeline_map_main : Exit
unfolding doubled_sum_from
pipeline_map_main = print int_line (doubled_sum_from (pos 0) (pos 1 ∷ pos 2 ∷ pos 3 ∷ []))

-- 34_iterator_filter
unfoldable pub even_sum_from : ℤ → List ℤ → Outcome ℤ
even_sum_from acc [] = done acc
even_sum_from acc (x ∷ xs) = do
  parity ← rem_i32 x (pos 2)
  acc' ← (if eqb_ℤ parity (pos 0) then add_i32 acc x else done acc)
  even_sum_from acc' xs

unfoldable pub iterator_filter_main : Exit
unfolding even_sum_from
iterator_filter_main =
    print int_line (even_sum_from (pos 0) (pos 1 ∷ pos 2 ∷ pos 3 ∷ pos 4 ∷ pos 5 ∷ []))
