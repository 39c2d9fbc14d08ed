-- ===== src/Errors/Results.antt =====
-- `Result`, and the functions that return or take apart a result or an option.
use sa_plugin_sla.Prelude.{
  if◌then◌else◌, ℤ, pos, negsuc, ltb_ℤ, ℕ, String, Option, none, some, [], ◌∷◌, str_len, str_append,
}
use sa_plugin_sla.Rust.{
  unwrap_failed, explicit, Outcome, done, panic, ◌>>=◌, unwrap, lit, Exit, exit_ok, print, int_line,
  nat_line, add_i32, mul_i32,
}

pub data Result {ℓ κ} (A : Type ℓ) (E : Type κ) : Type (ℓ ⊔ κ) where
  ok : A → Result A E
  err : E → Result A E

-- 176_result_flattening
unfoldable pub flatten_result : Result (Result ℤ ℤ) ℤ → Result ℤ ℤ
flatten_result (ok inner) = inner
flatten_result (err e) = err e

-- `Result::unwrap_or`
unfoldable pub unwrap_or : Result ℤ ℤ → ℤ → ℤ
unwrap_or (ok v) default = v
unwrap_or (err e) default = default

unfoldable pub flattening_main : Exit
unfolding flatten_result unwrap_or
flattening_main = print int_line (done (unwrap_or (flatten_result (ok (ok (pos 2)))) (negsuc 0)))

-- 19_result_question: `?` returns an error at once.
unfoldable pub triple_ok : ℤ → Outcome (Result ℤ ℤ)
triple_ok x = mul_i32 x (pos 3) >>= λ v. done (ok v)

unfoldable pub question : Result ℤ ℤ → Result ℤ ℤ
question (ok value) = ok value
question (err e) = err e

unfoldable pub compute : ℤ → Outcome (Result ℤ ℤ)
unfolding triple_ok question
compute x = triple_ok x >>= λ r. done (question r)

unfoldable pub result_question_main : Exit
unfolding compute unwrap_or
result_question_main = print int_line (compute (pos 7) >>= λ r. done (unwrap_or r (negsuc 0)))

-- 50_error_chain
unfoldable pub parse_ok : Result ℤ ℤ
parse_ok = ok (pos 7)

-- `Result::unwrap` and `Result::unwrap_err`
unfoldable pub unwrap_ok : Result ℤ ℤ → Outcome ℤ
unwrap_ok (ok v) = done v
unwrap_ok (err e) = panic unwrap_failed

unfoldable pub unwrap_err : Result ℤ ℤ → Outcome ℤ
unwrap_err (ok v) = panic unwrap_failed
unwrap_err (err e) = done e

unfoldable pub error_chain_main : Exit
unfolding parse_ok unwrap_ok
error_chain_main = print int_line (unwrap_ok parse_ok >>= λ value. add_i32 value (pos 5))

-- 177_unwrap_unwrap_err
unfoldable pub unwrap_main : Exit
unfolding unwrap_err
unwrap_main =
    print int_line (do value ← unwrap (some (pos 5)); e ← unwrap_err (err (pos 7)); add_i32 value e)

-- 180_try_trait_v2: an overflow panics inside the function, so the outcome is the outer one.
unfoldable pub add_one : Option ℤ → Outcome (Option ℤ)
add_one none = done none
add_one (some inner) = add_i32 inner (pos 1) >>= λ v. done (some v)

unfoldable pub try_trait_main : Exit
unfolding add_one
try_trait_main = print int_line (do r ← add_one (some (pos 2)); unwrap r)

-- 104_if_let_chains
unfoldable pub chained_sum : Option ℤ → Option ℤ → Option ℤ → Outcome ℤ
chained_sum (some x) (some y) (some z) = add_i32 x y >>= λ xy. add_i32 xy z
chained_sum _ _ _ = done (pos 0)

unfoldable pub if_let_main : Exit
unfolding chained_sum
if_let_main = print int_line (chained_sum (some (pos 2)) (some (pos 3)) (some (pos 4)))

-- 105_let_else
unfoldable pub let_else : Option ℤ → Exit
let_else none = exit_ok ((lit "0" ∷ []) ∷ [])
let_else (some x) = exit_ok (int_line x ∷ [])

unfoldable pub let_else_main : Exit
unfolding let_else
let_else_main = let_else (some (pos 5))

-- 30_manual_guard_branch
unfoldable pub guard_branch : Option ℤ → ℤ
guard_branch (some x) = if ltb_ℤ (pos 3) x then x else pos 0
guard_branch none = negsuc 0

unfoldable pub guard_branch_main : Exit
unfolding guard_branch
guard_branch_main = print int_line (done (guard_branch (some (pos 5))))

-- 18_option_map and 46_option_default
unfoldable pub choose : Option ℤ → ℤ → ℤ
choose (some v) fallback = v
choose none fallback = fallback

unfoldable pub add_five : Option ℤ → Outcome (Option ℤ)
add_five none = done none
add_five (some x) = add_i32 x (pos 5) >>= λ v. done (some v)

unfoldable pub option_map_main : Exit
unfolding choose add_five
option_map_main = print int_line (add_five (some (pos 3)) >>= λ o. done (choose o (pos 0)))

unfoldable pub option_default_main : Exit
unfolding choose
option_default_main = print int_line (done (choose (some (pos 9)) (pos 1)))

-- 172_eyre_color_eyre and 175_thiserror_macro_derive
unfoldable pub render_context_line : String → String
render_context_line message = str_append "context: " message

unfoldable pub context_main : Exit
unfolding render_context_line
context_main = print nat_line (done (str_len (render_context_line "boom")))

unfoldable pub config_error_message : String → String
config_error_message path = str_append "invalid config: " path

unfoldable pub thiserror_main : Exit
unfolding config_error_message
thiserror_main = exit_ok ((lit (config_error_message "oops") ∷ []) ∷ [])

-- 171_anyhow_dynamic_error: the error is a boxed message.
unfoldable pub fail : Result String String
fail = err "anyhow"

unfoldable pub message_len : Result String String → ℕ
message_len (ok msg) = str_len msg
message_len (err e) = 0

unfoldable pub dynamic_error_main : Exit
unfolding fail message_len
dynamic_error_main = print nat_line (done (message_len fail))

-- 173_catch_unwind_panic: whether the closure returned.
unfoldable pub catch_unwind : {A : Type 0} → Outcome A → ℤ
catch_unwind (done a) = pos 1
catch_unwind (panic e) = pos 0

-- The panic hook of the library writes to standard error.
unfoldable pub catch_unwind_main : Exit
unfolding catch_unwind
catch_unwind_main =
    let stopped : Outcome ℤ = panic explicit in print int_line (done (catch_unwind stopped))

-- 178_panic_hook_override: the hook prints before the panic ends the program.
unfoldable pub panic_hook_main : Exit
panic_hook_main = record { stdout = (lit "1" ∷ []) ∷ []; status = panic explicit }
