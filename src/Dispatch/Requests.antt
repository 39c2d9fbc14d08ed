-- ===== src/Dispatch/Requests.antt =====
-- Requests, commands and texts: demos/rosetta 77_http_route, 78_cli_args, 88_text_index, 90_app_shell,
-- 94_graphql_router, 95_repl_shell and 68_parser_tokens. A `match` on texts is a chain of equality
-- tests, in the order of the arms.
use sa_plugin_sla.Prelude.{
  ltb, if◌then◌else◌, ℤ, pos, negsuc, ℕ, ◌-◌, ◌%◌, ◌^◌, String, Bool, true, false, not, ◌&&◌, List,
  [], ◌∷◌, str_eq, str_len,
}
use sa_plugin_sla.Rust.{Outcome, done, ◌>>=◌, Exit, print, int_line, add_i32}

-- 77_http_route
pub record Request : Type 0 where
  pub method : String
  pub path : String

unfoldable pub route_status : Request → ℤ
route_status req =
    if str_eq req.method "GET" && str_eq req.path "/health"
    then pos 200
    else if str_eq req.method "POST" && str_eq req.path "/jobs"
    then pos 202
    else pos 404

unfoldable pub http_route_main : Exit
unfolding route_status
http_route_main = print int_line (done (route_status (record { method = "POST"; path = "/jobs" })))

-- 78_cli_args
pub record CliCommand : Type 0 where
  pub command : String
  pub release : Bool

unfoldable pub exit_code : CliCommand → ℤ
exit_code cmd = if str_eq cmd.command "build" && cmd.release then pos 0 else pos 2

unfoldable pub cli_args_main : Exit
unfolding exit_code
cli_args_main = print int_line (done (exit_code (record { command = "build"; release = true })))

-- 88_text_index
unfoldable pub postings_for : String → ℤ
postings_for term = if str_eq term "rust" then pos 2 else if str_eq term "sla" then pos 3 else pos 0

unfoldable pub text_index_main : Exit
unfolding postings_for
text_index_main = print int_line (done (postings_for "sla"))

-- 90_app_shell
unfoldable pub dispatch : String → Bool → ℤ
dispatch command config_loaded =
    if str_eq command "sync" && config_loaded
    then pos 0
    else if str_eq command "status" && config_loaded
    then pos 1
    else pos 64

unfoldable pub app_shell_main : Exit
unfolding dispatch
app_shell_main = print int_line (done (dispatch "sync" true))

-- 94_graphql_router
unfoldable pub resolver_id : String → String → Bool → ℤ
resolver_id operation field nested =
    if str_eq operation "query" && (str_eq field "user" && not nested)
    then pos 11
    else if str_eq operation "query" && (str_eq field "user" && nested)
    then pos 12
    else if str_eq operation "mutation" && (str_eq field "createUser" && not nested)
    then pos 21
    else pos 0

unfoldable pub graphql_router_main : Exit
unfolding resolver_id
graphql_router_main = print int_line (done (resolver_id "query" "user" false))

-- 95_repl_shell
unfoldable pub eval_line : String → ℤ
eval_line line =
    if str_eq line ":quit"
    then pos 0
    else if str_eq line ":mode"
    then pos 3
    else if str_eq line "help"
    then pos 1
    else pos 2

unfoldable pub repl_shell_main : Exit
unfolding eval_line
repl_shell_main = print int_line (done (eval_line ":mode"))

-- 68_parser_tokens. `value.len() as i32` keeps the low 32 bits of the length, as a signed number.
unfoldable pub as_i32 : ℕ → ℤ
as_i32 n = let w = n % 2 ^ 32 in if ltb w (2 ^ 31) then pos w else negsuc (2 ^ 32 - w - 1)

unfoldable pub token_value : String → ℤ
unfolding as_i32
token_value token =
    if str_eq token "let"
    then pos 10
    else if str_eq token "="
    then pos 3
    else as_i32 (str_len token)

unfoldable pub token_score_from : ℤ → List String → Outcome ℤ
unfolding token_value
token_score_from score [] = done score
token_score_from score (token ∷ tokens) = do
  score' ← add_i32 score (token_value token)
  token_score_from score' tokens

unfoldable pub token_score : List String → Outcome ℤ
unfolding token_score_from
token_score tokens = token_score_from (pos 0) tokens

unfoldable pub parser_tokens_main : Exit
unfolding token_score
parser_tokens_main = print int_line (token_score ("let" ∷ "x" ∷ "=" ∷ "1" ∷ []))
