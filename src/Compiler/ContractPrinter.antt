-- ===== src/Compiler/ContractPrinter.antt =====
-- A printer for the declarations that src/contract_parser.zig reads, in the form the `.sai` files
-- of the repository have, and the functions it is meant for.
use sa_plugin_sla.Prelude.{
  ◌==◌, if◌then◌else◌, ℕ, ◌≡◌, Bool, true, false, not, ◌&&◌, ◌||◌, List, [], ◌∷◌, ◌++◌,
}
use sa_plugin_sla.Compiler.Text.{Bytes, codes, is_empty}
use sa_plugin_sla.Compiler.Contracts.{Param, ExternalFunction, dots, no_params}
use sa_plugin_sla.Compiler.TextLaws.{every}

abbrev pub reserved : Bytes
reserved = codes " \t\r\n(),:!&^*."

abbrev pub one_of : Bytes → ℕ → Bool
one_of [] c = false
one_of (x ∷ xs) c = c == x || one_of xs c

-- The bytes of names and types that mean nothing to the parser.
unfoldable pub is_word_byte : ℕ → Bool
is_word_byte c = not (one_of reserved c)

pub record IsWord (s : Bytes) : Type 0 where
  pub word : every is_word_byte s ≡ true
  pub nonempty : is_empty s ≡ false

-- A parameter with at most one mark.
pub record IsPlain (p : Param) : Type 0 where
  pub name : IsWord p.name
  pub ty : IsWord p.ty
  pub one_mark : (p.is_borrow && (p.is_move || p.is_raw) || p.is_move && p.is_raw) ≡ false

pub data ArePlain : List Param → Type 0 where
  nil : ArePlain []
  cons : {p : Param} {ps : List Param} → IsPlain p → ArePlain ps → ArePlain (p ∷ ps)

pub record IsPrintable (f : ExternalFunction) : Type 0 where
  pub name : IsWord f.name
  pub params : ArePlain f.params
  pub ret_ty : IsWord f.ret_ty
  pub fixed : (f.is_variadic && no_params f.params) ≡ false

pub data ArePrintable : List ExternalFunction → Type 0 where
  nil : ArePrintable []
  cons :
      {f : ExternalFunction} {fs : List ExternalFunction}
      → IsPrintable f
      → ArePrintable fs
      → ArePrintable (f ∷ fs)

abbrev pub mark : Param → Bytes
mark p =
    if p.is_borrow
    then b'&' ∷ []
    else if p.is_move
    then b'^' ∷ []
    else if p.is_raw
    then b'*' ∷ []
    else []

abbrev pub print_param : Param → Bytes
print_param p = (mark p ++ p.name) ++ (b':' ∷ b' ' ∷ p.ty)

abbrev pub pieces : List Param → Bool → List Bytes
pieces [] true = dots ∷ []
pieces [] false = []
pieces (p ∷ ps) variadic = print_param p ∷ pieces ps variadic

abbrev pub more : List Bytes → Bytes
more [] = []
more (y ∷ ys) = b',' ∷ (b' ' ∷ y) ++ more ys

abbrev pub join : List Bytes → Bytes
join [] = []
join (y ∷ ys) = y ++ more ys

abbrev pub bang : Bool → Bytes
bang true = b'!' ∷ []
bang false = []

abbrev pub print_return : ExternalFunction → Bytes
print_return f = codes " -> " ++ (f.ret_ty ++ bang f.return_fallible)

abbrev pub print_behind_name : ExternalFunction → Bytes
print_behind_name f = b'(' ∷ (join (pieces f.params f.is_variadic) ++ (b')' ∷ print_return f))

abbrev pub print_function : ExternalFunction → Bytes
print_function f = codes "@extern " ++ (f.name ++ print_behind_name f)

abbrev pub print_sai : List ExternalFunction → Bytes
print_sai [] = []
print_sai (f ∷ fs) = print_function f ++ (b'\n' ∷ print_sai fs)
