-- ===== src/Compiler/Constants.antt =====
-- A printer for the constants that src/contract_parser.zig reads, in the form the `.sal` files
-- have.
use sa_plugin_sla.Prelude.{
  leb, if◌then◌else◌, ℤ, pos, sub_ℕ, ℕ, ◌≡◌, Bool, true, false, not, List, [], ◌∷◌, ◌++◌,
}
use sa_plugin_sla.Compiler.Text.{Bytes, codes, is_empty}
use sa_plugin_sla.Compiler.Defines.{LayoutDefine}
use sa_plugin_sla.Compiler.TextLaws.{every}
use sa_plugin_sla.Compiler.ContractPrinter.{one_of}
use sa_plugin_sla.Companions.Decimal.{decimal}

pub data Sign : Type 0 where
  unsigned plus minus : Sign

-- A constant with its value in decimal.
pub record Constant : Type 0 where
  pub name : Bytes
  pub sign : Sign
  pub magnitude : ℕ

abbrev pub reserved_in_names : Bytes
reserved_in_names = codes " \t\r\n="

unfoldable pub is_name_char : ℕ → Bool
is_name_char c = not (one_of reserved_in_names c)

pub record IsConstant (c : Constant) : Type 0 where
  pub name : every is_name_char c.name ≡ true
  pub nonempty : is_empty c.name ≡ false

pub data AreConstants : List Constant → Type 0 where
  nil : AreConstants []
  cons :
      {c : Constant} {cs : List Constant} → IsConstant c → AreConstants cs → AreConstants (c ∷ cs)

abbrev pub print_sign : Sign → Bytes
print_sign unsigned = []
print_sign plus = b'+' ∷ []
print_sign minus = b'-' ∷ []

abbrev pub print_value : Constant → Bytes
print_value c = print_sign c.sign ++ decimal c.magnitude

abbrev pub print_define : Constant → Bytes
print_define c = codes "#def " ++ (c.name ++ (codes " = " ++ print_value c))

abbrev pub print_sal : List Constant → Bytes
print_sal [] = []
print_sal (c ∷ cs) = print_define c ++ (b'\n' ∷ print_sal cs)

-- The value of a constant; it is 0 if it is no `i64`.
abbrev pub value_of : Sign → ℕ → ℤ
value_of unsigned n = if leb n 9223372036854775807 then pos n else pos 0
value_of plus n = if leb n 9223372036854775807 then pos n else pos 0
value_of minus n = if leb n 9223372036854775808 then sub_ℕ 0 n else pos 0

abbrev pub define : Constant → LayoutDefine
define c = record { name = c.name; val_str = print_value c; val_int = value_of c.sign c.magnitude }
