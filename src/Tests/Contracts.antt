-- ===== src/Tests/Contracts.antt =====
-- The declarations of the test in src/contract_parser.zig, and the round trip at two functions.
use sa_plugin_sla.Prelude.{pos, negsuc, some, none, true, false, ◌≡◌, refl, [], ◌∷◌, map}
use mathlib.Core.Option
use sa_plugin_sla.Compiler.Text.{
  codes, drop_while, take_while, trim_end, trim, split_scalar, last_is, parse_digits,
  parse_magnitude, signed_i64, parse_i64,
}
use sa_plugin_sla.Compiler.Contracts.{
  Param, ExternalFunction, close_paren, marked_param, parse_param, parse_params, fallible_type,
  parse_return, extern_from_name, parse_extern_line, parse_sai_lines, parse_sai,
}
use sa_plugin_sla.Compiler.Defines.{LayoutDefine, parse_def_line, parse_sal_lines, parse_sal}
use sa_plugin_sla.Compiler.ContractPrinter.{is_word_byte, IsPlain, nil, cons, print_sai}
use sa_plugin_sla.Compiler.ContractRoundTrip.{parse_sai-print_sai}
use sa_plugin_sla.Compiler.Constants.{
  Constant, is_name_char, AreConstants, plus, minus, print_sal, define,
}
use sa_plugin_sla.Compiler.Constants
use sa_plugin_sla.Compiler.ConstantRoundTrip.{parse_sal-print_sal}

abbrev by_value : Param
by_value = record {
  name = codes "ns";
  ty = codes "u64";
  is_borrow = false;
  is_move = false;
  is_raw = false;
}

abbrev borrowed : Param
borrowed = record {
  name = codes "out_ptr";
  ty = codes "ptr";
  is_borrow = true;
  is_move = false;
  is_raw = false;
}

abbrev sleep_ns : ExternalFunction
sleep_ns = record {
  name = codes "sa_time_sleep_ns";
  params = by_value ∷ [];
  ret_ty = codes "i32";
  return_fallible = true;
  is_variadic = false;
}

abbrev printf : ExternalFunction
printf = record {
  name = codes "printf";
  params = borrowed ∷ by_value ∷ [];
  ret_ty = codes "u32";
  return_fallible = false;
  is_variadic = true;
}

by_value-IsPlain : IsPlain by_value
unfolding is_word_byte
by_value-IsPlain = record {
  name = record { word = refl; nonempty = refl };
  ty = record { word = refl; nonempty = refl };
  one_mark = refl;
}

borrowed-IsPlain : IsPlain borrowed
unfolding is_word_byte
borrowed-IsPlain = record {
  name = record { word = refl; nonempty = refl };
  ty = record { word = refl; nonempty = refl };
  one_mark = refl;
}

parse_sai-print_sai_example :
    parse_sai (print_sai (sleep_ns ∷ printf ∷ [])) ≡ some (sleep_ns ∷ printf ∷ [])
unfolding is_word_byte
parse_sai-print_sai_example = parse_sai-print_sai (
    cons
      (record {
        name = record { word = refl; nonempty = refl };
        params = cons by_value-IsPlain nil;
        ret_ty = record { word = refl; nonempty = refl };
        fixed = refl;
      })
      (cons
        (record {
          name = record { word = refl; nonempty = refl };
          params = cons borrowed-IsPlain (cons by_value-IsPlain nil);
          ret_ty = record { word = refl; nonempty = refl };
          fixed = refl;
        })
        nil))

parameter_needs_a_type : parse_sai (codes "@extern f(x) -> u32") ≡ none
unfolding parse_sai parse_sai_lines parse_extern_line extern_from_name trim drop_while trim_end
    split_scalar parse_return fallible_type last_is take_while close_paren parse_params parse_param
    marked_param
parameter_needs_a_type = refl

dots_need_a_parameter : parse_sai (codes "@extern f(...) -> u32") ≡ none
unfolding parse_sai parse_sai_lines parse_extern_line extern_from_name trim drop_while trim_end
    split_scalar parse_return fallible_type last_is take_while close_paren parse_params parse_param
    marked_param
dots_need_a_parameter = refl

no_arrow :
    parse_sai (codes "  @extern f( ) \r\n")
    ≡ some (
        record {
          name = codes "f";
          params = [];
          ret_ty = codes "void";
          return_fallible = false;
          is_variadic = false;
        }
        ∷ [])
unfolding parse_sai parse_sai_lines parse_extern_line extern_from_name trim drop_while trim_end
    split_scalar parse_return fallible_type last_is take_while close_paren parse_params parse_param
    marked_param
no_arrow = refl

defines :
    Option.map (map (λ (d : LayoutDefine). d.val_int)) (
      parse_sal
        (codes "#def RcBox_SIZE = 24\n#def RcBox_strong = +0\n#def A = x\n#def RcBox_weak=-8"))
    ≡ some (pos 24 ∷ pos 0 ∷ pos 0 ∷ negsuc 7 ∷ [])
unfolding parse_sal parse_sal_lines parse_def_line trim drop_while trim_end split_scalar take_while
    last_is parse_digits parse_magnitude signed_i64 parse_i64
defines = refl

comments_skipped : parse_sai (codes "// @extern f\n\nother\n") ≡ some []
unfolding parse_sai parse_sai_lines trim drop_while trim_end split_scalar
comments_skipped = refl

abbrev weak_offset : Constant
weak_offset = record { name = codes "RcBox_weak"; sign = plus; magnitude = 8 }

abbrev below_i64 : Constant
below_i64 = record { name = codes "LOW"; sign = minus; magnitude = 9223372036854775809 }

two_constants : AreConstants (weak_offset ∷ below_i64 ∷ [])
unfolding is_name_char
two_constants =
    Constants.cons (record { name = refl; nonempty = refl })
      (Constants.cons (record { name = refl; nonempty = refl }) Constants.nil)

parse_sal-print_sal_example :
    parse_sal (print_sal (weak_offset ∷ below_i64 ∷ []))
    ≡ some (define weak_offset ∷ define below_i64 ∷ [])
parse_sal-print_sal_example = parse_sal-print_sal two_constants
