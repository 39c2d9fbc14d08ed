-- ===== src/Compiler/Lexing/Passes.antt =====
-- src/parser.zig, skipBlockSpan: the loop finds the block by the modes of the lexer.
use sa_plugin_sla.Prelude.{
  ℕ, suc, ◌+◌, ◌≡◌, refl, sym, subst, ◌∙◌, Bool, true, false, List, arith, ap,
}
use sa_plugin_sla.Rust.{done}
use sa_plugin_sla.Compiler.Lexing.Tokens.{
  Tag, template_start, template_interp, template_end, l_brace, r_brace, Token,
}
use sa_plugin_sla.Compiler.Lexing.Lexer.{Modes, close_brace}
use sa_plugin_sla.Compiler.Lexing.Scanned.{is_plain}
use sa_plugin_sla.Compiler.Lexing.Moves.{
  Moves, stays, stops, opens, closes, starts, interpolates, ends,
}
use sa_plugin_sla.Compiler.Lexing.PeekBlock.{Peek, go_on, peek_template_end}
use sa_plugin_sla.Compiler.Lexing.BlockEnd.{Answer, block_step, plain-block_step}
use sa_plugin_sla.Compiler.Lexing.Rounds.{starting}
use sa_plugin_sla.Compiler.Lexing.SkipBlock.{is_eof, skip_r_brace, skip_outside}
use sa_plugin_sla.Compiler.Lexing.SkipRounds.{
  settle, Passes, code-skip, text-skip, plain-skip_token, opening, closed, skip_r_brace-closed,
  closed-modes, closed-counts,
}

settle-suc : (go : ℕ → Answer) (n last d : ℕ) → n ≡ suc d → settle go n last ≡ go n
settle-suc go n last d e = subst (λ (k : ℕ). settle go k last ≡ go k) (sym e) refl

on-closed :
    (p : Peek) (stop : ℕ)
    → p.modes.in_template ≡ false
    → skip_r_brace stop p ≡ go_on (closed stop p.modes.interp_depth p.modes.tmpl_stack p.depth)
on-closed p stop c =
    subst
      (λ (b : Bool).
        skip_r_brace stop (record p { modes = record p.modes { in_template = b } })
        ≡ go_on (closed stop p.modes.interp_depth p.modes.tmpl_stack p.depth))
      (sym c) (skip_r_brace-closed stop p.modes.interp_depth p.modes.tmpl_stack p.depth p.last)

on-closed-modes :
    (p : Peek) (stop : ℕ)
    → p.modes.in_template ≡ false
    → (closed stop p.modes.interp_depth p.modes.tmpl_stack p.depth).modes ≡ close_brace p.modes
on-closed-modes p stop c =
    subst
      (λ (b : Bool).
        (closed stop p.modes.interp_depth p.modes.tmpl_stack p.depth).modes
        ≡ close_brace (record p.modes { in_template = b }))
      (sym c) (closed-modes stop p.modes.interp_depth p.modes.tmpl_stack p.depth)

on-closed-counts :
    (p : Peek) (stop d : ℕ) (go : ℕ → Answer)
    → p.depth ≡ suc d
    → let q = closed stop p.modes.interp_depth p.modes.tmpl_stack p.depth in
      block_step go r_brace stop q.modes.in_template p.depth ≡ settle go q.depth q.last
on-closed-counts p stop d go e =
    subst
      (λ (n : ℕ).
        let q = closed stop p.modes.interp_depth p.modes.tmpl_stack n in
        block_step go r_brace stop q.modes.in_template n ≡ settle go q.depth q.last)
      (sym e) (closed-counts go stop p.modes.interp_depth p.modes.tmpl_stack d)

-- Every token but the end of the input is passed over, while a brace is open.
pub Moves-Passes :
    {tag : Tag} {after : Modes} (t : Token) (p : Peek) (d : ℕ)
    → Moves p.modes tag after
    → t.tag ≡ tag
    → is_eof tag ≡ false
    → p.depth ≡ suc d
    → Passes t p tag after
unfolding skip_outside block_step
Moves-Passes {tag} t p d (stays plain) e n k = record {
  to = p;
  steps = plain-skip_token t p (subst (λ (x : Tag). is_plain x ≡ true) (sym e) plain);
  mirrors = refl;
  counts = λ go.
      plain-block_step go tag t.loc.end p.modes.in_template p.depth plain
      ∙ sym (settle-suc go p.depth p.last d k);
}
Moves-Passes t p d (stops code f) e n k = absurd (let last = ap is_eof (sym f) ∙ n in cc)
Moves-Passes {after = m} t p d (opens code f o) e n k = record {
  to = record { modes = m; depth = p.depth + 1; last = t.loc.end };
  steps = code-skip t p _ l_brace code (e ∙ f) (opening p t.loc.end m o);
  mirrors = refl;
  counts = λ go.
      ap (λ (x : Tag). block_step go x t.loc.end m.in_template p.depth) f
      ∙ ap go (omega arith)
      ∙ sym (settle-suc go (p.depth + 1) t.loc.end p.depth (omega arith));
}
Moves-Passes {after = m} t p d (closes code f a) e n k = record {
  to = closed t.loc.end p.modes.interp_depth p.modes.tmpl_stack p.depth;
  steps = code-skip t p _ r_brace code (e ∙ f) (ap done (on-closed p t.loc.end code));
  mirrors = on-closed-modes p t.loc.end code ∙ sym a;
  counts = λ go.
      ap (λ (x : Tag). block_step go x t.loc.end m.in_template p.depth) f
      ∙ ap (λ (x : Modes). block_step go r_brace t.loc.end x.in_template p.depth)
          (a ∙ sym (on-closed-modes p t.loc.end code))
      ∙ on-closed-counts p t.loc.end d go k;
}
Moves-Passes {after = m} t p d (starts code f room a) e n k = record {
  to = record p { modes = m };
  steps = code-skip t p _ template_start code (e ∙ f) (
      ap done (starting p room)
      ∙ ap (λ (x : Modes). done (go_on (record p { modes = x }))) (sym a));
  mirrors = refl;
  counts = λ go.
      ap (λ (x : Tag). block_step go x t.loc.end m.in_template p.depth) f
      ∙ sym (settle-suc go p.depth p.last d k);
}
Moves-Passes {after = m} t p d (interpolates text f a) e n k = record {
  to = record p { modes = m };
  steps =
      text-skip t p _ template_interp text (e ∙ f)
        (ap (λ (x : Modes). go_on (record p { modes = x })) (sym a));
  mirrors = refl;
  counts = λ go.
      ap (λ (x : Tag). block_step go x t.loc.end m.in_template p.depth) f
      ∙ sym (settle-suc go p.depth p.last d k);
}
Moves-Passes {after = m} t p d (ends depth depths text f s a) e n k = record {
  to = record p { modes = m };
  steps = text-skip t p _ template_end text (e ∙ f) (
      ap (λ (ds : List ℕ). peek_template_end ds p) s
      ∙ ap (λ (x : Modes). go_on (record p { modes = x })) (sym a));
  mirrors = refl;
  counts = λ go.
      ap (λ (x : Tag). block_step go x t.loc.end m.in_template p.depth) f
      ∙ sym (settle-suc go p.depth p.last d k);
}
