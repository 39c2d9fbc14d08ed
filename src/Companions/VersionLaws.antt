-- ===== src/Companions/VersionLaws.antt =====
-- 206_pkg_version_resolution finds the version that a manifest has.
use sa_plugin_sla.Prelude.{
  ◌==◌, if◌then◌else◌, ℕ, ◌<◌, ◌≡◌, refl, ap, ◌∙◌, Bool, true, false, some, List, [], ◌∷◌, ◌++◌,
  arith,
}
use sa_plugin_sla.Compiler.Text.{Bytes, codes, drop_while, grow, split_scalar}
use sa_plugin_sla.Compiler.TextLaws.{
  every, is_not, every-append, every-implies, split_scalar-append, split_scalar-word, last_is-word,
}
use sa_plugin_sla.Companions.Versions.{
  without_return, end_lines, lines, is_version_line, find_line, second, three_numbers,
  manifest_version,
}
use sa_plugin_sla.Companions.Decimal.{decimal, is_digit, decimal-digits, parse_u32-decimal}

abbrev pub number : (ℕ × ℕ × ℕ) → Bytes
number (a, b, c) = decimal a ++ (b'.' ∷ (decimal b ++ (b'.' ∷ decimal c)))

abbrev pub version_line : (ℕ × ℕ × ℕ) → Bytes
version_line v = codes "version = " ++ (b'"' ∷ (number v ++ (b'"' ∷ [])))

-- The lines in front of a text.
abbrev pub behind_lines : List Bytes → Bytes → Bytes
behind_lines [] text = text
behind_lines (line ∷ more) text = line ++ (b'\n' ∷ behind_lines more text)

-- Lines that do not name a version.
pub data AreOther : List Bytes → Type 0 where
  nil : AreOther []
  cons :
      {line : Bytes} {more : List Bytes}
      → every (is_not b'\n') line ≡ true
      → is_version_line (without_return line) ≡ false
      → AreOther more
      → AreOther (line ∷ more)

pub record IsU32 (v : ℕ × ℕ × ℕ) : Type 0 where
  pub major : v.0 < 4294967296
  pub minor : v.1 < 4294967296
  pub patch : v.2 < 4294967296

decimal_free : (x n : ℕ) → is_digit x ≡ false → every (is_not x) (decimal n) ≡ true
decimal_free x n h =
    every-implies is_digit (is_not x) (decimal n) (λ c e. ground arith) (decimal-digits n)

number_free :
    (x : ℕ) (v : ℕ × ℕ × ℕ)
    → is_digit x ≡ false
    → is_not x b'.' ≡ true
    → every (is_not x) (number v) ≡ true
number_free x (a, b, c) h dot =
    every-append (is_not x) (decimal a) (b'.' ∷ (decimal b ++ (b'.' ∷ decimal c)))
      (decimal_free x a h)
      (ground (
        arith,
        dot,
        every-append (is_not x) (decimal b) (b'.' ∷ decimal c) (decimal_free x b h)
            (ground (arith, dot, decimal_free x c h)),
      ))

split_number :
    (a b c : ℕ) → split_scalar b'.' (number (a, b, c)) ≡ decimal a ∷ decimal b ∷ decimal c ∷ []
split_number a b c =
    split_scalar-append b'.' (decimal a) (decimal b ++ (b'.' ∷ decimal c))
      (decimal_free b'.' a refl)
    ∙ ap (◌∷◌ (decimal a))
        (split_scalar-append b'.' (decimal b) (decimal c) (decimal_free b'.' b refl))
    ∙ ap (λ t. decimal a ∷ decimal b ∷ t)
        (split_scalar-word b'.' (decimal c) (decimal_free b'.' c refl))

three_numbers-number :
    (v : ℕ × ℕ × ℕ) → IsU32 v → three_numbers (split_scalar b'.' (number v)) ≡ some v
unfolding three_numbers
three_numbers-number (a, b, c) h =
    ap three_numbers (split_number a b c)
    ∙ rw
        (
          three_numbers,
          parse_u32-decimal a h.major,
          parse_u32-decimal b h.minor,
          parse_u32-decimal c h.patch,
        )
        refl

second-version_line :
    (v : ℕ × ℕ × ℕ) → second (split_scalar b'"' (version_line v)) ≡ some (number v)
unfolding split_scalar
second-version_line v = ap second (
    split_scalar-append b'"' (codes "version = ") (number v ++ (b'"' ∷ [])) refl
    ∙ ap (◌∷◌ (codes "version = "))
        (split_scalar-append b'"' (number v) [] (number_free b'"' v refl refl)))

end_lines-grow :
    (line : Bytes) (c : ℕ) (same : Bool) (pieces : List Bytes)
    → let more = if same then [] ∷ pieces else grow c pieces in
      end_lines (line ∷ more) ≡ without_return line ∷ end_lines more
end_lines-grow line c true pieces = refl
end_lines-grow line c false [] = refl
end_lines-grow line c false (piece ∷ pieces) = refl

end_lines-split :
    (line text : Bytes)
    → end_lines (line ∷ split_scalar b'\n' text)
      ≡ without_return line ∷ end_lines (split_scalar b'\n' text)
unfolding split_scalar
end_lines-split line [] = refl
end_lines-split line (c ∷ cs) = end_lines-grow line c (c == b'\n') (split_scalar b'\n' cs)

lines-next :
    (line text : Bytes)
    → every (is_not b'\n') line ≡ true
    → lines (line ++ (b'\n' ∷ text)) ≡ without_return line ∷ lines text
unfolding lines
lines-next line text h =
    ap end_lines (split_scalar-append b'\n' line text h) ∙ end_lines-split line text

version_line_free :
    (x : ℕ) (v : ℕ × ℕ × ℕ)
    → is_digit x ≡ false
    → every (is_not x) (codes "version = \"") ≡ true
    → is_not x b'.' ≡ true
    → is_not x b'"' ≡ true
    → every (is_not x) (version_line v) ≡ true
version_line_free x v h e dot quote =
    every-append (is_not x) (codes "version = \"") (number v ++ (b'"' ∷ [])) e (
      every-append (is_not x) (number v) (b'"' ∷ []) (number_free x v h dot)
        (ground (arith, quote)))

without_return-version_line : (v : ℕ × ℕ × ℕ) → without_return (version_line v) ≡ version_line v
unfolding without_return
without_return-version_line v =
    rw (last_is-word b'\r' (version_line v) (version_line_free b'\r' v refl refl refl refl)) refl

find_line-next :
    (p : Bytes → Bool) (line : Bytes) (more : List Bytes)
    → p line ≡ false
    → find_line p (line ∷ more) ≡ find_line p more
find_line-next p line more h = rw h refl

found_version_line :
    {other : List Bytes} (v : ℕ × ℕ × ℕ) (rest : Bytes)
    → AreOther other
    → find_line is_version_line (lines (behind_lines other (version_line v ++ (b'\n' ∷ rest))))
      ≡ some (version_line v)
unfolding is_version_line drop_while
found_version_line v rest nil = ap (find_line is_version_line) (
    lines-next (version_line v) rest (version_line_free b'\n' v refl refl refl refl)
    ∙ ap (λ line. line ∷ lines rest) (without_return-version_line v))
found_version_line v rest (cons {line} {more} h n hs) =
    let text = behind_lines more (version_line v ++ (b'\n' ∷ rest)) in
    ap (find_line is_version_line) (lines-next line text h)
    ∙ find_line-next is_version_line (without_return line) (lines text) n
    ∙ found_version_line v rest hs

-- In a manifest that names a version, of three numbers below 2^32 in decimal, behind any lines that do
-- not name one and in front of any text, these three numbers are found.
pub manifest_version-version_line :
    {other : List Bytes} (v : ℕ × ℕ × ℕ) (rest : Bytes)
    → AreOther other
    → IsU32 v
    → manifest_version (behind_lines other (version_line v ++ (b'\n' ∷ rest))) ≡ some v
unfolding manifest_version
manifest_version-version_line v rest h n =
    rw (manifest_version, found_version_line v rest h, second-version_line v)
      (three_numbers-number v n)
