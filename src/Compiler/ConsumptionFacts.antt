-- ===== src/Compiler/ConsumptionFacts.antt =====
-- The analysis of lists of nodes, of cases and of fields, given what is known of their nodes.
use sa_plugin_sla.Prelude.{ℕ, ◌+◌, String, ◌≡◌, refl, subst, inl, inr, true, arith}
use sa_plugin_sla.Compiler.Syntax.{
  Node, Nodes, end, next, LetChain, no_chain, chain, Cases, no_cases, case, Fields, no_fields,
  field,
}
use sa_plugin_sla.Compiler.Consumption.{
  MacroParamConsumption, never, node_consumption, body_consumption, first_consumption,
  cases_consumption, fields_consumption,
}
use sa_plugin_sla.Compiler.Paths.{
  Counts, Exactly, Both, Either, Neither, NodePath, Paths, MaybePath, FirstPaths, CasePaths,
  ChainPaths, LinkPaths, FieldPaths, Describes,
}
use sa_plugin_sla.Compiler.Regular.{is_never}
use sa_plugin_sla.Compiler.ConsumptionLaws.{
  Describes-iff, Describes-nothing, Describes-sequence, Describes-branch, Describes-before,
}

pub silent :
    (x : String) (n : Node)
    → Describes (node_consumption x n) (NodePath x n)
    → is_never (node_consumption x n) ≡ true
    → Describes never (NodePath x n)
silent x n h e = subst (λ a. Describes a (NodePath x n)) (is_never-eq (node_consumption x n) e) h
  where
    is_never-eq : (a : MacroParamConsumption) → is_never a ≡ true → a ≡ never
    is_never-eq a e = ground arith

-- Takes away the empty start of a loop.
pub unstart :
    (a : MacroParamConsumption) (P : Counts) → Describes a (Both (Exactly 0) P) → Describes a P
unstart a P h =
    Describes-iff a (Both (Exactly 0) P) P
      (λ n (k, m, z, p, e). let e' : m ≡ n = omega arith in subst P e' p)
      (λ n p. (0, n, refl, p, omega arith)) h

Both-assoc :
    (a : MacroParamConsumption) (P Q R : Counts)
    → Describes a (Both (Both P Q) R)
    → Describes a (Both P (Both Q R))
Both-assoc a P Q R =
    Describes-iff a (Both (Both P Q) R) (Both P (Both Q R))
      (λ n (k, m, (i, j, p, q, e), r, e'). (i, j + m, p, (j, m, q, r, refl), omega arith))
      (λ n (i, l, p, (j, m, q, r, e), e'). (i + j, m, (i, j, p, q, refl), r, omega arith))

Either-assoc :
    (a : MacroParamConsumption) (P Q R : Counts)
    → Describes a (Either (Either P Q) R)
    → Describes a (Either P (Either Q R))
Either-assoc a P Q R =
    Describes-iff a (Either (Either P Q) R) (Either P (Either Q R))
      (λ n c. elim c [ inl (inl p) ↦ inl p | inl (inr q) ↦ inr (inl q) | inr r ↦ inr (inr r) ])
      (λ n c. elim c [ inl p ↦ inl (inl p) | inr (inl q) ↦ inl (inr q) | inr (inr r) ↦ inr r ])

Either-neither :
    (a : MacroParamConsumption) (P : Counts) → Describes a P → Describes a (Either P Neither)
Either-neither a P =
    Describes-iff a P (Either P Neither) (λ n p. inl p)
      (λ n c. elim c [ inl p ↦ p | inr z ↦ absurd z ])

-- A link that consumes nothing, in front of what has the paths on which its pattern fails.
Describes-link :
    (a : MacroParamConsumption) (E P L : Counts)
    → Describes never P
    → ((n : ℕ) → E n → L n)
    → Describes a L
    → Describes a (Either E (Both P L))
Describes-link a E P L (z, f) g =
    Describes-iff a L (Either E (Both P L)) (λ n l. inr (0, n, z, l, omega arith))
      (λ n c. elim c [
        | inl e ↦ g n e
        | inr (k, m, p, l, e) ↦ let e' : m ≡ n = omega (arith, f k p) in subst L e' l
      ])

-- A chain of links may fail at any of them.
LinkPaths-else :
    (x : String) (ns : Nodes) (Then Else : Counts) (n : ℕ) → Else n → LinkPaths x ns Then Else n
unfolding NodePath
LinkPaths-else x end Then Else n e = inr e
LinkPaths-else x (next v ns) Then Else n e = inl e

abbrev pub LinkFacts : String → Nodes → Type 0
LinkFacts x end = Unit {0}
LinkFacts x (next n ns) = Describes never (NodePath x n) × LinkFacts x ns

abbrev pub ChainFacts : String → LetChain → Type 0
ChainFacts x no_chain = Unit {0}
ChainFacts x (chain links) = LinkFacts x links

links-Describes :
    (x : String) (ns : Nodes) (a : MacroParamConsumption) (Then Else : Counts)
    → LinkFacts x ns
    → Describes a (Either Then Else)
    → Describes a (LinkPaths x ns Then Else)
unfolding NodePath
links-Describes x end a Then Else h d = d
links-Describes x (next n ns) a Then Else (hn, hs) d =
    Describes-link a Else (NodePath x n) (LinkPaths x ns Then Else) hn
      (LinkPaths-else x ns Then Else) (links-Describes x ns a Then Else hs d)

pub chain-Describes :
    (x : String) (c : LetChain) (a : MacroParamConsumption) (Then Else : Counts)
    → ChainFacts x c
    → Describes a (Either Then Else)
    → Describes a (ChainPaths x c Then Else)
unfolding NodePath
chain-Describes x no_chain a Then Else h d = d
chain-Describes x (chain links) a Then Else h d = links-Describes x links a Then Else h d

-- What is known of the nodes of a list, of cases and of fields.
abbrev pub NodeFacts : String → Nodes → Type 0
NodeFacts x end = Unit {0}
NodeFacts x (next n ns) = Describes (node_consumption x n) (NodePath x n) × NodeFacts x ns

abbrev pub CaseFacts : String → Cases → Type 0
CaseFacts x no_cases = Unit {0}
CaseFacts x (case g body cs) =
    Describes (body_consumption x never body) (Both (MaybePath x g) (Paths x body)) × CaseFacts x cs

abbrev pub FieldFacts : String → Fields → Type 0
FieldFacts x no_fields = Unit {0}
FieldFacts x (field f n fs) = Describes (node_consumption x n) (NodePath x n) × FieldFacts x fs

nodes-Describes :
    (x : String) (ns : Nodes) (effect : MacroParamConsumption) (P : Counts)
    → Describes effect P
    → NodeFacts x ns
    → Describes (body_consumption x effect ns) (Both P (Paths x ns))
unfolding node_consumption NodePath
nodes-Describes x end effect P d h = Describes-before _ _ _ Describes-nothing d
nodes-Describes x (next n ns) effect P d (hn, hs) =
    Both-assoc _ P (NodePath x n) (Paths x ns)
      (nodes-Describes x ns _ (Both P (NodePath x n)) (Describes-sequence _ _ _ _ d hn) hs)

pub body_of-NodeFacts :
    (x : String) (ns : Nodes)
    → NodeFacts x ns
    → Describes (body_consumption x never ns) (Paths x ns)
body_of-NodeFacts x ns h = unstart _ _ (nodes-Describes x ns never (Exactly 0) Describes-nothing h)

cases-Describes :
    (x : String) (cs : Cases) (effect : MacroParamConsumption) (P : Counts)
    → Describes effect P
    → CaseFacts x cs
    → Describes (cases_consumption x effect cs) (Either P (CasePaths x cs))
unfolding node_consumption NodePath
cases-Describes x no_cases effect P d h = Either-neither _ _ d
cases-Describes x (case g body cs) effect P d (hc, hs) =
    Either-assoc _ _ _ _ (cases-Describes x cs _ _ (Describes-branch _ _ _ _ d hc) hs)

pub first-Describes :
    (x : String) (cs : Cases)
    → CaseFacts x cs
    → Describes (first_consumption x cs) (FirstPaths x cs)
unfolding node_consumption NodePath
first-Describes x no_cases h = Describes-nothing
first-Describes x (case g body cs) (hc, hs) = cases-Describes x cs _ _ hc hs

pub fields-Describes :
    (x : String) (fs : Fields) (effect : MacroParamConsumption) (P : Counts)
    → Describes effect P
    → FieldFacts x fs
    → Describes (fields_consumption x effect fs) (Both P (FieldPaths x fs))
unfolding node_consumption NodePath
fields-Describes x no_fields effect P d h = Describes-before _ _ _ Describes-nothing d
fields-Describes x (field f n fs) effect P d (hn, hs) =
    Both-assoc _ P (NodePath x n) (FieldPaths x fs)
      (fields-Describes x fs _ _ (Describes-sequence _ _ _ _ d hn) hs)
