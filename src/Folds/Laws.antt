-- ===== src/Folds/Laws.antt =====
-- Laws of the loops that add up what they find in an array.
use sa_plugin_sla.Prelude.{
  Bool-cases, length, filter, ℤ, pos, pos_part, neg_part, ◌+ℤ◌, ◌≤ℤ◌, eqb_ℤ, int_laws, ℕ, ◌+◌, ◌*◌,
  ◌≤◌, ◌≡◌, refl, ap, ◌∙◌, ◌↔◌, inl, inr, Bool, true, not, List, [], ◌∷◌, map, arith, length-map,
}
use sa_plugin_sla.Rust.{
  done, Outcome-cases, add_i32, add_i32-inv, sum_from, sum_i32, total, Fits, zero-add, sum_i32-inv,
  sum_i32-done_iff, add_i32-one,
}
use sa_plugin_sla.Folds.{
  Job, scheduled_cost_from, scheduled_cost, SceneNode, visible_weight_from, visible_weight, Message,
  mailbox_score_from, mailbox_score, Row, qualifies, ages, sql_scan_score, backtrace_depth_from,
  synthetic_backtrace_depth,
}
use mathlib.Core.Path.{fun_ext}

abbrev pub ready_costs : List Job → List ℤ
ready_costs jobs = map (λ (j : Job). j.cost) (filter (λ j. j.ready) jobs)

scheduled_cost_from-eq :
    (acc : ℤ) (jobs : List Job) → scheduled_cost_from acc jobs ≡ sum_from acc (ready_costs jobs)
unfolding scheduled_cost_from sum_from
scheduled_cost_from-eq acc [] = refl
scheduled_cost_from-eq acc (j ∷ jobs) = elim (Bool-cases j.ready) [
  | inl e ↦ rw e (rw (fun_ext (λ (a : ℤ). scheduled_cost_from-eq a jobs)))
  | inr e ↦ rw e (scheduled_cost_from-eq acc jobs)
]

-- `scheduled_cost` is the overflow-checked sum, in order, of the costs of the jobs that are ready.
pub scheduled_cost-eq-sum : (jobs : List Job) → scheduled_cost jobs ≡ sum_i32 (ready_costs jobs)
unfolding scheduled_cost sum_i32
scheduled_cost-eq-sum jobs = scheduled_cost_from-eq (pos 0) jobs

-- The sum of the ready costs is returned exactly where no partial sum overflows.
pub scheduled_cost-done_iff :
    (jobs : List Job) (s : ℤ)
    → (scheduled_cost jobs ≡ done s)
      ↔ (Fits (pos 0) (ready_costs jobs) × (s ≡ total (ready_costs jobs)))
scheduled_cost-done_iff jobs s =
    rw (scheduled_cost-eq-sum jobs) (sum_i32-done_iff s (ready_costs jobs))

abbrev pub visible_weights : List SceneNode → List ℤ
visible_weights nodes = map (λ (n : SceneNode). n.weight) (filter (λ n. n.visible) nodes)

visible_weight_from-eq :
    (acc : ℤ) (nodes : List SceneNode)
    → visible_weight_from acc nodes ≡ sum_from acc (visible_weights nodes)
unfolding visible_weight_from sum_from
visible_weight_from-eq acc [] = refl
visible_weight_from-eq acc (n ∷ nodes) = elim (Bool-cases n.visible) [
  | inl e ↦ rw e (rw (fun_ext (λ (a : ℤ). visible_weight_from-eq a nodes)))
  | inr e ↦ rw e (visible_weight_from-eq acc nodes)
]

-- The weight of the visible nodes is returned exactly where no partial sum overflows.
pub visible_weight-done_iff :
    (nodes : List SceneNode) (s : ℤ)
    → (visible_weight nodes ≡ done s)
      ↔ (Fits (pos 0) (visible_weights nodes) × (s ≡ total (visible_weights nodes)))
unfolding visible_weight sum_i32
visible_weight-done_iff nodes s =
    rw (visible_weight_from-eq (pos 0) nodes)
      (unfold sum_i32 in sum_i32-done_iff s (visible_weights nodes))

abbrev pub sum_actors : List Message → ℤ
sum_actors [] = pos 0
sum_actors (m ∷ inbox) = m.actor +ℤ sum_actors inbox

abbrev pub sum_payloads : List Message → ℤ
sum_payloads [] = pos 0
sum_payloads (m ∷ inbox) = m.payload +ℤ sum_payloads inbox

mailbox_score_from-done :
    (acc s : ℤ) (inbox : List Message)
    → mailbox_score_from acc inbox ≡ done s
    → s ≡ acc +ℤ (sum_actors inbox +ℤ sum_payloads inbox)
unfolding mailbox_score_from
mailbox_score_from-done acc s [] h = let e : acc ≡ s = cc in rw (← e) (omega int_laws)
mailbox_score_from-done acc s (m ∷ inbox) h = elim (Outcome-cases (add_i32 m.actor m.payload)) [
  | inr (p, e) ↦ let h' = rw e at h in cc
  | inl (both, e) ↦ elim (Outcome-cases (add_i32 acc both)) [
    | inr (p, e') ↦ let h' = rw (e, e') at h in cc
    | inl (acc', e') ↦ omega (
      int_laws,
      ap pos_part (add_i32-inv _ _ _ e).0,
      ap neg_part (add_i32-inv _ _ _ e).0,
      ap pos_part (add_i32-inv _ _ _ e').0,
      ap neg_part (add_i32-inv _ _ _ e').0,
      ap pos_part (mailbox_score_from-done acc' s inbox (rw (e, e') at h)),
      ap neg_part (mailbox_score_from-done acc' s inbox (rw (e, e') at h)),
    )
  ]
]

-- A score that is returned is the sum of all actors plus the sum of all payloads.
pub mailbox_score-eq-sums :
    (inbox : List Message) (s : ℤ)
    → mailbox_score inbox ≡ done s
    → s ≡ sum_actors inbox +ℤ sum_payloads inbox
unfolding mailbox_score
mailbox_score-eq-sums inbox s h = mailbox_score_from-done (pos 0) s inbox h ∙ zero-add _

ages_adult : (rows : List Row) → pos (18 * length (ages rows)) ≤ℤ total (ages rows)
unfolding ages qualifies
ages_adult [] = omega arith
ages_adult (r ∷ rows) = elim (Bool-cases (qualifies r)) [
  | inl e ↦ rw e (omega (int_laws, ages_adult rows, adult r e))
  | inr e ↦ rw e (ages_adult rows)
]
  where
    adult : (r : Row) → qualifies r ≡ true → pos 18 ≤ℤ r.age
    adult r e = ground arith

-- The score that the scan returns is at least 18 for every row that qualifies.
pub sql_scan_score_adults :
    (rows : List Row) (s : ℤ)
    → sql_scan_score rows ≡ done s
    → pos (18 * length (filter qualifies rows)) ≤ℤ s
unfolding sql_scan_score ages
sql_scan_score_adults rows s h =
    rw
      (
        (sum_i32-inv s (ages rows) h).1,
        ← length-map (filter qualifies rows) (λ (row : Row). row.age),
      )
      (ages_adult rows)

abbrev pub is_frame : ℤ → Bool
is_frame frame = not (eqb_ℤ frame (pos 0))

backtrace_depth_from-eq :
    (n : ℕ) (frames : List ℤ)
    → n + length frames ≤ 2147483647
    → backtrace_depth_from (pos n) frames ≡ done (pos (n + length (filter is_frame frames)))
unfolding backtrace_depth_from
backtrace_depth_from-eq n [] h = let e : n ≡ n + 0 = omega arith in rw (← e)
backtrace_depth_from-eq n (f ∷ frames) h = elim (Bool-cases (eqb_ℤ f (pos 0))) [
  | inl e ↦ rw e (backtrace_depth_from-eq n frames (omega arith))
  | inr e ↦
      rw (e, add_i32-one n (omega arith))
        (backtrace_depth_from-eq (n + 1) frames (omega arith)
          ∙ ap (λ (k : ℕ). done (pos k)) (omega arith))
]

-- The depth is the number of entries that are not zero, for every array of less than 2^31 entries.
pub backtrace_depth-eq-count :
    (frames : List ℤ)
    → length frames ≤ 2147483647
    → synthetic_backtrace_depth frames ≡ done (pos (length (filter is_frame frames)))
unfolding synthetic_backtrace_depth
backtrace_depth-eq-count frames h =
    backtrace_depth_from-eq 0 frames (omega arith) ∙ ap (λ (k : ℕ). done (pos k)) (omega arith)
