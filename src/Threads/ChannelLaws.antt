-- ===== src/Threads/ChannelLaws.antt =====
-- Laws of 126_mpmc_channel under all schedules.
use sa_plugin_sla.Prelude.{
  length, All, ℤ, pos, pos_part, neg_part, ◌+ℤ◌, ◌≤ℤ◌, int_laws, ℕ, zero, suc, ◌+◌, ◌≤◌, ◌≡◌, refl,
  sym, ap, ◌∙◌, subst, List, [], ◌∷◌, ◌++◌, arith,
}
use sa_plugin_sla.Rust.{exit_ok, int_line, total, Fits, zero-add, sum_i32-done, Fits-of_nonneg}
use sa_plugin_sla.Threads.Channel.{
  Producer, producer_a, producer_b, Chan, send_a, send_b, step, or_stay, run, start, take, received,
  mpmc_main,
}
use mathlib.Core.List.{append_assoc, append-nil}

-- A list that merges two others, each of them in its own order.
pub data Interleaves : List ℤ → List ℤ → List ℤ → Type 0 where
  nil : Interleaves [] [] []
  from_a : (x : ℤ) {xs ys zs : List ℤ} → Interleaves xs ys zs → Interleaves (x ∷ xs) ys (x ∷ zs)
  from_b : (y : ℤ) {xs ys zs : List ℤ} → Interleaves xs ys zs → Interleaves xs (y ∷ ys) (y ∷ zs)

Interleaves-snoc_a :
    (x : ℤ) {xs ys zs : List ℤ}
    → Interleaves xs ys zs
    → Interleaves (xs ++ x ∷ []) ys (zs ++ x ∷ [])
Interleaves-snoc_a x nil = from_a x nil
Interleaves-snoc_a x (from_a y i) = from_a y (Interleaves-snoc_a x i)
Interleaves-snoc_a x (from_b y i) = from_b y (Interleaves-snoc_a x i)

Interleaves-snoc_b :
    (x : ℤ) {xs ys zs : List ℤ}
    → Interleaves xs ys zs
    → Interleaves xs (ys ++ x ∷ []) (zs ++ x ∷ [])
Interleaves-snoc_b x nil = from_b x nil
Interleaves-snoc_b x (from_a y i) = from_a y (Interleaves-snoc_b x i)
Interleaves-snoc_b x (from_b y i) = from_b y (Interleaves-snoc_b x i)

-- What each producer has sent so far, with what it still has to send, is its list.
record Sent (xs ys : List ℤ) (c : Chan) : Type 0 where
  sent_a : List ℤ
  sent_b : List ℤ
  all_a : sent_a ++ c.pending_a ≡ xs
  all_b : sent_b ++ c.pending_b ≡ ys
  mixed : Interleaves sent_a sent_b c.queue

send_a-Sent :
    {xs ys : List ℤ} (pending : List ℤ) (c : Chan)
    → c.pending_a ≡ pending
    → Sent xs ys c
    → Sent xs ys (or_stay c (send_a pending c))
unfolding send_a
send_a-Sent [] c e s = s
send_a-Sent (x ∷ rest) c e s = record {
  sent_a = s.sent_a ++ x ∷ [];
  sent_b = s.sent_b;
  all_a = append_assoc s.sent_a (x ∷ []) rest ∙ (rw e at s.all_a);
  all_b = s.all_b;
  mixed = Interleaves-snoc_a x s.mixed;
}

send_b-Sent :
    {xs ys : List ℤ} (pending : List ℤ) (c : Chan)
    → c.pending_b ≡ pending
    → Sent xs ys c
    → Sent xs ys (or_stay c (send_b pending c))
unfolding send_b
send_b-Sent [] c e s = s
send_b-Sent (x ∷ rest) c e s = record {
  sent_a = s.sent_a;
  sent_b = s.sent_b ++ x ∷ [];
  all_a = s.all_a;
  all_b = append_assoc s.sent_b (x ∷ []) rest ∙ (rw e at s.all_b);
  mixed = Interleaves-snoc_b x s.mixed;
}

step-Sent :
    {xs ys : List ℤ} (p : Producer) (c : Chan) → Sent xs ys c → Sent xs ys (or_stay c (step p c))
unfolding step
step-Sent producer_a c s = send_a-Sent c.pending_a c refl s
step-Sent producer_b c s = send_b-Sent c.pending_b c refl s

run-Sent :
    {xs ys : List ℤ} (schedule : List Producer) (c : Chan)
    → Sent xs ys c
    → Sent xs ys (run schedule c)
unfolding run
run-Sent [] c s = s
run-Sent (p ∷ schedule) c s = run-Sent schedule (or_stay c (step p c)) (step-Sent p c s)

-- Once both producers have sent everything, the queue interleaves their lists: each producer's values
-- stand in the order in which it sent them, and no value is lost or doubled. This holds for all lists
-- and all schedules.
pub run-Interleaves :
    (xs ys : List ℤ) (schedule : List Producer)
    → let c = run schedule (record { pending_a = xs; pending_b = ys; queue = [] }) in
      c.pending_a ≡ [] → c.pending_b ≡ [] → Interleaves xs ys c.queue
run-Interleaves xs ys schedule done_a done_b =
    let q = (run schedule (record { pending_a = xs; pending_b = ys; queue = [] })).queue in
    let s =
      run-Sent {xs = xs} {ys = ys} schedule _
        (record { sent_a = []; sent_b = []; all_a = refl; all_b = refl; mixed = nil }) in
    subst (λ l. Interleaves l ys q) (left_of s.sent_a (rw done_a at s.all_a))
      (subst (λ l. Interleaves s.sent_a l q) (left_of s.sent_b (rw done_b at s.all_b)) s.mixed)
  where
    left_of : (sent : List ℤ) {all : List ℤ} → sent ++ [] ≡ all → sent ≡ all
    left_of sent e = sym (append-nil sent) ∙ e

total-Interleaves : {xs ys zs : List ℤ} → Interleaves xs ys zs → total zs ≡ total xs +ℤ total ys
total-Interleaves nil = omega int_laws
total-Interleaves (from_a x i) =
    omega (int_laws, ap pos_part (total-Interleaves i), ap neg_part (total-Interleaves i))
total-Interleaves (from_b y i) =
    omega (int_laws, ap pos_part (total-Interleaves i), ap neg_part (total-Interleaves i))

length-Interleaves : {xs ys zs : List ℤ} → Interleaves xs ys zs → length zs ≡ length xs + length ys
length-Interleaves nil = omega arith
length-Interleaves (from_a x i) = omega (arith, length-Interleaves i)
length-Interleaves (from_b y i) = omega (arith, length-Interleaves i)

abbrev Nonneg : List ℤ → Type 0
Nonneg = All (λ x. pos 0 ≤ℤ x)

Nonneg-Interleaves : {xs ys zs : List ℤ} → Interleaves xs ys zs → Nonneg xs → Nonneg ys → Nonneg zs
Nonneg-Interleaves nil h k = tt
Nonneg-Interleaves (from_a x i) h k = (h.0, Nonneg-Interleaves i h.1 k)
Nonneg-Interleaves (from_b y i) h k = (k.0, Nonneg-Interleaves i h k.1)

take_all : (n : ℕ) (xs : List ℤ) → length xs ≤ n → take n xs ≡ xs
take_all zero [] h = refl
take_all zero (x ∷ xs) h = absurd (omega arith)
take_all (suc n) [] h = refl
take_all (suc n) (x ∷ xs) h = ap (λ r. x ∷ r) (take_all n xs (omega arith))

start_total : total start.pending_a +ℤ total start.pending_b ≡ pos 10
unfolding start ◌+ℤ◌
start_total = refl

-- Under every schedule that lets both producers finish, the program prints 10.
pub mpmc_main-prints_10 :
    (schedule : List Producer)
    → (run schedule start).pending_a ≡ []
    → (run schedule start).pending_b ≡ []
    → mpmc_main schedule ≡ exit_ok (int_line (pos 10) ∷ [])
unfolding mpmc_main received start
mpmc_main-prints_10 schedule done_a done_b =
    let q = (run schedule start).queue in
    let i : Interleaves start.pending_a start.pending_b q =
      run-Interleaves start.pending_a start.pending_b schedule done_a done_b in
    let sum : total q ≡ pos 10 = total-Interleaves i ∙ start_total in
    let nonneg = Nonneg-Interleaves i (omega arith) (omega arith) in
    let fits : Fits (pos 0) q =
      Fits-of_nonneg (pos 0) q (omega arith) nonneg (rw (zero-add (total q), sum) (omega arith)) in
    rw (take_all 4 q (omega (arith, length-Interleaves i))) (rw (sum_i32-done q fits) (rw sum))

abbrev pub moves_a : List Producer → ℕ
moves_a [] = 0
moves_a (producer_a ∷ schedule) = suc (moves_a schedule)
moves_a (producer_b ∷ schedule) = moves_a schedule

abbrev pub moves_b : List Producer → ℕ
moves_b [] = 0
moves_b (producer_a ∷ schedule) = moves_b schedule
moves_b (producer_b ∷ schedule) = suc (moves_b schedule)

-- A schedule that lets each producer move at least once for each of its values drains both.
pub run-drains :
    (schedule : List Producer) (xs ys queue : List ℤ)
    → length xs ≤ moves_a schedule
    → length ys ≤ moves_b schedule
    → let c = run schedule (record { pending_a = xs; pending_b = ys; queue = queue }) in
      (c.pending_a ≡ []) × (c.pending_b ≡ [])
unfolding run step send_a send_b
run-drains [] [] [] queue h k = (refl, refl)
run-drains [] (x ∷ xs) ys queue h k = absurd (omega arith)
run-drains [] [] (y ∷ ys) queue h k = absurd (omega arith)
run-drains (producer_a ∷ schedule) [] ys queue h k = run-drains schedule [] ys queue (omega arith) k
run-drains (producer_a ∷ schedule) (x ∷ xs) ys queue h k =
    run-drains schedule xs ys (queue ++ x ∷ []) (omega arith) k
run-drains (producer_b ∷ schedule) xs [] queue h k = run-drains schedule xs [] queue h (omega arith)
run-drains (producer_b ∷ schedule) xs (y ∷ ys) queue h k =
    run-drains schedule xs ys (queue ++ y ∷ []) h (omega arith)

-- Every schedule with at least two moves of each producer, in any order, makes the program print 10.
pub mpmc_main-fair :
    (schedule : List Producer)
    → 2 ≤ moves_a schedule
    → 2 ≤ moves_b schedule
    → mpmc_main schedule ≡ exit_ok (int_line (pos 10) ∷ [])
mpmc_main-fair schedule h k =
    let (a, b) = run-drains schedule (pos 1 ∷ pos 2 ∷ []) (pos 3 ∷ pos 4 ∷ []) [] h k in
    mpmc_main-prints_10 schedule (unfold start in a) (unfold start in b)
