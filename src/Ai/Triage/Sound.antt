-- ===== src/Ai/Triage/Sound.antt =====
-- What holds of the variables of `_apply` between two replies.
use job_squire.Base.{
  ◌∙◌, ◌==◌, if◌then◌else◌, ℕ, zero, suc, ◌+◌, ◌≤◌, Bool, true, false, ◌≡◌, refl, ap, inl, inr,
  Option, none, some, List, [], ◌∷◌, Text, length, length-append, take, drop, contains, nat_eq, All,
  All-append, strip, arith, Bool-cases, Option-cases,
}
use mathlib.Core.Path.{subst}
use mathlib.Core.Option.{some-injective}
use job_squire.Base.Int.{ℤ, pos, negsuc}
use job_squire.Ai.Triage.Missing.{
  ids, DistinctIds, missing-nil, contains-find_job, missing-cons, tally, result_ids, successes,
  IsFaithful, tally-missing, tally-append, successes-append,
}
use job_squire.Ai.Triage.{
  Result, and_then, hear, Job, not_a_number, infinite, integer, Item, entry, not_an_object, Scored,
  Pass, clamp_score, find_job, missing, accept, apply_scored, apply, count, apply_all, ask,
  ask_chunks, ask_each, retry_missing, first_pass, collect,
}

pub clamp_score_bounds : (x : ℤ) → (1 ≤ clamp_score x) × (clamp_score x ≤ 10)
unfolding clamp_score
clamp_score_bounds (pos n) = omega arith
clamp_score_bounds (negsuc n) = omega arith

-- The result that `accept` adds.
abbrev scored_result : Job → ℕ → Text → Result
scored_result j score reason = record {
  id = j.id;
  title = j.title;
  company = j.company;
  score = some score;
  reason = reason;
  ok = true;
}

-- An id moves from the missing ones to the results.
one_more :
    (i x a b c d m : ℕ)
    → b ≡ a + (if i == x then 1 else 0)
    → a + c ≡ d
    → (if i == x then suc m else m) ≡ c
    → b + m ≡ d
one_more i x a b c d m e f g = ground arith

module _ (jobs : List Job) where
  -- What holds between two calls of `_apply`.
  pub record IsSound (s : Pass) : Type 0 where
    pub account : s.scored + length (missing s.applied_ids jobs) ≡ length jobs
    pub reported : length s.results ≡ s.scored
    pub succeeded : successes s.results ≡ s.scored
    pub answered :
        (i : ℕ)
        → tally i (result_ids s.results) + tally i (ids (missing s.applied_ids jobs))
          ≡ tally i (ids jobs)
    pub faithful : All (IsFaithful jobs) s.results
    pub in_range : All (λ (p : Scored). (1 ≤ p.score) × (p.score ≤ 10)) s.pending
    pub in_batch : All (λ (p : Scored). contains (ids jobs) p.id ≡ true) s.pending

  module _ (distinct : DistinctIds jobs) where
    accept-IsSound :
        (j : Job) (score : ℕ) (reason : Text) (s : Pass)
        → (1 ≤ score) × (score ≤ 10)
        → contains s.applied_ids j.id ≡ false
        → contains (ids jobs) j.id ≡ true
        → find_job j.id jobs ≡ some j
        → IsSound s
        → IsSound (count jobs (accept jobs j score reason s))
    unfolding accept count
    accept-IsSound j score reason s b n h e v = record {
      account = omega (arith, v.account, missing-cons j.id s.applied_ids jobs distinct n h);
      reported = omega (arith, v.reported, length-append {0} s.results);
      succeeded =
          omega
            (arith, v.succeeded, successes-append s.results (scored_result j score reason ∷ []));
      answered = λ i.
          one_more i j.id (tally i (result_ids s.results)) _ _ _
            (tally i (ids (missing (j.id ∷ s.applied_ids) jobs)))
            (tally-append i s.results (scored_result j score reason ∷ [])) (v.answered i)
            (tally-missing i j.id s.applied_ids jobs distinct n h);
      faithful =
          All-append (IsFaithful jobs) s.results (scored_result j score reason ∷ []) v.faithful
            ((j, e, refl, refl, inl (score, refl, refl, b)), tt);
      in_range = All-append _ s.pending _ v.in_range (b, tt);
      in_batch = All-append _ s.pending _ v.in_batch (h, tt);
    }

    apply_scored-IsSound :
        (jid score : ℕ) (reason : Text) (s : Pass)
        → (1 ≤ score) × (score ≤ 10)
        → IsSound s
        → IsSound (count jobs (apply_scored jobs jid score reason s))
    unfolding apply_scored
    apply_scored-IsSound jid score reason s b v = elim (Bool-cases (contains s.applied_ids jid)) [
      | inl k ↦ rw k (unfold count in v)
      | inr k ↦ elim (Option-cases (find_job jid jobs)) [
        | inl e ↦ rw (k, e) (unfold count in v)
        | inr (j, e) ↦
            let (same, known) = contains-find_job jid j jobs e in
            rw (k, e)
              (accept-IsSound j score reason s b (rw same k) (rw same known)
                (ap (λ i. find_job i jobs) same ∙ e) v)
      ]
    ]

    untaken-IsSound : (s : Pass) → IsSound s → IsSound (count jobs (false, s))
    unfolding count
    untaken-IsSound s v = v

    moved-IsSound :
        (x y : Bool × Pass)
        → IsSound (count jobs x)
        → ◌≡◌ {A = Option (Bool × Pass)} (some x) (some y)
        → IsSound (count jobs y)
    moved-IsSound x y v e = subst (λ z. IsSound (count jobs z)) (some-injective x y e) v

    apply-IsSound :
        (item : Item) (s : Pass) (x : Bool × Pass)
        → IsSound s
        → apply jobs item s ≡ some x
        → IsSound (count jobs x)
    unfolding apply
    apply-IsSound not_an_object s x v e = absurd (cc)
    apply-IsSound (entry not_a_number score reason) s x v e =
        moved-IsSound _ x (untaken-IsSound s v) e
    apply-IsSound (entry infinite score reason) s x v e = absurd (cc)
    apply-IsSound (entry (integer i) not_a_number reason) s x v e =
        moved-IsSound _ x (untaken-IsSound s v) e
    apply-IsSound (entry (integer i) infinite reason) s x v e = absurd (cc)
    apply-IsSound (entry (integer i) (integer score) none) s x v e = absurd (cc)
    apply-IsSound (entry (integer (negsuc n)) (integer score) (some reason)) s x v e =
        moved-IsSound _ x (untaken-IsSound s v) e
    apply-IsSound (entry (integer (pos jid)) (integer score) (some reason)) s x v e =
        moved-IsSound _ x
          (apply_scored-IsSound jid (clamp_score score) (strip reason) s (clamp_score_bounds score)
            v)
          e

    -- `P` holds of the pass, if there is one.
    abbrev Soundly : Option Pass → Type 0
    Soundly none = Unit
    Soundly (some s) = IsSound s

    apply_all-IsSound :
        (items : List Item) (s : Pass) → IsSound s → Soundly (apply_all jobs items s)
    unfolding apply_all
    apply_all-IsSound [] s v = v
    apply_all-IsSound (item ∷ items) s v = elim (Option-cases (apply jobs item s)) [
      | inl e ↦ rw (e, apply_all) tt
      | inr (x, e) ↦
          rw (e, apply_all) (apply_all-IsSound items (count jobs x) (apply-IsSound item s x v e))
    ]

    and_then-IsSound :
        (o : Option Pass) (next : Pass → Option Pass)
        → Soundly o
        → ((s : Pass) → IsSound s → Soundly (next s))
        → Soundly (and_then o next)
    unfolding and_then
    and_then-IsSound none next v k = tt
    and_then-IsSound (some s) next v k = k s v

    hear-IsSound : (o : Option (List Item)) (s : Pass) → IsSound s → Soundly (hear jobs o s)
    unfolding hear
    hear-IsSound none s v = v
    hear-IsSound (some items) s v = apply_all-IsSound items s v

    module _ (reply : ℕ → List Job → Option (List Item)) where
      ask-IsSound : (chunk : List Job) (s : Pass) → IsSound s → Soundly (ask jobs reply chunk s)
      unfolding ask
      ask-IsSound chunk s v =
          hear-IsSound (reply s.calls chunk) (record s { calls = s.calls + 1 })
            (record {
              account = v.account;
              reported = v.reported;
              succeeded = v.succeeded;
              answered = v.answered;
              faithful = v.faithful;
              in_range = v.in_range;
              in_batch = v.in_batch;
            })

      ask_chunks-IsSound :
          (n : ℕ) (left : List Job) (s : Pass)
          → IsSound s
          → Soundly (ask_chunks jobs reply n left s)
      unfolding ask_chunks
      ask_chunks-IsSound zero left s v = v
      ask_chunks-IsSound (suc n) [] s v = v
      ask_chunks-IsSound (suc n) (j ∷ left) s v =
          and_then-IsSound _ _ (ask-IsSound (take 5 (j ∷ left)) s v)
            (ask_chunks-IsSound n (drop 5 (j ∷ left)))

      ask_each-IsSound :
          (left : List Job) (s : Pass) → IsSound s → Soundly (ask_each jobs reply left s)
      unfolding ask_each
      ask_each-IsSound [] s v = v
      ask_each-IsSound (j ∷ left) s v =
          and_then-IsSound _ _ (ask-IsSound (j ∷ []) s v) (ask_each-IsSound left)

      retry_missing-IsSound : (s : Pass) → IsSound s → Soundly (retry_missing jobs reply s)
      unfolding retry_missing
      retry_missing-IsSound s v =
          and_then-IsSound _ _ (ask_chunks-IsSound _ (missing s.applied_ids jobs) s v)
            λ t w. ask_each-IsSound (missing t.applied_ids jobs) t w

      first_pass-IsSound : IsSound (first_pass jobs reply)
      first_pass-IsSound = record {
        account = omega (arith, ap (λ (l : List Job). length l) (missing-nil jobs));
        reported = refl;
        succeeded = refl;
        answered = λ i. omega (arith, ap (λ (l : List Job). tally i (ids l)) (missing-nil jobs));
        faithful = tt;
        in_range = tt;
        in_batch = tt;
      }

      collect-IsSound : Soundly (collect jobs reply)
      unfolding collect
      collect-IsSound =
          and_then-IsSound _ _ (ask-IsSound jobs (first_pass jobs reply) first_pass-IsSound)
            retry_missing-IsSound

      pub collected-IsSound : (s : Pass) → collect jobs reply ≡ some s → IsSound s
      collected-IsSound s e = rw e at collect-IsSound
