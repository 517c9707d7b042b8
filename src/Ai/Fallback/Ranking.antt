-- ===== src/Ai/Fallback/Ranking.antt =====
-- The ranked chain lists the enabled rows, each of them, by rank.
use mathlib.Core.Path.{subst}
use job_squire.Base.{true, ◌≡◌, inl, inr, List, [], ◌∷◌, Occurs, leb, Bool-cases}
use job_squire.Ai.Provider.{Provider}
use job_squire.Ai.Fallback.{by_rank, ranked_rows}

-- From `o` about the front of a list, with the claim for its tail.
behind :
    (x p q : Provider) (qs rs : List Provider)
    → (Occurs x (p ∷ qs) → Occurs x rs)
    → Occurs x (p ∷ q ∷ qs)
    → Occurs x (q ∷ rs)
behind x p q qs rs f (inl e) = inr (f (inl e))
behind x p q qs rs f (inr (inl e)) = inl e
behind x p q qs rs f (inr (inr o)) = inr (f (inr o))

ahead :
    (x p q : Provider) (qs rs : List Provider)
    → (Occurs x rs → Occurs x (p ∷ qs))
    → Occurs x (q ∷ rs)
    → Occurs x (p ∷ q ∷ qs)
ahead x p q qs rs f (inl e) = inr (inl e)
ahead x p q qs rs f (inr o) = place (f o)
  where
    place : Occurs x (p ∷ qs) → Occurs x (p ∷ q ∷ qs)
    place (inl e) = inl e
    place (inr k) = inr (inr k)

to_by_rank : (x p : Provider) (ps : List Provider) → Occurs x (p ∷ ps) → Occurs x (by_rank p ps)
unfolding by_rank
to_by_rank x p [] o = o
to_by_rank x p (q ∷ qs) o = elim (Bool-cases (leb p.rank q.rank)) [
  | inl k ↦ rw k o
  | inr k ↦ rw k (behind x p q qs _ (to_by_rank x p qs) o)
]

of_by_rank : (x p : Provider) (ps : List Provider) → Occurs x (by_rank p ps) → Occurs x (p ∷ ps)
unfolding by_rank
of_by_rank x p [] = λ o. o
of_by_rank x p (q ∷ qs) = elim (Bool-cases (leb p.rank q.rank)) [
  | inl k ↦ rw k (λ o. o)
  | inr k ↦ rw k (ahead x p q qs _ (of_by_rank x p qs))
]

-- An enabled row of the table is in the chain.
pub Occurs-ranked_rows :
    (x : Provider) (ps : List Provider) → Occurs x ps → x.enabled ≡ true → Occurs x (ranked_rows ps)
unfolding ranked_rows
Occurs-ranked_rows x [] o e = elim o [ ]
Occurs-ranked_rows x (p ∷ ps) (inl h) e =
    let k : p.enabled ≡ true = subst (λ y. y.enabled ≡ true) h e in
    simp k (to_by_rank x p (ranked_rows ps) (inl h))
Occurs-ranked_rows x (p ∷ ps) (inr o) e = elim (Bool-cases p.enabled) [
  | inl k ↦ simp k (to_by_rank x p (ranked_rows ps) (inr (Occurs-ranked_rows x ps o e)))
  | inr k ↦ simp k (Occurs-ranked_rows x ps o e)
]

-- The chain has only rows of the table.
pub of_ranked_rows : (x : Provider) (ps : List Provider) → Occurs x (ranked_rows ps) → Occurs x ps
unfolding ranked_rows
of_ranked_rows x [] = λ o. o
of_ranked_rows x (p ∷ ps) = elim (Bool-cases p.enabled) [
  | inl k ↦ simp k (λ o. front (of_ranked_rows x ps) (of_by_rank x p (ranked_rows ps) o))
  | inr k ↦ simp k (λ o. inr (of_ranked_rows x ps o))
]
  where
    front :
        (Occurs x (ranked_rows ps) → Occurs x ps)
        → Occurs x (p ∷ ranked_rows ps)
        → Occurs x (p ∷ ps)
    front f (inl e) = inl e
    front f (inr o) = inr (f o)
