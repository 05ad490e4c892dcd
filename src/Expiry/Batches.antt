-- ===== src/Expiry/Batches.antt =====
-- What the batches of a pass delete (internal/expiry/sweeper.go).
use native.Mathlib.Nat.{add-zero}
use cloistr_relay.Prelude.{
  ℕ, zero, suc, ◌+◌, ◌≤◌, ◌<◌, ◌≡◌, refl, ap, sym, ◌∙◌, Bool, true, false, not, Option, some, List,
  [], ◌∷◌, length, select, arith, Bool-cases, inl, inr, nat_eq,
}
use cloistr_relay.Nostr.{Event}
use cloistr_relay.Expiry.Sweeper.{
  BatchFate, Ending, committed, rolled_back, lost, LoopEnd, delete_first, delete_batch, stop,
  after_batch, delete_loop,
}

-- Every batch commits, and the context is never done.
pub record IsCalm (fate : ℕ → BatchFate) : Type 0 where
  pub running : (i : ℕ) → (fate i).cancelled_before ≡ false
  pub commits : (i : ℕ) → (fate i).ending ≡ committed
  pub goes_on : (i : ℕ) → (fate i).cancelled_after ≡ false

ended_ap :
    {es fs : List Event} {m n : ℕ}
    → es ≡ fs
    → m ≡ n
    → ◌≡◌ {A = Option LoopEnd}
        (some (record { rows = es; total_deleted = m; fine = true }))
        (some (record { rows = fs; total_deleted = n; fine = true }))
ended_ap p q = cc

module _ (p : Event → Bool) where
  abbrev pub others : List Event → List Event
  others es = select (λ e. not (p e)) es

  abbrev pub hits : List Event → ℕ
  hits es = length (select p es)

  delete_first-others : (n : ℕ) (es : List Event) → others (delete_first n p es).0 ≡ others es
  unfolding delete_first select
  delete_first-others zero es = refl
  delete_first-others (suc n) [] = refl
  delete_first-others (suc n) (e ∷ es) = elim (Bool-cases (p e)) [
    | inl hit ↦ rw hit (delete_first-others n es)
    | inr miss ↦ rw miss (rw miss (ap (λ l. e ∷ l) (delete_first-others (suc n) es)))
  ]

  delete_first-hits :
      (n : ℕ) (es : List Event) → hits (delete_first n p es).0 + (delete_first n p es).1 ≡ hits es
  unfolding delete_first select
  delete_first-hits zero es = omega arith
  delete_first-hits (suc n) [] = refl
  delete_first-hits (suc n) (e ∷ es) = elim (Bool-cases (p e)) [
    | inl hit ↦ rw hit (omega (arith, delete_first-hits n es))
    | inr miss ↦ rw miss (rw miss (delete_first-hits (suc n) es))
  ]

  -- A batch that deletes nothing finds nothing.
  delete_first-zero :
      (n : ℕ) (es : List Event)
      → (delete_first (suc n) p es).1 ≡ 0
      → (others es ≡ es) × (hits es ≡ 0) × ((delete_first (suc n) p es).0 ≡ es)
  unfolding delete_first select
  delete_first-zero n [] h = (refl, refl, refl)
  delete_first-zero n (e ∷ es) h = elim (Bool-cases (p e)) [
    | inl hit ↦
        let some_hit : (delete_first n p es).1 + 1 ≡ 0 = rw hit at h in
        absurd (omega (arith, some_hit))
    | inr miss ↦
        let rest = delete_first-zero n es (rw miss at h) in
        rw miss (ap (λ l. e ∷ l) rest.0, rest.1, ap (λ l. e ∷ l) rest.2)
  ]

  module _ (fate : ℕ → BatchFate) (limit : ℕ) where
    pub delete_loop-end :
        (fuel i : ℕ) (es : List Event) (n : ℕ)
        → IsCalm fate
        → hits es < fuel
        → delete_loop fuel fate i (suc limit) p es n
          ≡ some (record { rows = others es; total_deleted = n + hits es; fine = true })
    unfolding delete_loop delete_batch stop
    delete_loop-end zero i es n calm enough = absurd (omega arith)
    delete_loop-end (suc fuel) i es n calm enough =
        rw (calm.running i, calm.commits i, calm.goes_on i)
          (go (delete_first (suc limit) p es).1 refl
            (delete_loop-end fuel (i + 1) (delete_first (suc limit) p es).0))
      where
        go :
            (k : ℕ)
            → (delete_first (suc limit) p es).1 ≡ k
            → ((m : ℕ)
                → IsCalm fate
                → hits (delete_first (suc limit) p es).0 < fuel
                → delete_loop fuel fate (i + 1) (suc limit) p (delete_first (suc limit) p es).0 m
                  ≡ some (record {
                    rows = others (delete_first (suc limit) p es).0;
                    total_deleted = m + hits (delete_first (suc limit) p es).0;
                    fine = true;
                  }))
            → after_batch
                (delete_loop fuel fate (i + 1) (suc limit) p)
                false
                n
                ((delete_first (suc limit) p es).0, some k)
              ≡ some (record { rows = others es; total_deleted = n + hits es; fine = true })
        go zero e next =
            let h = delete_first-zero limit es e in
            rw (h.2, h.0, h.1) (ap (λ m. stop es m true) (sym (add-zero n)))
        go (suc k) e next =
            let all : hits (delete_first (suc limit) p es).0 + suc k ≡ hits es =
              omega (arith, delete_first-hits (suc limit) es, e) in
            next (n + suc k) calm (omega (arith, all, enough))
            ∙ ended_ap (delete_first-others (suc limit) es) (omega (arith, all))

  -- Whatever happens, the rows that are not hit stay, and no more deletions are reported than made.
  pub record IsSafe (es : List Event) (n : ℕ) (end : LoopEnd) : Type 0 where
    pub kept : others end.rows ≡ others es
    pub reported : end.total_deleted + hits end.rows ≤ n + hits es

  stop-IsSafe :
      (es : List Event) (n : ℕ) (rows : List Event) (m : ℕ) (b : Bool) (end : LoopEnd)
      → others rows ≡ others es
      → m + hits rows ≤ n + hits es
      → stop rows m b ≡ some end
      → IsSafe es n end
  unfolding stop
  stop-IsSafe es n rows m b end kept le e =
      let same : record { rows = rows; total_deleted = m; fine = b } ≡ end = cc e in
      rw (← same) (record { kept = kept; reported = le })

  IsSafe-step :
      (limit k n : ℕ) (es : List Event) (end : LoopEnd)
      → (delete_first limit p es).1 ≡ k
      → IsSafe (delete_first limit p es).0 (n + k) end
      → IsSafe es n end
  IsSafe-step limit k n es end e safe = record {
    kept = safe.kept ∙ delete_first-others limit es;
    reported = omega (arith, safe.reported, delete_first-hits limit es, e);
  }

  ending-IsSafe :
      (next : List Event → ℕ → Option LoopEnd) (ending : Ending) (cancelled : Bool) (limit : ℕ)
      (es : List Event) (n : ℕ) (end : LoopEnd)
      → ((m : ℕ)
          → next (delete_first limit p es).0 m ≡ some end
          → IsSafe (delete_first limit p es).0 m end)
      → after_batch next cancelled n (delete_batch ending limit p es) ≡ some end
      → IsSafe es n end
  unfolding delete_batch stop after_batch
  ending-IsSafe next committed cancelled limit es n end ih e = go (delete_first limit p es).1 refl e
    where
      go :
          (k : ℕ)
          → (delete_first limit p es).1 ≡ k
          → after_batch next cancelled n ((delete_first limit p es).0, some k) ≡ some end
          → IsSafe es n end
      go zero q e' =
          stop-IsSafe es n (delete_first limit p es).0 n true end (delete_first-others limit es)
            (omega (arith, delete_first-hits limit es)) e'
      go (suc k) q e' = elim (Bool-cases cancelled) [
        | inl done ↦
            stop-IsSafe es n (delete_first limit p es).0 (n + suc k) true end
              (delete_first-others limit es) (omega (arith, delete_first-hits limit es, q))
              (rw done at e')
        | inr on ↦ IsSafe-step limit (suc k) n es end q (ih (n + suc k) (rw on at e'))
      ]
  ending-IsSafe next rolled_back cancelled limit es n end ih e =
      stop-IsSafe es n es n false end refl (omega arith) e
  ending-IsSafe next lost cancelled limit es n end ih e =
      stop-IsSafe es n (delete_first limit p es).0 n false end (delete_first-others limit es)
        (omega (arith, delete_first-hits limit es)) e

  pub delete_loop-IsSafe :
      (fuel : ℕ) (fate : ℕ → BatchFate) (i limit : ℕ) (es : List Event) (n : ℕ) (end : LoopEnd)
      → delete_loop fuel fate i limit p es n ≡ some end
      → IsSafe es n end
  unfolding delete_loop
  delete_loop-IsSafe zero fate i limit es n end e = cc
  delete_loop-IsSafe (suc fuel) fate i limit es n end e =
      elim (Bool-cases (fate i).cancelled_before) [
        | inl done ↦ stop-IsSafe es n es n true end refl (omega arith) (rw done at e)
        | inr on ↦
            ending-IsSafe (delete_loop fuel fate (i + 1) limit p) (fate i).ending
              (fate i).cancelled_after limit es n end
              (λ m h.
                delete_loop-IsSafe fuel fate (i + 1) limit (delete_first limit p es).0 m end h)
              (rw on at e)
      ]
