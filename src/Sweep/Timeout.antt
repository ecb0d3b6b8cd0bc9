-- ===== src/Sweep/Timeout.antt =====
-- run.py, `resolve_timeout_s`: which cap a task runs under.
use model_eval.Prelude.{
  ℕ, ◌≡◌, refl, sym, ap, ◌∙◌, String, Bool, false, ◌||◌, Option, none, some, nat_key, ◌==◌, lookup,
  if◌then◌else◌,
}
use model_eval.Prelude.Int.{ℤ}
use model_eval.Sweep.{
  Defaults, tier_of, tier_timeout, or_next, wall_clock_or_raise, from_serving, timeout_under,
  resolve_timeout_s,
}
use model_eval.ServingRegistry.{derive_wall_clock_s}

or_next-none : (o : Option ℕ) → or_next o none ≡ o
or_next-none none = refl
or_next-none (some n) = refl

-- Once a turn cap is registered, every task runs under the same cap.
pub resolve_timeout_s-capped :
    (a b : String) (n : ℤ) (d : Defaults)
    → d.turn_cap_n ≡ some n
    → (resolve_timeout_s a d ≡ resolve_timeout_s b d)
      × (resolve_timeout_s a d ≡ from_serving (derive_wall_clock_s n))
unfolding resolve_timeout_s
resolve_timeout_s-capped a b n d h =
    let e : (task : String) → resolve_timeout_s task d ≡ from_serving (derive_wall_clock_s n) =
      λ task. ap (timeout_under task d) h in
    (e a ∙ sym (e b), e a)

-- Without a turn cap, a task of a tier from 3 on runs under the cap that the config declares for that very
-- tier, else under the default, and without either it is refused: no other tier's cap is taken.
pub resolve_timeout_s-tier :
    (task : String) (tier : ℕ) (d : Defaults)
    → d.turn_cap_n ≡ none
    → tier_of task ≡ some tier
    → (tier == 1 || tier == 2) ≡ false
    → resolve_timeout_s task d ≡ wall_clock_or_raise task (or_next (lookup tier d.of_tier) d.other)
unfolding resolve_timeout_s
resolve_timeout_s-tier task tier d h t k =
    ap (timeout_under task d) h
    ∙ ap (λ (x : Option ℕ). wall_clock_or_raise task (or_next (tier_timeout d x) d.other)) t
    ∙ ap
        (λ (b : Bool).
          wall_clock_or_raise task
            (or_next (or_next (lookup tier d.of_tier) (if b then d.t1_t2 else none)) d.other))
        k
    ∙ ap (λ (x : Option ℕ). wall_clock_or_raise task (or_next x d.other))
        (or_next-none (lookup tier d.of_tier))
