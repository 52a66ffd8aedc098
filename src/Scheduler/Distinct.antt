-- ===== src/Scheduler/Distinct.antt =====
-- services/worker_scheduler.py, `len(set(ids)) != len(ids)`: the test for a repeated id.
use hungerloop.Prelude.{
  ◌≤◌, String, true, false, List, [], ◌∷◌, string_eq, nat_eq, contains, nodup, length, ◌≡◌, refl,
  arith, eq_iff, inl, inr, Bool-cases, dedupe_from,
}

pub length-dedupe_from : (seen xs : List String) → length (dedupe_from seen xs) ≤ length xs
unfolding dedupe_from
length-dedupe_from seen [] = ground arith
length-dedupe_from seen (x ∷ xs) =
    ground (arith, length-dedupe_from seen xs, length-dedupe_from (x ∷ seen) xs)

fresh_head :
    (x : String) (seen xs : List String)
    → ((a : String) → contains xs a ≡ true → contains (x ∷ seen) a ≡ false)
    → contains xs x ≡ false
unfolding contains
fresh_head x seen xs apart = elim (Bool-cases (contains xs x)) [
  | inl t ↦ absurd (ground (arith, apart x t, eq_iff x x))
  | inr f ↦ f
]

fresh_tail :
    (x a : String) (seen xs : List String)
    → contains seen x ≡ false
    → (contains xs a ≡ true → contains (x ∷ seen) a ≡ false)
    → contains (x ∷ xs) a ≡ true
    → contains seen a ≡ false
unfolding contains
fresh_tail x a seen xs f apart m = ground (arith, f, m, apart, eq_iff x a)

pub distinct-dedupe_from :
    (seen xs : List String)
    → length (dedupe_from seen xs) ≡ length xs
    → (nodup xs ≡ true) × ((a : String) → contains xs a ≡ true → contains seen a ≡ false)
unfolding dedupe_from nodup
distinct-dedupe_from seen [] h = (refl, λ a m. absurd (unfold contains in ground (arith, m)))
distinct-dedupe_from seen (x ∷ xs) h = elim (Bool-cases (contains seen x)) [
  | inl t ↦ absurd (ground (arith, h, t, length-dedupe_from seen xs))
  | inr f ↦
      let (n, apart) = distinct-dedupe_from (x ∷ seen) xs (ground (arith, h, f)) in
      let fresh = fresh_head x seen xs apart in
      (ground (arith, n, fresh), λ a m. fresh_tail x a seen xs f (apart a) m)
]
