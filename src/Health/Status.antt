-- ===== src/Health/Status.antt =====
-- `StatusFromHealthy` finds an answer where there is one.
use etcdmonitor.Prelude.{
  ◌≡◌, ◌≢◌, refl, String, Bool, true, false, List, [], ◌∷◌, Option, none, some, arith, Result, ok,
  err, string_eq, Bool-cases, inl, inr, eq_iff,
}
use etcdmonitor.Health.{Manager, contains, first_answer, others, status_from_healthy, or_else}

abbrev pub answered : {E R : Type 0} → Result E R → Bool
answered (ok _) = true
answered (err _) = false

or_else-answered :
    {E F R : Type 0} (o : Result E R) (k : E → Result F R)
    → ((e : E) → o ≡ err e → answered (k e) ≡ true)
    → answered (or_else o k) ≡ true
or_else-answered (ok r) k h = refl
or_else-answered (err e) k h = h e refl

false-true : false ≢ true
false-true q = cc

answered-ok : {E R : Type 0} (o : Result E R) (e : E) → answered o ≡ true → o ≢ err e
answered-ok (ok r) e h f = cc
answered-ok (err d) e h f = absurd (false-true h)

same_contains : (eps : List String) (x y : String) → x ≡ y → contains eps x ≡ contains eps y
same_contains eps x y e = rw e refl

module _ {E R : Type 0} (status : String → Result E R) where
  same_status : (x y : String) → x ≡ y → status x ≡ status y
  same_status x y e = rw e refl

  not_answered : (ep : String) (e : E) → answered (status ep) ≡ true → status ep ≢ err e
  not_answered ep e a = answered-ok (status ep) e a

  first_answer-answered :
      (last : Option E) (eps : List String) (ep : String)
      → contains eps ep ≡ true
      → answered (status ep) ≡ true
      → answered (first_answer status last eps) ≡ true
  unfolding first_answer contains
  first_answer-answered last [] ep h a = absurd (false-true h)
  first_answer-answered last (x ∷ eps) ep h a =
      or_else-answered (status x) _
        λ e failed. first_answer-answered (some e) eps ep (later e failed) a
    where
      later : (e : E) → status x ≡ err e → contains eps ep ≡ true
      later e failed = ground (arith, eq_iff x ep, h, same_status x ep, not_answered ep e a, failed)

  others-contains :
      (eps all : List String) (ep : String)
      → contains all ep ≡ true
      → contains eps ep ≡ false
      → contains (others eps all) ep ≡ true
  unfolding others contains
  others-contains eps [] ep h out = h
  others-contains eps (x ∷ all) ep h out =
      ground (arith, eq_iff x ep, h, out, same_contains eps x ep, others-contains eps all ep)

  -- When some configured endpoint answers, so does the call, whatever the list of healthy
  -- endpoints is.
  pub status_available :
      (m : Manager) (ep : String)
      → contains m.all_endpoints ep ≡ true
      → answered (status ep) ≡ true
      → answered (status_from_healthy status m) ≡ true
  unfolding status_from_healthy
  status_available m ep h a = or_else-answered (first_answer status none m.healthy) _ λ last failed.
      or_else-answered (first_answer status last (others m.healthy m.all_endpoints)) _ λ e again.
        elim (Bool-cases (contains m.healthy ep)) [
          | inl inside ↦
              absurd (answered-ok _ last (first_answer-answered none m.healthy ep inside a) failed)
          | inr outside ↦ absurd (
              answered-ok _ e
                (first_answer-answered last (others m.healthy m.all_endpoints) ep
                  (others-contains m.healthy m.all_endpoints ep h outside) a)
                again)
        ]
