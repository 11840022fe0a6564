-- ===== src/Plane/Retained.antt =====
-- crates/app/src/task_plane.rs: the queue of retained tasks.
use aivtuber.Common.{
  ℕ, ◌≤◌, ◌<◌, ◌≡◌, refl, inl, inr, String, true, none, some, List, [], ◌∷◌, ◌++◌, length, ltb,
  ◌==◌, string_eq, if◌then◌else◌, Bool-cases, arith,
}
use aivtuber.Common.Each.{Each}
use aivtuber.Task.Data.{AgentTask}
use aivtuber.Plane.Data.{find_retained}
use aivtuber.Plane.Operations.{trim_retained}

module _ {R : Type 0} where
  pub Each-trim_retained {κ} :
      (P : AgentTask R → Type κ) (bound : ℕ) (ts : List (AgentTask R))
      → Each P ts
      → Each P (trim_retained bound ts)
  unfolding trim_retained
  Each-trim_retained P bound [] h = h
  Each-trim_retained P bound (t ∷ ts) h = elim (Bool-cases (ltb bound (length (t ∷ ts)))) [
    | inl e ↦ rw e (Each-trim_retained P bound ts h.1)
    | inr e ↦ rw e h
  ]

  pub length-trim_retained :
      (bound : ℕ) (ts : List (AgentTask R)) → length (trim_retained bound ts) ≤ bound
  unfolding trim_retained
  length-trim_retained bound [] = omega arith
  length-trim_retained bound (t ∷ ts) = ground (arith, length-trim_retained bound ts)

  -- The search from the back finds the last task with the identifier.
  pub find_retained-push :
      (id : String) (ts : List (AgentTask R)) (t : AgentTask R)
      → find_retained id (ts ++ t ∷ []) ≡ (if t.id == id then some t else find_retained id ts)
  unfolding find_retained
  find_retained-push id [] t = refl
  find_retained-push id (x ∷ xs) t = ground (arith, find_retained-push id xs t)

  -- Trimming drops old tasks, and makes none appear.
  pub find_retained-trim_none :
      (id : String) (bound : ℕ) (ts : List (AgentTask R))
      → find_retained id ts ≡ none
      → find_retained id (trim_retained bound ts) ≡ none
  unfolding find_retained trim_retained
  find_retained-trim_none id bound [] h = h
  find_retained-trim_none id bound (t ∷ ts) h = ground (arith, find_retained-trim_none id bound ts)

  -- The newest task survives.
  pub find_retained-trim_last :
      (bound : ℕ) (ts : List (AgentTask R)) (t : AgentTask R) (id : String)
      → 0 < bound
      → (t.id == id) ≡ true
      → find_retained id (trim_retained bound (ts ++ t ∷ [])) ≡ some t
  unfolding find_retained trim_retained
  find_retained-trim_last bound [] t id h e = ground arith
  find_retained-trim_last bound (x ∷ xs) t id h e =
      ground (arith, find_retained-trim_last bound xs t id, find_retained-push id xs t)
